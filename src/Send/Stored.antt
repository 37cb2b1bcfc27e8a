-- ===== src/Send/Stored.antt =====
-- The content that is stored: which texts it takes, and what reading it gives back.
use Prim.Native.String.{len}
use wake_surfer.Common.{
  String, Bool, true, false, Option, none, some, ◌≡◌, ◌≤◌, ◌↔◌, refl, ap, ◌∙◌, arith, eq_refl,
  if◌then◌else◌, Result, ok, err, is_empty, trim, trim_idem,
}
use wake_surfer.Values.{
  Value, undefined, null, array, boolean, number, whole, negative, other, date, string, object,
  get_field,
}
use wake_surfer.Store.{Error, invalid_content}
use wake_surfer.Send.{normalize_message_text}
use wake_surfer.Send.Content.{
  max_text_message_utf8_bytes, is_text, is_schema_version, text_of, persisted_content,
  parse_persisted_text_message_content, create_persisted_text_message_content,
}
use wake_surfer.Streams.Rows.{PersistedTextMessageContent}
use wake_surfer.Streams.Rows

pub parse-persisted_content :
    (s : String)
    → parse_persisted_text_message_content (persisted_content s)
      ≡ (if is_text s then ok s else err invalid_content)
unfolding parse_persisted_text_message_content
parse-persisted_content s = refl

pub create-eq :
    (s : String)
    → create_persisted_text_message_content s
      ≡ (if is_text s then ok (persisted_content s) else err invalid_content)
unfolding create_persisted_text_message_content
create-eq s = ground (arith, parse-persisted_content s)

-- A text that is normalised is one that the content takes.
pub is_text-normalize :
    (s : String) {t : String}
    → normalize_message_text s ≡ some t
    → (is_text t ≡ true) × (t ≡ trim s)
unfolding normalize_message_text
is_text-normalize s h =
    let idem = trim_idem s in let same = eq_refl (trim s) in (ground arith, ground arith)

-- Normalising a text gives `t` exactly when trimming gives `t` and `t` can be stored as the content
-- of a message; such a `t` is then trimmed, not empty and at most 8192 bytes long in UTF-8.
pub normalize_message_text-create :
    (s t : String)
    → ((normalize_message_text s ≡ some t)
        ↔ ((trim s ≡ t) × (create_persisted_text_message_content t ≡ ok (persisted_content t))))
      × (normalize_message_text s ≡ some t
          → (trim t ≡ t) × (is_empty t ≡ false) × (len t ≤ max_text_message_utf8_bytes))
unfolding normalize_message_text
normalize_message_text-create s t =
    let idem = trim_idem s in
    let same = eq_refl (trim s) in
    let made = create-eq t in
    (
      (λ h. (ground arith, ground arith), λ h. ground arith),
      λ h. (ground arith, ground arith, ground arith),
    )

-- The stored content of the reading package for a text.
abbrev pub read_as : Result Error String → Option PersistedTextMessageContent
read_as (ok s) = some (record { schema_version = 1; kind = "text"; text = s })
read_as (err e) = none

readers_at : (fits : Bool) (v : Value) → Rows.parse_text fits v ≡ read_as (text_of fits v)
readers_at fits (string s) = ground arith
readers_at fits undefined = refl
readers_at fits null = refl
readers_at fits array = refl
readers_at fits (boolean b) = refl
readers_at fits (number n) = refl
readers_at fits (date d) = refl
readers_at fits (object fs) = refl

versions_at : (v : Value) → Rows.is_version v ≡ is_schema_version v
versions_at undefined = refl
versions_at null = refl
versions_at array = refl
versions_at (boolean b) = refl
versions_at (number (whole n)) = refl
versions_at (number (negative n)) = refl
versions_at (number other) = refl
versions_at (date d) = refl
versions_at (string s) = refl
versions_at (object fs) = refl

-- The two packages that read a stored content agree on every value: the package that sends and the
-- package that lists messages accept the same values and find the same text. In particular the
-- second one reads every content that the first one stores.
pub parse_persisted_text_message_content-agree :
    (v : Value)
    → Rows.parse_persisted_text_message_content v ≡ read_as (parse_persisted_text_message_content v)
unfolding Rows.parse_persisted_text_message_content parse_persisted_text_message_content
    Rows.has_exact_content_fields
parse_persisted_text_message_content-agree (object fs) =
    rw (versions_at (get_field "schemaVersion" fs)) (readers_at _ (get_field "text" fs))
parse_persisted_text_message_content-agree undefined = refl
parse_persisted_text_message_content-agree null = refl
parse_persisted_text_message_content-agree array = refl
parse_persisted_text_message_content-agree (boolean b) = refl
parse_persisted_text_message_content-agree (number n) = refl
parse_persisted_text_message_content-agree (date d) = refl
parse_persisted_text_message_content-agree (string s) = refl

-- A text that is turned into the content of a message is found again in that content, by the package
-- that sends messages and by the package that lists them.
pub parse-create :
    (s : String) {v : Value}
    → create_persisted_text_message_content s ≡ ok v
    → (parse_persisted_text_message_content v ≡ ok s)
      × (Rows.parse_persisted_text_message_content v
          ≡ some (record { schema_version = 1; kind = "text"; text = s }))
parse-create s {v} h =
    let made : (v ≡ persisted_content s) × (is_text s ≡ true) =
      let e = create-eq s in (ground arith, ground arith) in
    let read : parse_persisted_text_message_content v ≡ ok s =
      rw made.0 (rw (parse-persisted_content s, made.1) refl) in
    (read, parse_persisted_text_message_content-agree v ∙ ap read_as read)
