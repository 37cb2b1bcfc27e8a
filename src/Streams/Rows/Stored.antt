-- ===== src/Streams/Rows/Stored.antt =====
-- What a row that was accepted looks like, and the message that was made of it.
use wake_surfer.Common.{
  Memᴰ, none, Option, subst, ◌>>=◌, ℕ, ◌≤◌, ◌≡◌, refl, ap, ◌∙◌, Option-cases, String, Bool, true,
  some, arith, List, [], ◌∷◌, All, ok, >>=-eq-ok, inl, inr, is_canonical,
}
use wake_surfer.Values.{
  whole, Value, undefined, null, number, string, date, object, is_nullish, is_string-eq,
  max_safe_integer,
}
use wake_surfer.Contract.{MessageTarget}
use wake_surfer.Streams.{
  Body, text, deleted, StreamMessage, RawStreamMessageRow, get_stream_messages_target_type,
  get_stream_messages_target_id,
}
use wake_surfer.Streams.Rows.{
  PersistedTextMessageContent, is_persisted_text, parse_text, parse_persisted_text_message_content,
  parse_non_blank_string, parse_positive_safe_integer, parse_date, parse_edited_at, parse_text_body,
  parse_body, parse_stream_message_row, parse_rows,
}

-- The date of the last edit, if there was one.
abbrev pub IsEdited : Value → Option ℕ → Type 0
IsEdited edited_at none = is_nullish edited_at ≡ true
IsEdited edited_at (some time) = edited_at ≡ date (some time)

-- The lifecycle of a row: a deleted message has no content and a date of deletion; a text message
-- has canonical text, at most 8,192 bytes of it, and no date of deletion.
abbrev pub IsLifecycle : (content deleted_at edited_at : Value) → Body → Type 0
IsLifecycle content deleted_at edited_at (deleted time) =
    (content ≡ null) × (deleted_at ≡ date (some time))
IsLifecycle content deleted_at edited_at (text t edited) =
    (is_nullish deleted_at ≡ true)
    × IsEdited edited_at edited
    × (is_persisted_text t ≡ true)
    × (parse_persisted_text_message_content content
        ≡ some (record { schema_version = 1; kind = "text"; text = t }))

-- The row and the message agree, and the message is well formed.
pub record IsStored (target : MessageTarget) (row : RawStreamMessageRow) (m : StreamMessage)
    : Type 0 where
  pub same_target : m.target ≡ target
  pub stored_type : row.target_type ≡ string (get_stream_messages_target_type target)
  pub stored_id : row.target_id ≡ string (get_stream_messages_target_id target)
  pub message_id : (row.message_id ≡ string m.message_id) × (is_canonical m.message_id ≡ true)
  pub sender :
      (row.sender_actor_id ≡ string m.sender_actor_id) × (is_canonical m.sender_actor_id ≡ true)
  pub sequence :
      (row.sequence ≡ number (whole m.sequence))
      × (1 ≤ m.sequence)
      × (m.sequence ≤ max_safe_integer)
  pub created_at : row.created_at ≡ date (some m.created_at)
  pub lifecycle : IsLifecycle row.content row.deleted_at row.edited_at m.body

parse_non_blank_string_lem :
    (v : Value) (s : String)
    → parse_non_blank_string v ≡ some s
    → (v ≡ string s) × (is_canonical s ≡ true)
unfolding parse_non_blank_string
parse_non_blank_string_lem (string t) s h = ground arith
parse_non_blank_string_lem undefined s h = cc
parse_non_blank_string_lem _ s h = cc

parse_positive_safe_integer_lem :
    (v : Value) (n : ℕ)
    → parse_positive_safe_integer v ≡ some n
    → (v ≡ number (whole n)) × (1 ≤ n) × (n ≤ max_safe_integer)
unfolding parse_positive_safe_integer
parse_positive_safe_integer_lem (number (whole k)) n h = ground arith
parse_positive_safe_integer_lem (number _) n h = cc
parse_positive_safe_integer_lem _ n h = cc

parse_date_lem : (v : Value) (time : ℕ) → parse_date v ≡ some time → v ≡ date (some time)
unfolding parse_date
parse_date_lem (date t) time h = ground arith
parse_date_lem _ time h = cc

parse_text_lem :
    (v : Value) (fits : Bool) (c : PersistedTextMessageContent)
    → parse_text fits v ≡ some c
    → (c ≡ record { schema_version = 1; kind = "text"; text = c.text })
      × (is_persisted_text c.text ≡ true)
parse_text_lem (string s) fits c h = ground arith
parse_text_lem undefined fits c h = cc
parse_text_lem _ fits c h = cc

-- Text that is read back is canonical: trimmed, not empty, and short enough.
pub parse_persisted_text_message_content_lem :
    (v : Value) (c : PersistedTextMessageContent)
    → parse_persisted_text_message_content v ≡ some c
    → (c ≡ record { schema_version = 1; kind = "text"; text = c.text })
      × (is_persisted_text c.text ≡ true)
unfolding parse_persisted_text_message_content
parse_persisted_text_message_content_lem (object fs) c h = parse_text_lem _ _ c h
parse_persisted_text_message_content_lem _ c h = cc

parse_edited_at_lem : (v : Value) (e : Option ℕ) → parse_edited_at v ≡ ok e → IsEdited v e
unfolding parse_edited_at
parse_edited_at_lem v none h = elim (Option-cases (parse_date v)) [
  | inl unread ↦ ground arith
  | inr (time, read) ↦ ground arith
]
parse_edited_at_lem v (some time) h = parse_date_lem v time (ground arith)

parse_text_body_lem :
    (content deleted_at edited_at : Value) (b : Body)
    → parse_text_body content deleted_at edited_at ≡ ok b
    → IsLifecycle content deleted_at edited_at b
unfolding parse_text_body
parse_text_body_lem content deleted_at edited_at (deleted time) h = ground arith
parse_text_body_lem content deleted_at edited_at (text t e) h =
    elim (Option-cases (parse_persisted_text_message_content content)) [
      | inl none_read ↦ ground arith
      | inr (c, read) ↦
          let (made, fits) = parse_persisted_text_message_content_lem content c read in
          let same : c.text ≡ t = ground arith in
          let edited : parse_edited_at edited_at ≡ ok e = ground arith in
          (
            ground arith,
            parse_edited_at_lem edited_at e edited,
            rw same at fits,
            rw same at (read ∙ ap some made),
          )
    ]

parse_body_lem :
    (content deleted_at edited_at : Value) (b : Body)
    → parse_body content deleted_at edited_at ≡ ok b
    → IsLifecycle content deleted_at edited_at b
unfolding parse_body
parse_body_lem null deleted_at edited_at (deleted time) h =
    (refl, parse_date_lem deleted_at time (ground arith))
parse_body_lem null deleted_at edited_at (text t e) h = ground arith
parse_body_lem content deleted_at edited_at b h =
    parse_text_body_lem content deleted_at edited_at b h

pub parse_stream_message_row-IsStored :
    (row : RawStreamMessageRow) (stream_id : String) (target : MessageTarget) (m : StreamMessage)
    → parse_stream_message_row row stream_id target ≡ ok m
    → IsStored target row m
unfolding parse_stream_message_row
parse_stream_message_row-IsStored row stream_id target m h = record {
  same_target = ground arith;
  stored_type = is_string-eq _ _ (ground arith);
  stored_id = is_string-eq _ _ (ground arith);
  message_id = parse_non_blank_string_lem _ _ (ground arith);
  sender = parse_non_blank_string_lem _ _ (ground arith);
  sequence = parse_positive_safe_integer_lem _ _ (ground arith);
  created_at = parse_date_lem _ _ (ground arith);
  lifecycle = parse_body_lem _ _ row.edited_at _ (ground arith);
}

-- Each message was made of one of the rows, and is well formed.
abbrev pub AreStored : MessageTarget → List RawStreamMessageRow → List StreamMessage → Type 0
AreStored target rows = All λ m. (row : RawStreamMessageRow) × Memᴰ row rows × IsStored target row m

parse_rows-among :
    (rows all : List RawStreamMessageRow) (stream_id : String) (target : MessageTarget)
    (ms : List StreamMessage)
    → ((row : RawStreamMessageRow) → Memᴰ row rows → Memᴰ row all)
    → parse_rows rows stream_id target ≡ ok ms
    → AreStored target all ms
unfolding parse_rows
parse_rows-among [] all stream_id target [] within h = tt
parse_rows-among [] all stream_id target (m ∷ ms) within h = cc
parse_rows-among (row ∷ rows) all stream_id target ms within h =
    let (m, parsed, h₁) =
      >>=-eq-ok (parse_stream_message_row row stream_id target)
        (λ m. parse_rows rows stream_id target >>= λ r. ok (m ∷ r)) h in
    let (r, rest, h₂) = >>=-eq-ok (parse_rows rows stream_id target) (λ r. ok (m ∷ r)) h₁ in
    let same : m ∷ r ≡ ms = cc in
    subst (AreStored target all) same (
      (
        row,
        within row (Memᴰ.head refl),
        parse_stream_message_row-IsStored row stream_id target m parsed,
      ),
      parse_rows-among rows all stream_id target r (λ other h. within other (Memᴰ.tail h)) rest,
    )

-- Every message of a parsed answer comes from a row of it.
pub parse_rows-AreStored :
    (rows : List RawStreamMessageRow) (stream_id : String) (target : MessageTarget)
    (ms : List StreamMessage)
    → parse_rows rows stream_id target ≡ ok ms
    → AreStored target rows ms
parse_rows-AreStored rows stream_id target ms h =
    parse_rows-among rows rows stream_id target ms (λ row h. h) h
