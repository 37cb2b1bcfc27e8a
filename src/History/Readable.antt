-- ===== src/History/Readable.antt =====
-- The package that lists messages reads what the packages that send and change them have stored.
use wake_surfer.Common.{ℕ, String, true, List, Option, none, some, ◌≡◌, refl, ap, ◌∙◌, ok, inl, inr}
use wake_surfer.Values.{Value, null, date}
use wake_surfer.Store.{MessageRow, empty_db, find_message}
use wake_surfer.Send.Content.{is_text, persisted_content, parse_persisted_text_message_content}
use wake_surfer.Send.Stored.{
  parse-persisted_content, parse_persisted_text_message_content-agree, read_as,
}
use wake_surfer.Streams.{Body, text, deleted}
use wake_surfer.Streams.Rows.{parse_body, parse_text_body, parse_edited_at, parse_date, or_throw}
use wake_surfer.Streams.Rows
use wake_surfer.History.{Call, Environment, run}
use wake_surfer.History.Receipts.{IsLive, run-IsLive, find_message-All}

-- A column of type timestamptz, as the driver hands it out.
abbrev pub column : Option ℕ → Value
column none = null
column (some t) = date (some t)

read-content :
    (s : String)
    → is_text s ≡ true
    → Rows.parse_persisted_text_message_content (persisted_content s)
      ≡ some (record { schema_version = 1; kind = "text"; text = s })
read-content s fits =
    let sent : parse_persisted_text_message_content (persisted_content s) ≡ ok s =
      rw (parse-persisted_content s, fits) refl in
    parse_persisted_text_message_content-agree (persisted_content s) ∙ ap read_as sent

parse_edited_at-column : (t : Option ℕ) → parse_edited_at (column t) ≡ ok t
unfolding parse_edited_at parse_date
parse_edited_at-column none = refl
parse_edited_at-column (some t) = refl

parse_body-live :
    (s : String) (edited : Option ℕ)
    → is_text s ≡ true
    → parse_body (persisted_content s) null (column edited) ≡ ok (text s edited)
unfolding parse_body parse_text_body
parse_body-live s edited fits = rw (read-content s fits, parse_edited_at-column edited) refl

-- A body says what a row holds.
abbrev pub IsBodyOf : MessageRow → Body → Type 0
IsBodyOf row (text s edited) =
    (row.content ≡ persisted_content s) × (row.edited_at ≡ edited) × (row.deleted_at ≡ none)
IsBodyOf row (deleted at) = (row.content ≡ null) × (row.deleted_at ≡ some at)

parse_body-IsBodyOf :
    (row : MessageRow)
    → IsLive row
    → (body : Body) × (parse_body row.content (column row.deleted_at) (column row.edited_at)
        ≡ ok body)
      × IsBodyOf row body
unfolding parse_body parse_date
parse_body-IsBodyOf row (inl (s, alive, fits, content)) = (
  text s row.edited_at,
  rw (content, alive) (parse_body-live s row.edited_at fits),
  (content, refl, alive),
)
parse_body-IsBodyOf row (inr (at, gone, content)) =
    (deleted at, rw (content, gone) refl, (content, gone))

-- After any number of calls that send, edit and delete messages, from the empty database on, the
-- package that lists messages reads the body of every stored message without an error: the text
-- that was stored with the time of its last edit, or the time of the deletion of a message that has
-- no content. The driver is taken to hand out a time as a valid date and NULL as null.
pub run-IsBodyOf :
    (env : Environment) (calls : List Call) (message_id : String) (row : MessageRow)
    → find_message message_id (run env calls empty_db).messages ≡ some row
    → (body : Body) × (parse_body row.content (column row.deleted_at) (column row.edited_at)
        ≡ ok body)
      × IsBodyOf row body
run-IsBodyOf env calls message_id row found = parse_body-IsBodyOf row (
    find_message-All IsLive message_id (run env calls empty_db).messages row (run-IsLive env calls)
      found)
