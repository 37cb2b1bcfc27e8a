-- ===== src/Send/Content.antt =====
-- packages/realtime-chat-message-send/src/persisted-message-content.ts: the content of a text
-- message as it is stored.
use Prim.Native.String.{len}
use wake_surfer.Common.{
  ℕ, String, Bool, false, not, ◌&&◌, leb, ◌==◌, str_eq, if◌then◌else◌, Result, ok, err, is_empty,
  trim,
}
use wake_surfer.Values.{
  Value, Fields, number, whole, string, object, end, field, is_string, count_fields, get_field,
  has_field,
}
use wake_surfer.Store.{Error, invalid_content}

abbrev pub persisted_text_message_content_schema_version : ℕ
persisted_text_message_content_schema_version = 1

abbrev pub max_text_message_utf8_bytes : ℕ
max_text_message_utf8_bytes = 8192

-- The tests of `text`: not empty, trimmed, and short enough.
abbrev pub is_text : String → Bool
is_text s = not (is_empty s) && (str_eq s (trim s) && leb (len s) max_text_message_utf8_bytes)

abbrev pub is_schema_version : Value → Bool
is_schema_version (number (whole n)) = n == persisted_text_message_content_schema_version
is_schema_version _ = false

-- A strict object has the three keys and no other.
abbrev pub has_strict_keys : Fields → Bool
has_strict_keys fs =
    (count_fields fs == 3)
    && (has_field "schemaVersion" fs && (has_field "kind" fs && has_field "text" fs))

abbrev pub text_of : Bool → Value → Result Error String
text_of fits (string s) = if fits && is_text s then ok s else err invalid_content
text_of fits _ = err invalid_content

-- The text of the content.
unfoldable pub parse_persisted_text_message_content : Value → Result Error String
parse_persisted_text_message_content (object fs) =
    text_of
      (has_strict_keys fs
        && (is_schema_version (get_field "schemaVersion" fs)
            && is_string (get_field "kind" fs) "text"))
      (get_field "text" fs)
parse_persisted_text_message_content _ = err invalid_content

-- The object that is written to the column.
abbrev pub persisted_content : String → Value
persisted_content s = object (
    field "schemaVersion" (number (whole persisted_text_message_content_schema_version))
      (field "kind" (string "text") (field "text" (string s) end)))

unfoldable pub create_persisted_text_message_content : String → Result Error Value
unfolding parse_persisted_text_message_content
create_persisted_text_message_content s =
    elim (parse_persisted_text_message_content (persisted_content s)) [
      | err e ↦ err e
      | ok t ↦ ok (persisted_content t)
    ]
