-- ===== src/Streams/Rows.antt =====
-- stream-messages.ts and persisted-message-content.ts: database rows, which are untrusted values,
-- parsed into messages.
pub mod Stored
use Prim.Native.String.{len}
use wake_surfer.Common.{
  ℕ, String, ◌<◌, Bool, true, false, not, ◌&&◌, ◌||◌, List, [], ◌∷◌, Option, none, some, ltb, leb,
  ◌==◌, str_eq, if◌then◌else◌, Result, ok, err, ◌>>=◌, ◌>>◌, guard, is_canonical, is_empty, trim,
}
use wake_surfer.Values.{
  Number, whole, negative, other, Value, undefined, null, array, boolean, number, string, date,
  object, Fields, is_safe_integer, is_string, is_nullish, count_fields, get_field, has_field,
}
use wake_surfer.Contract.{MessageTarget}
use wake_surfer.Streams.{
  Error, type_error, data_integrity, stream_target_mismatch, invalid_storage_row, Body, text,
  deleted, StreamMessage, RawStreamMessageRow, RawStreamMetadataRow, MessageStreamMetadata, missing,
  found, get_stream_messages_target_type, get_stream_messages_target_id,
}

abbrev pub persisted_text_message_content_schema_version : ℕ
persisted_text_message_content_schema_version = 1

abbrev pub max_text_message_utf8_bytes : ℕ
max_text_message_utf8_bytes = 8192

pub record PersistedTextMessageContent : Type 0 where
  pub schema_version : ℕ
  pub kind : String
  pub text : String

unfoldable pub has_exact_content_fields : Fields → Bool
has_exact_content_fields value =
    count_fields value == 3
    && (has_field "schemaVersion" value && (has_field "kind" value && has_field "text" value))

-- value.schemaVersion === 1
abbrev pub is_version : Value → Bool
is_version (number (whole n)) = n == persisted_text_message_content_schema_version
is_version _ = false

-- typeof text === "string", not empty, trimmed, and short enough
abbrev pub is_persisted_text : String → Bool
is_persisted_text s =
    not (is_empty s) && (str_eq s (trim s) && leb (len s) max_text_message_utf8_bytes)

abbrev pub parse_text : Bool → Value → Option PersistedTextMessageContent
parse_text fits (string s) =
    if fits && is_persisted_text s
    then some (record {
      schema_version = persisted_text_message_content_schema_version;
      kind = "text";
      text = s;
    })
    else none
parse_text fits _ = none

-- `none` where the source throws.
unfoldable pub parse_persisted_text_message_content : Value → Option PersistedTextMessageContent
unfolding has_exact_content_fields
parse_persisted_text_message_content (object value) =
    parse_text
      (has_exact_content_fields value
        && (is_version (get_field "schemaVersion" value)
            && is_string (get_field "kind" value) "text"))
      (get_field "text" value)
parse_persisted_text_message_content _ = none

unfoldable pub parse_non_blank_string : Value → Option String
parse_non_blank_string (string value) = if is_canonical value then some value else none
parse_non_blank_string _ = none

unfoldable pub parse_positive_safe_integer : Value → Option ℕ
parse_positive_safe_integer (number (whole n)) =
    if not (is_safe_integer (whole n)) || leb n 0 then none else some n
parse_positive_safe_integer _ = none

unfoldable pub parse_date : Value → Option ℕ
parse_date (date time) = time
parse_date _ = none

abbrev pub or_throw {ℓ} : {A : Type ℓ} → Option A → Error → Result Error A
or_throw none e = err e
or_throw (some a) e = ok a

abbrev parse_head_sequence : Value → Result Error MessageStreamMetadata
parse_head_sequence (number (whole n)) =
    if is_safe_integer (whole n) then ok (found n) else err (data_integrity invalid_storage_row)
parse_head_sequence _ = err (data_integrity invalid_storage_row)

unfoldable pub parse_message_stream_metadata :
    Option RawStreamMetadataRow → MessageTarget → Result Error MessageStreamMetadata
unfolding get_stream_messages_target_type get_stream_messages_target_id
parse_message_stream_metadata none expected = ok missing
parse_message_stream_metadata (some row) expected =
    if not (is_string row.target_type (get_stream_messages_target_type expected))
      || not (is_string row.target_id (get_stream_messages_target_id expected))
    then err (data_integrity stream_target_mismatch)
    else parse_head_sequence row.head_sequence

-- editedAt: absent, or a valid date
unfoldable pub parse_edited_at : Value → Result Error (Option ℕ)
unfolding parse_date
parse_edited_at value = if is_nullish value then ok none else elim (parse_date value) [
  | none ↦ err (data_integrity invalid_storage_row)
  | some time ↦ ok (some time)
]

unfoldable pub parse_text_body : (content deleted_at edited_at : Value) → Result Error Body
parse_text_body content deleted_at edited_at = do
  guard (is_nullish deleted_at) (data_integrity invalid_storage_row)
  c ← or_throw (parse_persisted_text_message_content content) (data_integrity invalid_storage_row)
  edited ← parse_edited_at edited_at
  ok (text c.text edited)

-- The lifecycle fields: a deleted message has no content and a date of deletion, a text message
-- has content, no date of deletion and perhaps a date of its last edit.
unfoldable pub parse_body : (content deleted_at edited_at : Value) → Result Error Body
parse_body null deleted_at edited_at = do
  time ← or_throw (parse_date deleted_at) (data_integrity invalid_storage_row)
  ok (deleted time)
parse_body content deleted_at edited_at = parse_text_body content deleted_at edited_at

unfoldable pub parse_stream_message_row :
    RawStreamMessageRow → (stream_id : String) (target : MessageTarget) → Result Error StreamMessage
parse_stream_message_row row stream_id target = do
  guard
      (is_string row.stream_id stream_id
        && (is_string row.target_type (get_stream_messages_target_type target)
            && is_string row.target_id (get_stream_messages_target_id target)))
      (data_integrity stream_target_mismatch)
  message_id ← or_throw (parse_non_blank_string row.message_id) (data_integrity invalid_storage_row)
  sequence ←
      or_throw (parse_positive_safe_integer row.sequence) (data_integrity invalid_storage_row)
  sender ←
      or_throw (parse_non_blank_string row.sender_actor_id) (data_integrity invalid_storage_row)
  created ← or_throw (parse_date row.created_at) (data_integrity invalid_storage_row)
  body ← parse_body row.content row.deleted_at row.edited_at
  ok (record {
    message_id = message_id;
    sequence = sequence;
    sender_actor_id = sender;
    target = target;
    created_at = created;
    sent_at_client = none;
    body = body;
  })

-- rows.map((row) => parseStreamMessageRow(row, input)): the first bad row throws
unfoldable pub parse_rows :
    List RawStreamMessageRow → String → MessageTarget → Result Error (List StreamMessage)
parse_rows [] stream_id target = ok []
parse_rows (row ∷ rows) stream_id target = do
  m ← parse_stream_message_row row stream_id target
  ms ← parse_rows rows stream_id target
  ok (m ∷ ms)
