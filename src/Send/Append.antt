-- ===== src/Send/Append.antt =====
-- send-message.kysely.ts: the transaction that appends a message to its stream and keeps a receipt
-- for the idempotency key.
use wake_surfer.Common.{
  ℕ, String, Bool, true, false, not, List, Option, none, some, ltb, str_eq, if◌then◌else◌, Result,
  ok, err,
}
use wake_surfer.Common.Exec.{Exec, pure, throw, continue, ◌>>=◌, ◌>>◌}
use wake_surfer.Values.{Value, is_nullish}
use wake_surfer.Contract.{MessageTarget, channel, dm, thread}
use wake_surfer.Store.{
  Error, invalid_lifecycle, stream_target_mismatch, integer_out_of_range, SendRequestFingerprint,
  StreamRow, MessageRow, ReceiptRow, Db, transaction, lift, stream_id_of, find_stream,
  find_stream_of_target, find_message, find_receipt, insert_stream, max_integer, advance_rows,
  insert_message, insert_receipt,
}
use wake_surfer.Send.{parse_send_request_fingerprint}
use wake_surfer.Send.Content.{
  create_persisted_text_message_content, parse_persisted_text_message_content,
}

pub record AppendTextMessageInput : Type 0 where
  pub sender_actor_id : String
  pub idempotency_key : String
  pub message_id : String
  pub stream_id : String
  pub target : MessageTarget
  pub text : String
  pub request_fingerprint : SendRequestFingerprint

pub record AppendedTextMessage : Type 0 where
  pub message_id : String
  pub stream_id : String
  pub sequence : ℕ
  pub sender_actor_id : String
  pub target : MessageTarget
  pub text : String
  pub created_at : ℕ

-- `message` is `none` for a message that was deleted.
pub record StoredSendMessageReceipt : Type 0 where
  pub request_fingerprint : SendRequestFingerprint
  pub message : Option AppendedTextMessage

pub data AppendTextMessageResult : Type 0 where
  created existing : StoredSendMessageReceipt → AppendTextMessageResult
  target_not_found : AppendTextMessageResult

-- The receipt, its message and the message's stream, as the query joins them.
pub record ReceiptJoin : Type 0 where
  pub receipt : ReceiptRow
  pub row : MessageRow
  pub stream : StreamRow

abbrev pub join_stream : ReceiptRow → MessageRow → Option StreamRow → Option ReceiptJoin
join_stream receipt row none = none
join_stream receipt row (some stream) =
    some (record { receipt = receipt; row = row; stream = stream })

abbrev pub join_message : Db → ReceiptRow → Option MessageRow → Option ReceiptJoin
join_message db receipt none = none
join_message db receipt (some row) = join_stream receipt row (find_stream row.stream_id db.streams)

abbrev pub join_receipt : Db → Option ReceiptRow → Option ReceiptJoin
join_receipt db none = none
join_receipt db (some receipt) =
    join_message db receipt (find_message receipt.result_message_id db.messages)

unfoldable pub row_to_appended_text_message :
    MessageRow → MessageTarget → Result Error AppendedTextMessage
row_to_appended_text_message row target = elim (parse_persisted_text_message_content row.content) [
  | err e ↦ err e
  | ok text ↦ ok (record {
    message_id = row.message_id;
    stream_id = row.stream_id;
    sequence = row.sequence;
    sender_actor_id = row.sender_actor_id;
    target = target;
    text = text;
    created_at = row.created_at;
  })
]

abbrev pub some_message :
    Result Error AppendedTextMessage → Result Error (Option AppendedTextMessage)
some_message (ok m) = ok (some m)
some_message (err e) = err e

-- The text of the message, or none for a tombstone.
unfoldable pub row_to_current_appended_text_message :
    MessageRow → MessageTarget → Option ℕ → Result Error (Option AppendedTextMessage)
unfolding row_to_appended_text_message
row_to_current_appended_text_message row target none =
    if is_nullish row.content
    then err invalid_lifecycle
    else some_message (row_to_appended_text_message row target)
row_to_current_appended_text_message row target (some deleted_at) =
    if is_nullish row.content then ok none else err invalid_lifecycle

abbrev pub to_receipt :
    Result Error SendRequestFingerprint
    → Result Error (Option AppendedTextMessage)
    → Result Error StoredSendMessageReceipt
to_receipt (ok fingerprint) (ok message) =
    ok (record { request_fingerprint = fingerprint; message = message })
to_receipt (ok fingerprint) (err e) = err e
to_receipt (err e) _ = err e

unfoldable pub row_to_stored_send_message_receipt :
    ReceiptJoin → Result Error StoredSendMessageReceipt
unfolding row_to_current_appended_text_message
row_to_stored_send_message_receipt j =
    to_receipt (parse_send_request_fingerprint j.receipt.fingerprint)
      (row_to_current_appended_text_message j.row j.stream.target j.row.deleted_at)

abbrev pub read_receipt : Option ReceiptJoin → Result Error (Option StoredSendMessageReceipt)
read_receipt none = ok none
read_receipt (some j) = elim (row_to_stored_send_message_receipt j) [
  | ok receipt ↦ ok (some receipt)
  | err e ↦ err e
]

unfoldable pub find_send_message_receipt :
    Db → (sender_actor_id idempotency_key : String) → Result Error (Option StoredSendMessageReceipt)
unfolding row_to_stored_send_message_receipt
find_send_message_receipt db sender key =
    read_receipt (join_receipt db (find_receipt sender key db.receipts))

abbrev pub is_thread : MessageTarget → Bool
is_thread (thread id) = true
is_thread _ = false

-- The end of `ensureThreadMessageStream`, for a root outside threads.
abbrev pub ensure_thread_stream :
    (thread_id stream_id : String) → (deleted_at : Option ℕ) → Option StreamRow → Exec Db Error Bool
ensure_thread_stream thread_id stream_id deleted_at (some existing_stream) =
    if not (str_eq (stream_id_of existing_stream) stream_id)
    then throw stream_target_mismatch
    else pure true
ensure_thread_stream thread_id stream_id (some at) none = pure false
ensure_thread_stream thread_id stream_id none none = insert_stream (thread thread_id) >> pure true

abbrev pub ensure_thread_of :
    (thread_id stream_id : String) → MessageRow → Option StreamRow → Exec Db Error Bool
ensure_thread_of thread_id stream_id root none db = (ok false, db)
ensure_thread_of thread_id stream_id root (some root_stream) db =
    if is_thread root_stream.target
    then (ok false, db)
    else ensure_thread_stream thread_id stream_id root.deleted_at
        (find_stream_of_target (thread thread_id) db.streams) db

abbrev pub ensure_thread_root :
    (thread_id stream_id : String) → Option MessageRow → Exec Db Error Bool
ensure_thread_root thread_id stream_id none db = (ok false, db)
ensure_thread_root thread_id stream_id (some root) db =
    ensure_thread_of thread_id stream_id root (find_stream root.stream_id db.streams) db

-- Does the stream of the target exist, now that it is created where it may be?
unfoldable pub ensure_message_stream : MessageTarget → (stream_id : String) → Exec Db Error Bool
ensure_message_stream (channel id) stream_id db = (insert_stream (channel id) >> pure true) db
ensure_message_stream (dm id) stream_id db = (insert_stream (dm id) >> pure true) db
ensure_message_stream (thread id) stream_id db =
    ensure_thread_root id stream_id (find_message id db.messages) db

abbrev pub advanced : Option (ℕ × List StreamRow) → Exec Db Error ℕ
advanced none db = (err stream_target_mismatch, db)
advanced (some (n, rows)) db =
    if ltb max_integer n
    then (err integer_out_of_range, db)
    else (ok n, record db { streams = rows })

unfoldable pub advance_sequence_for_target : (stream_id : String) → MessageTarget → Exec Db Error ℕ
advance_sequence_for_target stream_id target db =
    advanced (advance_rows stream_id target db.streams) db

-- The row of the new message.
abbrev pub new_row : AppendTextMessageInput → (sequence : ℕ) → Value → (now : ℕ) → MessageRow
new_row input sequence content now = record {
  message_id = input.message_id;
  stream_id = input.stream_id;
  sequence = sequence;
  sender_actor_id = input.sender_actor_id;
  version = 1;
  content = content;
  created_at = now;
  edited_at = none;
  deleted_at = none;
}

-- The end of the transaction, with the sequence number.
unfoldable pub write_message :
    AppendTextMessageInput → (now sequence : ℕ) → Exec Db Error AppendTextMessageResult
unfolding row_to_appended_text_message
write_message input now sequence = do
  content ← lift (create_persisted_text_message_content input.text)
  insert_message (new_row input sequence content now)
  insert_receipt (record {
    sender_actor_id = input.sender_actor_id;
    idempotency_key = input.idempotency_key;
    fingerprint = input.request_fingerprint;
    result_message_id = input.message_id;
  })
  message ← lift (row_to_appended_text_message (new_row input sequence content now) input.target)
  pure
      (created (record { request_fingerprint = input.request_fingerprint; message = some message }))

-- The rest, for a stream that exists.
unfoldable pub append_to_stream :
    AppendTextMessageInput → (now : ℕ) → Exec Db Error AppendTextMessageResult
unfolding advance_sequence_for_target write_message
append_to_stream input now = do
  sequence ← advance_sequence_for_target input.stream_id input.target
  write_message input now sequence

abbrev pub append_if :
    Bool → AppendTextMessageInput → (now : ℕ) → Exec Db Error AppendTextMessageResult
append_if true input now = append_to_stream input now
append_if false input now = pure target_not_found

-- The part of the transaction for a key that has no receipt.
unfoldable pub append_new :
    AppendTextMessageInput → (now : ℕ) → Exec Db Error AppendTextMessageResult
unfolding ensure_message_stream append_to_stream
append_new input now = do
  exists ← ensure_message_stream input.target input.stream_id
  append_if exists input now

abbrev pub append_unless :
    AppendTextMessageInput
    → (now : ℕ) → Option StoredSendMessageReceipt
    → Exec Db Error AppendTextMessageResult
append_unless input now (some receipt) = pure (existing receipt)
append_unless input now none = append_new input now

-- `now` is the time of the database.
unfoldable pub append_text_message :
    AppendTextMessageInput → (now : ℕ) → Exec Db Error AppendTextMessageResult
unfolding find_send_message_receipt append_new
append_text_message input now = transaction (λ db.
    continue (find_send_message_receipt db input.sender_actor_id input.idempotency_key)
      (append_unless input now) db)
