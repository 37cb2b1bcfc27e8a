-- ===== src/History/Lookup.antt =====
-- Looking up a receipt, its message and the message's stream, and the scheme of a fingerprint.
use wake_surfer.Common.{
  ℕ, String, true, false, Bool-cases, Option-cases, inl, inr, ◌⊎◌, List, [], ◌∷◌, Option, none,
  some, ◌≡◌, ◌≢◌, refl, ap, ◌∙◌, arith, str_eq, eq_iff, eq_refl, ltb, length, ok,
}
use wake_surfer.Contract.{MessageTarget}
use wake_surfer.Store.{
  SendRequestFingerprint, StreamRow, MessageRow, ReceiptRow, Db, find_stream, find_message,
  find_receipt, no_bytes,
}
use wake_surfer.Store.Consistent.{sequences_of, last_in, down_from, GapFree}
use wake_surfer.Send.{
  same_bytes, same_key_id, matches_send_request_fingerprint, parse_send_request_fingerprint,
}
use wake_surfer.Send.Content.{is_text, persisted_content}
use wake_surfer.Send.Stored.{parse-persisted_content}
use wake_surfer.Send.Append.{
  AppendedTextMessage, StoredSendMessageReceipt, ReceiptJoin, row_to_appended_text_message,
  row_to_current_appended_text_message, row_to_stored_send_message_receipt, read_receipt,
  find_send_message_receipt,
}
use wake_surfer.History.Receipts.{IsLive}

same_bytes_refl : (bytes : List ℕ) → same_bytes bytes bytes ≡ true
unfolding same_bytes
same_bytes_refl [] = refl
same_bytes_refl (b ∷ bytes) = let same = same_bytes_refl bytes in ground arith

same_key_id_refl : (key : Option String) → same_key_id key key ≡ true
same_key_id_refl none = refl
same_key_id_refl (some k) = eq_refl k

pub matches_refl : (f : SendRequestFingerprint) → matches_send_request_fingerprint f f ≡ true
unfolding matches_send_request_fingerprint
matches_refl f =
    let bytes = same_bytes_refl f.value in
    let key = same_key_id_refl f.key_id in let algorithm = eq_refl f.algorithm in ground arith

pub find_receipt-here :
    (row : ReceiptRow) (rows : List ReceiptRow)
    → find_receipt row.sender_actor_id row.idempotency_key (row ∷ rows) ≡ some row
unfolding find_receipt
find_receipt-here row rows = rw (eq_refl row.sender_actor_id, eq_refl row.idempotency_key) refl

pub find_message-here :
    (row : MessageRow) (rows : List MessageRow)
    → find_message row.message_id (row ∷ rows) ≡ some row
unfolding find_message
find_message-here row rows = rw (eq_refl row.message_id) refl

-- A message has a number, so its stream has a last one.
sequences_of-found :
    (id : String) (rows : List MessageRow) (row : MessageRow)
    → find_message id rows ≡ some row
    → sequences_of row.stream_id rows ≢ []
unfolding sequences_of find_message
sequences_of-found id [] row h e = cc
sequences_of-found id (first ∷ rows) row h e = elim (Bool-cases (str_eq first.message_id id)) [
  | inl same ↦
      let is_row : first ≡ row = ground arith in
      let stream : str_eq first.stream_id row.stream_id ≡ true =
        (eq_iff first.stream_id row.stream_id).1 (ap (λ r. r.stream_id) is_row) in
      ground arith
  | inr differs ↦
      let rest = sequences_of-found id rows row (ground arith) in
      elim (Bool-cases (str_eq first.stream_id row.stream_id)) [
        | inl here ↦ ground arith
        | inr there ↦ rest (ground arith)
      ]
]

pub stream-found :
    (db : Db) (id : String) (row : MessageRow)
    → GapFree db
    → find_message id db.messages ≡ some row
    → (stream : StreamRow) × (find_stream row.stream_id db.streams ≡ some stream)
stream-found db id row gap_free found = elim (Option-cases (find_stream row.stream_id db.streams)) [
  | inr stream ↦ stream
  | inl missing ↦ absurd (
      sequences_of-found id db.messages row found
        (gap_free row.stream_id ∙ ap (λ s. down_from (last_in s)) missing))
]

-- What a repeated call answers with, for the message as it is now.
abbrev pub appended_of : MessageRow → MessageTarget → String → AppendedTextMessage
appended_of row target text = record {
  message_id = row.message_id;
  stream_id = row.stream_id;
  sequence = row.sequence;
  sender_actor_id = row.sender_actor_id;
  target = target;
  text = text;
  created_at = row.created_at;
}

row_to_appended-eq :
    (row : MessageRow) (target : MessageTarget) (text : String)
    → row.content ≡ persisted_content text
    → is_text text ≡ true
    → row_to_appended_text_message row target ≡ ok (appended_of row target text)
unfolding row_to_appended_text_message
row_to_appended-eq row target text content fits =
    let read = parse-persisted_content text in ground arith

-- The message is the row's, with some text; or there is none, for a tombstone.
pub current_message :
    (row : MessageRow) (target : MessageTarget)
    → IsLive row
    → ((text : String) × (row_to_current_appended_text_message row target row.deleted_at
          ≡ ok (some (appended_of row target text))))
      ⊎ (row_to_current_appended_text_message row target row.deleted_at ≡ ok none)
unfolding row_to_current_appended_text_message
current_message row target (inl (text, alive, fits, content)) =
    let m = row_to_appended-eq row target text content fits in inl (text, ground arith)
current_message row target (inr (at, deleted, content)) = inr (ground arith)

pub parse_fingerprint-ok :
    (f : SendRequestFingerprint)
    → f.canonicalization_version ≡ 1
    → f.algorithm ≡ "sha256"
    → f.key_id ≡ none
    → no_bytes f.value ≡ false
    → parse_send_request_fingerprint f ≡ ok f
unfolding parse_send_request_fingerprint
parse_fingerprint-ok f version algorithm key bytes =
    let same = (eq_iff f.algorithm "sha256").1 algorithm in
    let some_bytes : ltb 0 (length f.value) ≡ true = has_length f.value bytes in ground arith
  where
    has_length : (l : List ℕ) → no_bytes l ≡ false → ltb 0 (length l) ≡ true
    has_length [] h = cc
    has_length (b ∷ l) h = ground arith

row_to_stored-eq :
    (receipt : ReceiptRow) (row : MessageRow) (stream : StreamRow)
    (message : Option AppendedTextMessage)
    → parse_send_request_fingerprint receipt.fingerprint ≡ ok receipt.fingerprint
    → row_to_current_appended_text_message row stream.target row.deleted_at ≡ ok message
    → row_to_stored_send_message_receipt (record { receipt = receipt; row = row; stream = stream })
      ≡ ok (record { request_fingerprint = receipt.fingerprint; message = message })
unfolding row_to_stored_send_message_receipt
row_to_stored-eq receipt row stream message f c = rw (f, c) refl

read_receipt-ok :
    (j : ReceiptJoin) (receipt : StoredSendMessageReceipt)
    → row_to_stored_send_message_receipt j ≡ ok receipt
    → read_receipt (some j) ≡ ok (some receipt)
read_receipt-ok j receipt h = ground arith

-- The receipt that the query finds, from the rows that it joins.
pub find_send_message_receipt-found :
    (db : Db) (sender key : String) (receipt : ReceiptRow) (row : MessageRow) (stream : StreamRow)
    (message : Option AppendedTextMessage)
    → find_receipt sender key db.receipts ≡ some receipt
    → find_message receipt.result_message_id db.messages ≡ some row
    → find_stream row.stream_id db.streams ≡ some stream
    → parse_send_request_fingerprint receipt.fingerprint ≡ ok receipt.fingerprint
    → row_to_current_appended_text_message row stream.target row.deleted_at ≡ ok message
    → find_send_message_receipt db sender key
      ≡ ok (some (record { request_fingerprint = receipt.fingerprint; message = message }))
unfolding find_send_message_receipt
find_send_message_receipt-found db sender key receipt row stream message r m s f c = rw r (
    rw m (
      rw s (
        read_receipt-ok (record { receipt = receipt; row = row; stream = stream }) _
          (row_to_stored-eq receipt row stream message f c))))
