-- ===== src/Send/Execute.antt =====
-- send-message.usecase.ts. The first look for a receipt and the transaction see different states of
-- the database where other calls come between: `seen` is the database at the first one.
use wake_surfer.Common.{
  ℕ, String, Bool, true, false, not, List, Option, none, some, str_eq, if◌then◌else◌, Result, ok,
  err, guard,
}
use wake_surfer.Common.Exec.{Exec, pure, ◌>>=◌, ◌>>◌}
use wake_surfer.Contract.{MessageTarget}
use wake_surfer.Store.{
  Error, stream_target_mismatch, unexpected_tombstone, SendRequestFingerprint, Db, lift,
}
use wake_surfer.Send.{
  CanonicalPayload, assert_non_blank_string, assert_idempotency_key, assert_send_message_target,
  get_send_message_stream_id, normalize_message_text, create_send_request_fingerprint,
  matches_send_request_fingerprint,
}
use wake_surfer.Send.Append.{
  AppendTextMessageInput, AppendedTextMessage, StoredSendMessageReceipt, AppendTextMessageResult,
  created, existing, target_not_found, find_send_message_receipt, append_text_message,
}

pub record SendMessageInput : Type 0 where
  pub sender_actor_id : String
  pub idempotency_key : String
  pub target : MessageTarget
  pub text : String

pub data Persistence : Type 0 where
  newly already : Persistence

pub data Reason : Type 0 where
  invalid_text no_target write_forbidden idempotency_conflict message_deleted : Reason

pub data SendMessageResult : Type 0 where
  accepted : Persistence → AppendedTextMessage → SendMessageResult
  rejected : Reason → SendMessageResult

-- What the resolver answers: a stream ID, or none for a target that is not found.
abbrev pub Resolver : Type 0
Resolver = (sender_actor_id : String) (target : MessageTarget) → Option String

abbrev pub WriteAuthorizer : Type 0
WriteAuthorizer = (sender_actor_id : String) (target : MessageTarget) (stream_id : String) → Bool

abbrev pub accepted_or_deleted : Option AppendedTextMessage → SendMessageResult
accepted_or_deleted none = rejected message_deleted
accepted_or_deleted (some m) = accepted already m

unfoldable pub result_for_existing_receipt :
    SendRequestFingerprint → StoredSendMessageReceipt → SendMessageResult
result_for_existing_receipt fingerprint receipt =
    if not (matches_send_request_fingerprint receipt.request_fingerprint fingerprint)
    then rejected idempotency_conflict
    else accepted_or_deleted receipt.message

abbrev pub newly_accepted : Option AppendedTextMessage → Result Error SendMessageResult
newly_accepted none = err unexpected_tombstone
newly_accepted (some m) = ok (accepted newly m)

-- The answer for what the transaction returned.
unfoldable pub result_for_append :
    SendRequestFingerprint → AppendTextMessageResult → Result Error SendMessageResult
unfolding result_for_existing_receipt
result_for_append fingerprint target_not_found = ok (rejected no_target)
result_for_append fingerprint (existing receipt) =
    ok (result_for_existing_receipt fingerprint receipt)
result_for_append fingerprint (created receipt) = newly_accepted receipt.message

-- The input of the transaction.
abbrev pub append_input :
    SendMessageInput
    → String
    → SendRequestFingerprint
    → (message_id stream_id : String) → AppendTextMessageInput
append_input input text fingerprint message_id stream_id = record {
  sender_actor_id = input.sender_actor_id;
  idempotency_key = input.idempotency_key;
  message_id = message_id;
  stream_id = stream_id;
  target = input.target;
  text = text;
  request_fingerprint = fingerprint;
}

module _ (stringify : CanonicalPayload → String) (sha256 : String → List ℕ)
    (resolve_target : Resolver) (authorize_write : WriteAuthorizer) where
  -- The part behind the write authorizer.
  unfoldable pub send_authorized :
      SendMessageInput
      → (text : String) → SendRequestFingerprint
      → (message_id : String) → (now : ℕ) → (stream_id : String) → Exec Db Error SendMessageResult
  unfolding append_text_message result_for_append
  send_authorized input text fingerprint message_id now stream_id = do
    lift (assert_non_blank_string message_id)
    appended ← append_text_message (append_input input text fingerprint message_id stream_id) now
    lift (result_for_append fingerprint appended)

  abbrev pub send_if :
      Bool
      → SendMessageInput
      → (text : String) → SendRequestFingerprint
      → (message_id : String) → (now : ℕ) → (stream_id : String) → Exec Db Error SendMessageResult
  send_if true input text fingerprint message_id now stream_id =
      send_authorized input text fingerprint message_id now stream_id
  send_if false input text fingerprint message_id now stream_id = pure (rejected write_forbidden)

  -- The part for a target that was resolved.
  unfoldable pub send_resolved :
      SendMessageInput
      → (text : String) → SendRequestFingerprint
      → (message_id : String) → (now : ℕ) → (stream_id : String) → Exec Db Error SendMessageResult
  send_resolved input text fingerprint message_id now stream_id = do
    lift (assert_non_blank_string stream_id)
    lift (guard (str_eq stream_id (get_send_message_stream_id input.target)) stream_target_mismatch)
    send_if (authorize_write input.sender_actor_id input.target stream_id) input text fingerprint
        message_id now stream_id

  abbrev pub send_to :
      SendMessageInput
      → (text : String) → SendRequestFingerprint
      → (message_id : String) → (now : ℕ) → Option String
      → Exec Db Error SendMessageResult
  send_to input text fingerprint message_id now none = pure (rejected no_target)
  send_to input text fingerprint message_id now (some stream_id) =
      send_resolved input text fingerprint message_id now stream_id

  abbrev pub send_unless :
      SendMessageInput
      → (text : String) → SendRequestFingerprint
      → (message_id : String) → (now : ℕ) → Option StoredSendMessageReceipt
      → Exec Db Error SendMessageResult
  send_unless input text fingerprint message_id now (some receipt) =
      pure (result_for_existing_receipt fingerprint receipt)
  send_unless input text fingerprint message_id now none =
      send_to input text fingerprint message_id now
        (resolve_target input.sender_actor_id input.target)

  -- The part for a text that is fit to be stored.
  unfoldable pub send_normalized :
      (seen : Db)
      → SendMessageInput
      → (message_id : String) → (now : ℕ) → Option String
      → Exec Db Error SendMessageResult
  unfolding create_send_request_fingerprint find_send_message_receipt send_resolved
  send_normalized seen input message_id now none = pure (rejected invalid_text)
  send_normalized seen input message_id now (some text) = do
    fingerprint ← lift (create_send_request_fingerprint stringify sha256 input.target text)
    found ← lift (find_send_message_receipt seen input.sender_actor_id input.idempotency_key)
    send_unless input text fingerprint message_id now found

  -- `message_id` is what `generateMessageId` answers in this call.
  unfoldable pub execute_send_message :
      (seen : Db)
      → SendMessageInput
      → (message_id : String) → (now : ℕ) → Exec Db Error SendMessageResult
  unfolding send_normalized
  execute_send_message seen input message_id now = do
    lift (assert_non_blank_string input.sender_actor_id)
    lift (assert_idempotency_key input.idempotency_key)
    lift (assert_send_message_target input.target)
    send_normalized seen input message_id now (normalize_message_text input.text)
