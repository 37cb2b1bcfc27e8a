-- ===== src/Send/Accepted.antt =====
-- The whole call, for a message that nothing stands against.
use wake_surfer.Common.{
  has_nul, ◌∷◌, inl, inr, ℕ, suc, ◌<◌, String, true, false, List, none, some, ◌≡◌, refl, arith,
  Result, ok, is_empty, is_empty-trim, trim, is_canonical,
}
use wake_surfer.Contract.{MessageTarget, get_canonical_stream_id, get_message_target_id}
use wake_surfer.Contract.Identity.{get_canonical_stream_id-not_blank}
use wake_surfer.Store.{
  Error, stream_target_mismatch, Db, find_message, find_receipt, has_result, no_bytes, max_integer,
}
use wake_surfer.Store.Consistent.{last_of, GapFree}
use wake_surfer.Send.{
  CanonicalPayload, normalize_message_text, fingerprint_of, create_send_request_fingerprint,
}
use wake_surfer.Send.Content.{is_text, persisted_content}
use wake_surfer.Send.Stored.{create-eq, is_text-normalize}
use wake_surfer.Send.Append.{AppendTextMessageInput, is_thread, new_row, append_text_message}
use wake_surfer.Send.Appended.{receipt_row, appended, created_answer}
use wake_surfer.Send.Results.{IsSent, execute_send_message-Sent, result_for_append-created}
use wake_surfer.Send.Succeeds.{IsPlain}
use wake_surfer.Send.Execute.{
  SendMessageInput, SendMessageResult, accepted, newly, Resolver, WriteAuthorizer, append_input,
  send_authorized, send_resolved, send_normalized, execute_send_message,
}
use wake_surfer.Send.Admitted.{
  find_send_message_receipt-none, append_text_message-created, assert_non_blank_string-ok,
  assert_idempotency_key-ok, assert_send_message_target-ok, same_stream-ok,
}

module _ (stringify : CanonicalPayload → String) (sha256 : String → List ℕ)
    (resolve_target : Resolver) (authorize_write : WriteAuthorizer) where
  -- The input of the transaction of the call.
  abbrev pub transaction_input :
      SendMessageInput → (text message_id : String) → AppendTextMessageInput
  transaction_input input text message_id =
      append_input input text
        (fingerprint_of stringify sha256 input.target (persisted_content text)) message_id
        (get_canonical_stream_id input.target)

  create_send_request_fingerprint-ok :
      (target : MessageTarget) (text : String)
      → is_text text ≡ true
      → create_send_request_fingerprint stringify sha256 target text
        ≡ ok (fingerprint_of stringify sha256 target (persisted_content text))
  unfolding create_send_request_fingerprint
  create_send_request_fingerprint-ok target text fits = let made = create-eq text in ground arith

  send_authorized-accepted :
      (input : SendMessageInput) (id text : String) (now n : ℕ) (db : Db)
      → is_empty (trim id) ≡ false
      → (append_text_message (transaction_input input text id) now db).0
        ≡ ok (created_answer (transaction_input input text id) now n)
      → (send_authorized stringify sha256 resolve_target authorize_write input text
          (fingerprint_of stringify sha256 input.target (persisted_content text))
          id
          now
          (get_canonical_stream_id input.target)
          db).0
        ≡ ok (accepted newly (appended (transaction_input input text id) now n))
  unfolding send_authorized
  send_authorized-accepted input id text now n db fresh done =
      let f = fingerprint_of stringify sha256 input.target (persisted_content text) in
      rw (assert_non_blank_string-ok id fresh)
        (rw done (result_for_append-created f (transaction_input input text id) now n))

  execute_send_message-answer :
      (seen : Db) (input : SendMessageInput) (message_id : String) (now : ℕ) (db : Db)
      (text : String)
      → is_empty (trim input.sender_actor_id) ≡ false
      → is_canonical input.idempotency_key ≡ true
      → is_thread input.target ≡ false
      → is_empty (trim (get_message_target_id input.target)) ≡ false
      → normalize_message_text input.text ≡ some text
      → resolve_target input.sender_actor_id input.target
        ≡ some (get_canonical_stream_id input.target)
      → authorize_write input.sender_actor_id input.target (get_canonical_stream_id input.target)
        ≡ true
      → is_empty (trim message_id) ≡ false
      → IsPlain (transaction_input input text message_id)
      → has_nul (get_message_target_id input.target) ≡ false
      → ((s : String) → no_bytes (sha256 s) ≡ false)
      → find_receipt input.sender_actor_id input.idempotency_key seen.receipts ≡ none
      → find_receipt input.sender_actor_id input.idempotency_key db.receipts ≡ none
      → find_message message_id db.messages ≡ none
      → has_result message_id db.receipts ≡ false
      → GapFree db
      → last_of (get_canonical_stream_id input.target) db.streams < max_integer
      → (execute_send_message stringify sha256 resolve_target authorize_write seen input message_id
          now db).0
        ≡ ok (
            accepted newly (
              appended
                (transaction_input input text message_id)
                now
                (suc (last_of (get_canonical_stream_id input.target) db.streams))))
  unfolding execute_send_message send_normalized send_resolved send_authorized
  execute_send_message-answer seen input id now db text sender key plain named normalized resolved
        allowed fresh texts target_plain bytes unseen free new_message no_result gap_free small =
      let fits = is_text-normalize input.text normalized in
      let f = fingerprint_of stringify sha256 input.target (persisted_content text) in
      let blank_id : is_empty (get_message_target_id input.target) ≡ false =
        is_empty-trim (get_message_target_id input.target) named in
      let done =
        append_text_message-created (transaction_input input text id) now db plain blank_id
          target_plain refl gap_free small (new_message, free, no_result, bytes _, fits.0, texts) in
      rw
        (
          assert_non_blank_string-ok input.sender_actor_id sender,
          assert_idempotency_key-ok input.idempotency_key key,
          assert_send_message_target-ok input.target named,
          normalized,
          create_send_request_fingerprint-ok input.target text (fits.0),
          find_send_message_receipt-none seen input.sender_actor_id input.idempotency_key unseen,
          resolved,
          assert_non_blank_string-ok (get_canonical_stream_id input.target)
              (get_canonical_stream_id-not_blank input.target),
          same_stream-ok input.target stream_target_mismatch,
          allowed,
        )
        (send_authorized-accepted input id text now _ db fresh done)

  -- The new message, the receipt of its key, and the stream's last number.
  abbrev pub IsWritten :
      SendMessageInput → (message_id text : String) → (now : ℕ) → (before after : Db) → Type 0
  IsWritten input message_id text now before after =
      let next = suc (last_of (get_canonical_stream_id input.target) before.streams) in
      let written = transaction_input input text message_id in
      (after.messages ≡ new_row written next (persisted_content text) now ∷ before.messages)
      × (after.receipts ≡ receipt_row written ∷ before.receipts)
      × (last_of (get_canonical_stream_id input.target) after.streams ≡ next)

  sent-IsWritten :
      (input : SendMessageInput) (id text : String) (now : ℕ) (db after : Db)
      (answer : Result Error SendMessageResult)
      → normalize_message_text input.text ≡ some text
      → resolve_target input.sender_actor_id input.target
        ≡ some (get_canonical_stream_id input.target)
      → create_send_request_fingerprint stringify sha256 input.target text
        ≡ ok (fingerprint_of stringify sha256 input.target (persisted_content text))
      → IsSent stringify sha256 resolve_target authorize_write input id now db answer after
      → IsWritten input id text now db after
  sent-IsWritten input id text now db after answer normalized resolved made sent =
      let a = sent.is_appended in
      let same_text : sent.text ≡ text = let n = sent.normalized in cc in
      let same_stream : sent.stream_id ≡ get_canonical_stream_id input.target =
        let r = sent.resolved in cc in
      let same_made : create_send_request_fingerprint stringify sha256 input.target text
          ≡ ok sent.fingerprint =
        rw same_text at sent.fingerprinted in
      let same_fingerprint : sent.fingerprint
          ≡ fingerprint_of stringify sha256 input.target (persisted_content text) =
        cc in
      let next : a.sequence ≡ suc (last_of (get_canonical_stream_id input.target) db.streams) =
        let n = a.next in cc in
      let messages = a.messages in
      let receipts = a.receipts in let now_last = a.now_last in (cc, cc, cc)

  -- A call sends a message, and answers that it is new, when nothing stands against it: the sender,
  -- the message ID and the ID of the target are not blank, the idempotency key is trimmed and not
  -- blank, none of these and not the normalised text holds U+0000, the target is no thread, the text
  -- can be normalised, the resolver finds the canonical stream, the write is authorised, a hash has
  -- at least one byte, the key has no receipt at the first look and in the transaction, no message
  -- and no receipt has the message ID, and the stream has a number left, where the numbers of all
  -- streams have no gap. The call adds exactly one message, with the normalised text and the
  -- stream's next number, which becomes its last one, and exactly one receipt, of its key.
  pub execute_send_message-accepted :
      (seen : Db) (input : SendMessageInput) (message_id : String) (now : ℕ) (db : Db)
      (text : String)
      → is_empty (trim input.sender_actor_id) ≡ false
      → is_canonical input.idempotency_key ≡ true
      → is_thread input.target ≡ false
      → is_empty (trim (get_message_target_id input.target)) ≡ false
      → normalize_message_text input.text ≡ some text
      → resolve_target input.sender_actor_id input.target
        ≡ some (get_canonical_stream_id input.target)
      → authorize_write input.sender_actor_id input.target (get_canonical_stream_id input.target)
        ≡ true
      → is_empty (trim message_id) ≡ false
      → IsPlain (transaction_input input text message_id)
      → has_nul (get_message_target_id input.target) ≡ false
      → ((s : String) → no_bytes (sha256 s) ≡ false)
      → find_receipt input.sender_actor_id input.idempotency_key seen.receipts ≡ none
      → find_receipt input.sender_actor_id input.idempotency_key db.receipts ≡ none
      → find_message message_id db.messages ≡ none
      → has_result message_id db.receipts ≡ false
      → GapFree db
      → last_of (get_canonical_stream_id input.target) db.streams < max_integer
      → ((execute_send_message stringify sha256 resolve_target authorize_write seen input message_id
            now db).0
          ≡ ok (
              accepted newly (
                appended
                  (transaction_input input text message_id)
                  now
                  (suc (last_of (get_canonical_stream_id input.target) db.streams)))))
        × IsWritten input message_id text now db
            (execute_send_message stringify sha256 resolve_target authorize_write seen input
              message_id now db).1
  execute_send_message-accepted seen input id now db text sender key plain named normalized resolved
        allowed fresh texts target_plain bytes unseen free new_message no_result gap_free small =
      let answer =
        execute_send_message-answer seen input id now db text sender key plain named normalized
          resolved allowed fresh texts target_plain bytes unseen free new_message no_result gap_free
          small in
      (
        answer,
        elim (execute_send_message-Sent stringify sha256 resolve_target authorize_write seen input
            id now db) [
              | inl refused ↦ absurd (refused.not_new _ answer)
              | inr sent ↦
                  sent-IsWritten input id text now db _ _ normalized resolved
                    (create_send_request_fingerprint-ok input.target text
                      (is_text-normalize input.text normalized).0)
                    sent
            ],
      )
