-- ===== src/History/Retry.antt =====
-- A call that is made again under the same idempotency key.
use wake_surfer.Common.{
  ℕ, String, false, inl, inr, ◌⊎◌, List, Option, none, some, ◌≡◌, refl, sym, ap, ◌∙◌, arith, All,
  Result, ok,
}
use wake_surfer.Contract.{MessageTarget}
use wake_surfer.Store.{
  Error, SendRequestFingerprint, MessageRow, Db, empty_db, find_message, find_receipt, no_bytes,
}
use wake_surfer.Store.Consistent.{GapFree}
use wake_surfer.Send.{
  assert_non_blank_string, assert_idempotency_key, assert_send_message_target,
  normalize_message_text, create_send_request_fingerprint, fingerprint_of,
}
use wake_surfer.Send.Content.{persisted_content}
use wake_surfer.Send.Stored.{create-eq}
use wake_surfer.Send.Append.{
  AppendTextMessageInput, new_row, AppendedTextMessage, find_send_message_receipt,
}
use wake_surfer.Send.Execute.{
  SendMessageInput, SendMessageResult, append_input, accepted, rejected, newly, already,
  message_deleted, accepted_or_deleted, send_normalized, result_for_existing_receipt,
  execute_send_message,
}
use wake_surfer.Send.Appended.{receipt_row, appended}
use wake_surfer.Send.Results.{IsChecked, execute_send_message-Sent}
use wake_surfer.History.{Call, send_message, Environment, step, run}
use wake_surfer.History.Sequences.{empty_db-GapFree, Change-GapFree}
use wake_surfer.History.Changes.{step-Change, run-Keeps}
use wake_surfer.History.Rows.{Continues, run-Continues}
use wake_surfer.History.Receipts.{
  run-find_receipt, run-IsLive, Change-IsLive, IsLive, find_message-All,
}
use wake_surfer.History.Lookup.{
  appended_of, matches_refl, find_receipt-here, find_message-here, stream-found, current_message,
  parse_fingerprint-ok, find_send_message_receipt-found,
}

module _ (env : Environment) where
  -- A call that made a message, the calls before and after it.
  abbrev pub send_in :
      (seen : Db)
      → SendMessageInput
      → (message_id : String) → (now : ℕ) → Db
      → Result Error SendMessageResult × Db
  send_in seen input id now db =
      execute_send_message env.stringify env.sha256 env.resolve_target env.authorize_write seen
        input id now db

  -- The call finds the receipt at its first look.
  retry-existing :
      (input : SendMessageInput) (text id : String) (now : ℕ) (db : Db) (f : SendRequestFingerprint)
      (message : Option AppendedTextMessage)
      → assert_non_blank_string input.sender_actor_id ≡ ok tt
      → assert_idempotency_key input.idempotency_key ≡ ok tt
      → assert_send_message_target input.target ≡ ok tt
      → normalize_message_text input.text ≡ some text
      → create_send_request_fingerprint env.stringify env.sha256 input.target text ≡ ok f
      → find_send_message_receipt db input.sender_actor_id input.idempotency_key
        ≡ ok (some (record { request_fingerprint = f; message = message }))
      → send_in db input id now db ≡ (ok (accepted_or_deleted message), db)
  unfolding execute_send_message send_normalized result_for_existing_receipt
  retry-existing input text id now db f message sender key target normalized made found =
      rw (sender, key, target, normalized, made, found) (rw (matches_refl f) refl)

  fingerprint-scheme :
      (target : MessageTarget) (text : String) (f : SendRequestFingerprint)
      → create_send_request_fingerprint env.stringify env.sha256 target text ≡ ok f
      → (f.canonicalization_version ≡ 1) × (f.algorithm ≡ "sha256") × (f.key_id ≡ none)
  unfolding create_send_request_fingerprint
  fingerprint-scheme target text f h =
      let made = create-eq text in
      let e : f ≡ fingerprint_of env.stringify env.sha256 target (persisted_content text) =
        ground arith in
      rw e (refl, refl, refl)

  -- The answer to a call that is made again.
  abbrev pub IsAnsweredAgain : AppendedTextMessage → Result Error SendMessageResult → Type 0
  IsAnsweredAgain m answer =
      ((again : AppendedTextMessage) × (answer ≡ ok (accepted already again))
        × (again.message_id ≡ m.message_id)
        × (again.stream_id ≡ m.stream_id)
        × (again.sequence ≡ m.sequence)
        × (again.sender_actor_id ≡ m.sender_actor_id)
        × (again.created_at ≡ m.created_at))
      ⊎ (answer ≡ ok (rejected message_deleted))

  -- The repeated call, from what the database holds then.
  again-from :
      (input : SendMessageInput) (text : String) (a : AppendTextMessageInput)
      (m : AppendedTextMessage) (id : String) (now : ℕ) (first row : MessageRow) (db : Db)
      → IsChecked input
      → normalize_message_text input.text ≡ some text
      → create_send_request_fingerprint env.stringify env.sha256 input.target text
        ≡ ok a.request_fingerprint
      → no_bytes a.request_fingerprint.value ≡ false
      → m ≡ appended_of first m.target m.text
      → find_receipt input.sender_actor_id input.idempotency_key db.receipts ≡ some (receipt_row a)
      → find_message a.message_id db.messages ≡ some row
      → Continues first row
      → GapFree db
      → All IsLive db.messages
      → IsAnsweredAgain m (send_in db input id now db).0 × ((send_in db input id now db).1 ≡ db)
  again-from input text a m id now first row db checked normalized made bytes is_m receipt found c
        gap_free live =
      let (stream, in_stream) = stream-found db a.message_id row gap_free found in
      let scheme = fingerprint-scheme input.target text a.request_fingerprint made in
      let known = parse_fingerprint-ok a.request_fingerprint scheme.0 scheme.1 scheme.2 bytes in
      elim (current_message row stream.target
        (find_message-All IsLive a.message_id db.messages row live found)) [
          | inl (now_text, current) ↦
              let answer =
                retry-existing input text id now db a.request_fingerprint
                  (some (appended_of row stream.target now_text)) checked.0 checked.1 checked.2
                  normalized made
                  (find_send_message_receipt-found db _ _ (receipt_row a) row stream _ receipt found
                    in_stream known current) in
              (
                inl (
                  appended_of row stream.target now_text,
                  ap (λ p. p.0) answer,
                  c.same_id ∙ sym (ap (λ r. r.message_id) is_m),
                  c.same_stream ∙ sym (ap (λ r. r.stream_id) is_m),
                  c.same_sequence ∙ sym (ap (λ r. r.sequence) is_m),
                  c.same_sender ∙ sym (ap (λ r. r.sender_actor_id) is_m),
                  c.same_time ∙ sym (ap (λ r. r.created_at) is_m),
                ),
                ap (λ p. p.1) answer,
              )
          | inr tombstone ↦
              let answer =
                retry-existing input text id now db a.request_fingerprint none checked.0 checked.1
                  checked.2 normalized made
                  (find_send_message_receipt-found db _ _ (receipt_row a) row stream _ receipt found
                    in_stream known tombstone) in
              (inr (ap (λ p. p.0) answer), ap (λ p. p.1) answer)
        ]

  -- A call that has made a message can be made again at any later time, whatever calls stand before
  -- it and between: with the same arguments, and with any new message ID and time, it leaves the
  -- database as it is and answers with the message that was made, with its ID, stream, sequence
  -- number, sender and time of creation, or that this message was deleted.
  pub execute_send_message-retry :
      (earlier later : List Call) (seen : Db) (input : SendMessageInput) (message_id : String)
      (now : ℕ) (m : AppendedTextMessage) (next_id : String) (next_now : ℕ)
      → (send_in seen input message_id now (run env earlier empty_db)).0 ≡ ok (accepted newly m)
      → let db =
          run env later
            (step env (send_message seen input message_id now) (run env earlier empty_db)) in
        IsAnsweredAgain m (send_in db input next_id next_now db).0
        × ((send_in db input next_id next_now db).1 ≡ db)
  unfolding step
  execute_send_message-retry earlier later seen input id now m next_id next_now h =
      elim (execute_send_message-Sent env.stringify env.sha256 env.resolve_target
        env.authorize_write seen input id now (run env earlier empty_db)) [
          | inl refused ↦ absurd (refused.not_new m h)
          | inr sent ↦
              let before = run env earlier empty_db in
              let call = send_message seen input id now in
              let a = append_input input sent.text sent.fingerprint id sent.stream_id in
              let first = new_row a sent.is_appended.sequence (persisted_content sent.text) now in
              let is_m : m ≡ appended a now sent.is_appended.sequence =
                let answered = sent.answered in cc in
              let receipt : find_receipt input.sender_actor_id input.idempotency_key
                    (step env call before).receipts
                  ≡ some (receipt_row a) =
                ap (find_receipt input.sender_actor_id input.idempotency_key)
                  sent.is_appended.receipts
                ∙ find_receipt-here (receipt_row a) before.receipts in
              let message : find_message id (step env call before).messages ≡ some first =
                ap (find_message id) sent.is_appended.messages
                ∙ find_message-here first before.messages in
              let (row, found, c) =
                run-Continues env later (step env call before) id first message in
              again-from input sent.text a m next_id next_now first row
                (run env later (step env call before)) sent.checked sent.normalized
                sent.fingerprinted sent.is_appended.bytes
                (is_m ∙ sym (ap (λ r. appended_of first r.target r.text) is_m))
                (run-find_receipt env later (step env call before) _ _ (receipt_row a) receipt)
                found c
                (run-Keeps GapFree env Change-GapFree later (step env call before) (
                  Change-GapFree before (step env call before) (step-Change env call before)
                    (run-Keeps GapFree env Change-GapFree earlier empty_db empty_db-GapFree)))
                (run-Keeps (λ d. All IsLive d.messages) env Change-IsLive later
                  (step env call before)
                  (Change-IsLive before (step env call before) (step-Change env call before)
                    (run-IsLive env earlier)))
        ]
