-- ===== src/Send/Results.antt =====
-- The answers of the use case: which calls write to the database, and what they write.
use wake_surfer.Common.{
  ℕ, String, true, List, Option, none, some, ◌≡◌, ◌≢◌, refl, ap, ◌∙◌, arith, str_eq, ◌⊎◌, inl, inr,
  Result, ok, err, guard, Bool-cases,
}
use wake_surfer.Common.Exec.{Exec, continue}
use wake_surfer.Store.{Error, stream_target_mismatch, SendRequestFingerprint, Db, lift}
use wake_surfer.Send.{
  CanonicalPayload, assert_non_blank_string, assert_idempotency_key, assert_send_message_target,
  get_send_message_stream_id, normalize_message_text, create_send_request_fingerprint,
}
use wake_surfer.Send.Append.{
  AppendTextMessageInput, AppendedTextMessage, StoredSendMessageReceipt, AppendTextMessageResult,
  created, existing, target_not_found, find_send_message_receipt, append_text_message,
}
use wake_surfer.Send.Appended.{appended, created_answer}
use wake_surfer.Send.Outcomes.{IsIdle, IsAppended, append_text_message-Outcome}
use wake_surfer.Send.Execute.{
  SendMessageInput, SendMessageResult, accepted, newly, Resolver, WriteAuthorizer, append_input,
  result_for_append, send_authorized, send_resolved, send_to, send_unless, send_normalized,
  execute_send_message, result_for_existing_receipt,
}

-- The tests of the arguments that come first.
abbrev pub IsChecked : SendMessageInput → Type 0
IsChecked input =
    (assert_non_blank_string input.sender_actor_id ≡ ok tt)
    × (assert_idempotency_key input.idempotency_key ≡ ok tt)
    × (assert_send_message_target input.target ≡ ok tt)

-- Nothing was written, and the call did not answer that it has.
pub record IsRefused (before : Db) (answer : Result Error SendMessageResult) (after : Db)
    : Type 0 where
  pub unchanged : after ≡ before
  pub not_new : (m : AppendedTextMessage) → answer ≢ ok (accepted newly m)

existing-not_new :
    (f : SendRequestFingerprint) (receipt : StoredSendMessageReceipt) (m : AppendedTextMessage)
    → result_for_existing_receipt f receipt ≢ accepted newly m
unfolding result_for_existing_receipt
existing-not_new f receipt m h = ground arith

-- An append that created nothing is not answered as a new message.
result_for_append-not_new :
    (f : SendRequestFingerprint) (answer : AppendTextMessageResult) (m : AppendedTextMessage)
    → ((receipt : StoredSendMessageReceipt) → answer ≢ created receipt)
    → result_for_append f answer ≢ ok (accepted newly m)
unfolding result_for_append
result_for_append-not_new f target_not_found m n h = cc
result_for_append-not_new f (existing receipt) m n h = existing-not_new f receipt m (cc)
result_for_append-not_new f (created receipt) m n h = n receipt refl

pub result_for_append-created :
    (f : SendRequestFingerprint) (input : AppendTextMessageInput) (now sequence : ℕ)
    → result_for_append f (created_answer input now sequence)
      ≡ ok (accepted newly (appended input now sequence))
unfolding result_for_append
result_for_append-created f input now sequence = refl

module _ (stringify : CanonicalPayload → String) (sha256 : String → List ℕ)
    (resolve_target : Resolver) (authorize_write : WriteAuthorizer) where
  -- The call has appended a message, and every test before that was passed.
  pub record IsSent (input : SendMessageInput) (message_id : String) (now : ℕ) (before : Db)
      (answer : Result Error SendMessageResult) (after : Db) : Type 0 where
    pub checked : IsChecked input
    pub text : String
    pub stream_id : String
    pub fingerprint : SendRequestFingerprint
    pub normalized : normalize_message_text input.text ≡ some text
    pub fingerprinted :
        create_send_request_fingerprint stringify sha256 input.target text ≡ ok fingerprint
    pub resolved : resolve_target input.sender_actor_id input.target ≡ some stream_id
    pub allowed : authorize_write input.sender_actor_id input.target stream_id ≡ true
    pub result : AppendTextMessageResult
    pub is_appended :
        IsAppended
          (append_input input text fingerprint message_id stream_id)
          now
          before
          result
          after
    pub answered :
        answer
        ≡ ok (
            accepted newly (
              appended
                (append_input input text fingerprint message_id stream_id)
                now
                is_appended.sequence))

  -- What the use case leaves behind.
  abbrev Sent : SendMessageInput → String → ℕ → Db → Result Error SendMessageResult × Db → Type 0
  Sent input id now db p = IsRefused db p.0 p.1 ⊎ IsSent input id now db p.0 p.1

  throw-Sent :
      (input : SendMessageInput) (id : String) (now : ℕ) (db : Db) (e : Error)
      → Sent input id now db (err e, db)
  throw-Sent input id now db e = inl (record { unchanged = refl; not_new = λ m h. cc })

  lift-Sent :
      {A : Type 0} (input : SendMessageInput) (id : String) (now : ℕ) (db : Db) (r : Result Error A)
      (f : A → Exec Db Error SendMessageResult)
      → ((a : A) → r ≡ ok a → Sent input id now db (f a db))
      → Sent input id now db (continue r f db)
  lift-Sent input id now db (err e) f h = throw-Sent input id now db e
  lift-Sent input id now db (ok a) f h = h a refl

  existing-Sent :
      (input : SendMessageInput) (id : String) (now : ℕ) (db : Db) (f : SendRequestFingerprint)
      (receipt : StoredSendMessageReceipt)
      → Sent input id now db (ok (result_for_existing_receipt f receipt), db)
  existing-Sent input id now db f receipt =
      inl (record { unchanged = refl; not_new = λ m h. existing-not_new f receipt m (cc) })

  append-Sent :
      (input : SendMessageInput) (text : String) (f : SendRequestFingerprint) (id : String)
      (now : ℕ) (stream_id : String) (db : Db)
      → IsChecked input
      → normalize_message_text input.text ≡ some text
      → create_send_request_fingerprint stringify sha256 input.target text ≡ ok f
      → resolve_target input.sender_actor_id input.target ≡ some stream_id
      → authorize_write input.sender_actor_id input.target stream_id ≡ true
      → (p : Result Error AppendTextMessageResult × Db)
      → IsIdle db p.0 p.1
        ⊎ ((answer : AppendTextMessageResult) × (p.0 ≡ ok answer)
            × IsAppended (append_input input text f id stream_id) now db answer p.1)
      → Sent input id now db (continue p.0 (λ a. lift (result_for_append f a)) p.1)
  append-Sent input text f id now stream_id db checked normalized made resolved allowed (err e, s)
        (inl idle) =
      inl (record { unchanged = idle.unchanged; not_new = λ m h. cc })
  append-Sent input text f id now stream_id db checked normalized made resolved allowed
        (ok answer, s) (inl idle) =
      inl (record {
        unchanged = idle.unchanged;
        not_new = λ m.
            result_for_append-not_new f answer m (λ receipt h. idle.not_created receipt (ap ok h));
      })
  append-Sent input text f id now stream_id db checked normalized made resolved allowed (err e, s)
        (inr (answer, same, a)) =
      absurd cc
  append-Sent input text f id now stream_id db checked normalized made resolved allowed (ok r, s)
        (inr (answer, same, a)) =
      inr (record {
        checked = checked;
        text = text;
        stream_id = stream_id;
        fingerprint = f;
        normalized = normalized;
        fingerprinted = made;
        resolved = resolved;
        allowed = allowed;
        result = answer;
        is_appended = a;
        answered =
            let created : r
                ≡ created_answer (append_input input text f id stream_id) now a.sequence =
              let answered = a.answered in cc in
            ap (result_for_append f) created
            ∙ result_for_append-created f (append_input input text f id stream_id) now a.sequence;
      })

  -- Every call either leaves the database as it is, whatever it throws or answers, and does not answer
  -- that a message is new; or the arguments have passed their tests, the text could be normalised,
  -- the resolver has found the stream, the actor may write to it, and exactly one message and one
  -- receipt were added, with the stream's next sequence number, as the answer says.
  pub execute_send_message-Sent :
      (seen : Db) (input : SendMessageInput) (message_id : String) (now : ℕ) (db : Db)
      → IsRefused db
          (execute_send_message stringify sha256 resolve_target authorize_write seen input
            message_id now db).0
          (execute_send_message stringify sha256 resolve_target authorize_write seen input
            message_id now db).1
        ⊎ IsSent input message_id now db
            (execute_send_message stringify sha256 resolve_target authorize_write seen input
              message_id now db).0
            (execute_send_message stringify sha256 resolve_target authorize_write seen input
              message_id now db).1
  unfolding execute_send_message send_normalized send_resolved send_authorized
  execute_send_message-Sent seen input id now db =
      lift-Sent input id now db (assert_non_blank_string input.sender_actor_id) _ (λ _ sender.
        lift-Sent input id now db (assert_idempotency_key input.idempotency_key) _ (λ _ key.
          lift-Sent input id now db (assert_send_message_target input.target) _
            (λ _ target. text_of (sender, key, target) (normalize_message_text input.text) refl)))
    where
      resolved_at :
          (text : String) (f : SendRequestFingerprint) (stream_id : String)
          → IsChecked input
          → normalize_message_text input.text ≡ some text
          → create_send_request_fingerprint stringify sha256 input.target text ≡ ok f
          → resolve_target input.sender_actor_id input.target ≡ some stream_id
          → Sent input id now db (
              send_resolved stringify sha256 resolve_target authorize_write input text f id now
                stream_id db)
      resolved_at text f stream_id checked normalized made resolved =
          lift-Sent input id now db (assert_non_blank_string stream_id) _ (λ _ _.
            lift-Sent input id now db
              (guard (str_eq stream_id (get_send_message_stream_id input.target))
                stream_target_mismatch)
              _
              (λ _ _.
                elim (Bool-cases (authorize_write input.sender_actor_id input.target stream_id)) [
                  | inr denied ↦ rw denied (inl (record { unchanged = refl; not_new = λ m h. cc }))
                  | inl allowed ↦ rw allowed (
                      lift-Sent input id now db (assert_non_blank_string id) _ (λ _ _.
                        append-Sent input text f id now stream_id db checked normalized made
                          resolved allowed
                          (append_text_message (append_input input text f id stream_id) now db)
                          (append_text_message-Outcome (append_input input text f id stream_id) now
                            db)))
                ]))

      found_at :
          (text : String) (f : SendRequestFingerprint)
          → IsChecked input
          → normalize_message_text input.text ≡ some text
          → create_send_request_fingerprint stringify sha256 input.target text ≡ ok f
          → (found : Option StoredSendMessageReceipt)
          → Sent input id now db (
              send_unless stringify sha256 resolve_target authorize_write input text f id now found
                db)
      found_at text f checked normalized made (some receipt) =
          existing-Sent input id now db f receipt
      found_at text f checked normalized made none =
          target_at (resolve_target input.sender_actor_id input.target) refl
        where
          target_at :
              (target : Option String)
              → resolve_target input.sender_actor_id input.target ≡ target
              → Sent input id now db (
                  send_to stringify sha256 resolve_target authorize_write input text f id now target
                    db)
          target_at none e = inl (record { unchanged = refl; not_new = λ m h. cc })
          target_at (some stream_id) e = resolved_at text f stream_id checked normalized made e

      text_of :
          IsChecked input
          → (text : Option String) → normalize_message_text input.text ≡ text
          → Sent input id now db (
              send_normalized stringify sha256 resolve_target authorize_write seen input id now text
                db)
      text_of checked none e = inl (record { unchanged = refl; not_new = λ m h. cc })
      text_of checked (some text) e =
          lift-Sent input id now db
            (create_send_request_fingerprint stringify sha256 input.target text) _
            (λ f made.
              lift-Sent input id now db
                (find_send_message_receipt seen input.sender_actor_id input.idempotency_key) _
                (λ found _. found_at text f checked e made found))
