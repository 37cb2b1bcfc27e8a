-- ===== src/Send/Appended.antt =====
-- What the transaction that appends a message has done when it answers.
use wake_surfer.Common.{
  ℕ, true, false, ◌∷◌, none, some, ◌≡◌, refl, sym, ap, subst, arith, ◌||◌, ◌⊎◌, inl, inr, ok, err,
  Bool-cases, Option-cases,
}
use wake_surfer.Common.Exec.{Exec, pure, continue, Yields, continue-Yields}
use wake_surfer.Store.{
  Error, constraint_violation, MessageRow, ReceiptRow, Db, find_message, find_receipt, has_sequence,
  has_result, no_bytes, invalid_text, message_has_nul, receipt_has_nul, insert_message,
  insert_receipt,
}
use wake_surfer.Send.Content.{is_text, persisted_content}
use wake_surfer.Send.Stored.{create-eq, parse-persisted_content}
use wake_surfer.Send.Append.{
  AppendTextMessageInput, AppendedTextMessage, AppendTextMessageResult, created,
  row_to_appended_text_message, new_row, write_message,
}

abbrev pub receipt_row : AppendTextMessageInput → ReceiptRow
receipt_row input = record {
  sender_actor_id = input.sender_actor_id;
  idempotency_key = input.idempotency_key;
  fingerprint = input.request_fingerprint;
  result_message_id = input.message_id;
}

-- The message in the answer.
abbrev pub appended : AppendTextMessageInput → (now sequence : ℕ) → AppendedTextMessage
appended input now sequence = record {
  message_id = input.message_id;
  stream_id = input.stream_id;
  sequence = sequence;
  sender_actor_id = input.sender_actor_id;
  target = input.target;
  text = input.text;
  created_at = now;
}

abbrev pub created_answer : AppendTextMessageInput → (now sequence : ℕ) → AppendTextMessageResult
created_answer input now sequence = created (record {
  request_fingerprint = input.request_fingerprint;
  message = some (appended input now sequence);
})

-- The two rows are written, and their keys were free.
pub record Written (input : AppendTextMessageInput) (now sequence : ℕ) (before : Db)
    (answer : AppendTextMessageResult) (after : Db) : Type 0 where
  pub fits : is_text input.text ≡ true
  pub new_message : find_message input.message_id before.messages ≡ none
  pub new_receipt : find_receipt input.sender_actor_id input.idempotency_key before.receipts ≡ none
  pub bytes : no_bytes input.request_fingerprint.value ≡ false
  pub answered : answer ≡ created_answer input now sequence
  pub written : after ≡ record before {
    messages = new_row input sequence (persisted_content input.text) now ∷ before.messages;
    receipts = receipt_row input ∷ before.receipts;
  }

abbrev IsInserted : MessageRow → Db → Unit {0} → Db → Type 0
IsInserted row before _ after =
    (find_message row.message_id before.messages ≡ none)
    × (after ≡ record before { messages = row ∷ before.messages })

insert_message-eq :
    (row : MessageRow) (db : Db)
    → ((e : Error) × (insert_message row db ≡ (err e, db)))
      ⊎ ((find_message row.message_id db.messages ≡ none)
          × (insert_message row db ≡ (ok tt, record db { messages = row ∷ db.messages })))
unfolding insert_message
insert_message-eq row db = elim (Option-cases (find_message row.message_id db.messages)) [
  | inr (old, taken) ↦ inl (constraint_violation, ground arith)
  | inl free ↦ elim (Bool-cases (has_sequence row.stream_id row.sequence db.messages)) [
    | inl taken ↦ inl (constraint_violation, ground arith)
    | inr next ↦ elim (Bool-cases (message_has_nul row)) [
      | inl unfit ↦ inl (invalid_text, ground arith)
      | inr plain ↦ inr (free, ground arith)
    ]
  ]
]

insert_message-Yields :
    (row : MessageRow) (db : Db) → Yields (IsInserted row db) (insert_message row db)
insert_message-Yields row db = elim (insert_message-eq row db) [
  | inl (e, refused) ↦ rw refused tt
  | inr (free, done) ↦ rw done (free, refl)
]

abbrev IsReceived : ReceiptRow → Db → Unit {0} → Db → Type 0
IsReceived row before _ after =
    (find_receipt row.sender_actor_id row.idempotency_key before.receipts ≡ none)
    × (no_bytes row.fingerprint.value ≡ false)
    × (after ≡ record before { receipts = row ∷ before.receipts })

insert_receipt-eq :
    (row : ReceiptRow) (db : Db)
    → ((e : Error) × (insert_receipt row db ≡ (err e, db)))
      ⊎ ((find_receipt row.sender_actor_id row.idempotency_key db.receipts ≡ none)
          × (no_bytes row.fingerprint.value ≡ false)
          × (insert_receipt row db ≡ (ok tt, record db { receipts = row ∷ db.receipts })))
unfolding insert_receipt
insert_receipt-eq row db =
    elim (Option-cases (find_receipt row.sender_actor_id row.idempotency_key db.receipts)) [
      | inr (old, taken) ↦ inl (constraint_violation, ground arith)
      | inl free ↦
          elim (Bool-cases
            (has_result row.result_message_id db.receipts || no_bytes row.fingerprint.value)) [
              | inl taken ↦ inl (constraint_violation, ground arith)
              | inr next ↦ elim (Bool-cases (receipt_has_nul row)) [
                | inl unfit ↦ inl (invalid_text, ground arith)
                | inr plain ↦ inr (free, ground arith, ground arith)
              ]
            ]
    ]

insert_receipt-Yields :
    (row : ReceiptRow) (db : Db) → Yields (IsReceived row db) (insert_receipt row db)
insert_receipt-Yields row db = elim (insert_receipt-eq row db) [
  | inl (e, refused) ↦ rw refused tt
  | inr (free, bytes, done) ↦ rw done (free, bytes, refl)
]

-- The end of the transaction, behind the two insertions.
unfoldable pub answer_of :
    AppendTextMessageInput → (now sequence : ℕ) → Exec Db Error AppendTextMessageResult
answer_of input now sequence db =
    continue
      (row_to_appended_text_message (new_row input sequence (persisted_content input.text) now)
        input.target)
      (λ message. pure (
        created
          (record { request_fingerprint = input.request_fingerprint; message = some message })))
      db

pub answer_of-eq :
    (input : AppendTextMessageInput) (now sequence : ℕ) (db : Db)
    → is_text input.text ≡ true
    → answer_of input now sequence db ≡ (ok (created_answer input now sequence), db)
unfolding answer_of row_to_appended_text_message
answer_of-eq input now sequence db fits =
    let read = parse-persisted_content input.text in ground arith

pub write_message-Written :
    (input : AppendTextMessageInput) (now sequence : ℕ) (db : Db)
    → Yields (Written input now sequence db) (write_message input now sequence db)
unfolding write_message answer_of
write_message-Written input now sequence db = elim (Bool-cases (is_text input.text)) [
  | inr unfit ↦ rw (create-eq input.text, unfit) tt
  | inl fits ↦
      rw (create-eq input.text, fits)
        (continue-Yields (IsInserted (new_row input sequence (persisted_content input.text) now) db)
          (Written input now sequence db)
          (insert_message (new_row input sequence (persisted_content input.text) now) db) _
          (insert_message-Yields _ db)
          (λ _ s inserted.
            continue-Yields (IsReceived (receipt_row input) s) (Written input now sequence db)
              (insert_receipt (receipt_row input) s) _ (insert_receipt-Yields (receipt_row input) s)
              (λ _ t received.
                subst (Yields (Written input now sequence db))
                  (sym (answer_of-eq input now sequence t fits))
                  (record {
                    fits = fits;
                    new_message = inserted.0;
                    new_receipt =
                        subst
                          (λ r. find_receipt input.sender_actor_id input.idempotency_key r ≡ none)
                          (ap (λ u. u.receipts) inserted.1) received.0;
                    bytes = received.1;
                    answered = refl;
                    written = cc;
                  }))))
]
