-- ===== src/Send/Outcomes.antt =====
-- The two outcomes of the transaction that appends a message: it has written one message and one
-- receipt, or it has written nothing.
use wake_surfer.Common.{
  ℕ, suc, ◌≤◌, String, Bool, true, false, List, ◌∷◌, Option, none, some, ◌≡◌, ◌≢◌, refl, ap, subst,
  ◌∙◌, arith, ltb, str_eq, ◌⊎◌, inl, inr, Result, ok, err, Bool-cases,
}
use wake_surfer.Common.Exec.{pure, continue, Yields, continue-Yields}
use wake_surfer.Contract.{MessageTarget, channel, dm, thread, get_canonical_stream_id}
use wake_surfer.Store.{
  Error, StreamRow, MessageRow, Db, commit, stream_id_of, find_stream, find_stream_of_target,
  find_message, find_receipt, insert_stream, max_integer, advance_rows, no_bytes,
}
use wake_surfer.Store.Consistent.{
  last_of, Advanced, advance_rows-Advanced, last_of-insert_stream, messages-insert_stream,
  receipts-insert_stream,
}
use wake_surfer.Send.Content.{is_text, persisted_content}
use wake_surfer.Send.Append.{
  AppendTextMessageInput, StoredSendMessageReceipt, AppendTextMessageResult, created,
  find_send_message_receipt, is_thread, ensure_thread_stream, ensure_thread_of, ensure_thread_root,
  ensure_message_stream, advanced, advance_sequence_for_target, new_row, write_message,
  append_to_stream, append_if, append_new, append_unless, append_text_message,
}
use wake_surfer.Send.Appended.{receipt_row, created_answer, Written, write_message-Written}

-- The database before and after a stream may have been created.
pub record IsOpened (before : Db) (exists : Bool) (after : Db) : Type 0 where
  pub same_last : (id : String) → last_of id after.streams ≡ last_of id before.streams
  pub same_messages : after.messages ≡ before.messages
  pub same_receipts : after.receipts ≡ before.receipts
  pub unchanged : exists ≡ false → after ≡ before

same-IsOpened : (db : Db) (b : Bool) → IsOpened db b db
same-IsOpened db b = record {
  same_last = λ id. refl;
  same_messages = refl;
  same_receipts = refl;
  unchanged = λ h. refl;
}

insert_stream-IsOpened :
    (target : MessageTarget) (db : Db)
    → Yields
        (IsOpened db)
        (continue (insert_stream target db).0 (λ _. pure true) (insert_stream target db).1)
insert_stream-IsOpened target db = opened (insert_stream target db) (record {
  same_last = last_of-insert_stream target db;
  same_messages = messages-insert_stream target db;
  same_receipts = receipts-insert_stream target db;
  unchanged = λ h. cc;
})
  where
    opened :
        (p : Result Error (Unit {0}) × Db)
        → IsOpened db true p.1
        → Yields (IsOpened db) (continue p.0 (λ _. pure true) p.1)
    opened (ok done, s) h = h
    opened (err e, s) h = tt

ensure_message_stream-IsOpened :
    (target : MessageTarget) (stream_id : String) (db : Db)
    → Yields (IsOpened db) (ensure_message_stream target stream_id db)
unfolding ensure_message_stream
ensure_message_stream-IsOpened (channel id) stream_id db = insert_stream-IsOpened (channel id) db
ensure_message_stream-IsOpened (dm id) stream_id db = insert_stream-IsOpened (dm id) db
ensure_message_stream-IsOpened (thread id) stream_id db = root (find_message id db.messages)
  where
    thread_stream :
        (deleted_at : Option ℕ) (found : Option StreamRow)
        → Yields (IsOpened db) (ensure_thread_stream id stream_id deleted_at found db)
    thread_stream at (some row) = elim (Bool-cases (str_eq (stream_id_of row) stream_id)) [
      | inl same ↦ rw same (same-IsOpened db true)
      | inr differs ↦ rw differs tt
    ]
    thread_stream (some at) none = same-IsOpened db false
    thread_stream none none = insert_stream-IsOpened (thread id) db

    of_stream :
        (row : MessageRow) (found : Option StreamRow)
        → Yields (IsOpened db) (ensure_thread_of id stream_id row found db)
    of_stream row none = same-IsOpened db false
    of_stream row (some stream) = elim (Bool-cases (is_thread stream.target)) [
      | inl nested ↦ rw nested (same-IsOpened db false)
      | inr plain ↦
          rw plain (thread_stream row.deleted_at (find_stream_of_target (thread id) db.streams))
    ]

    root :
        (found : Option MessageRow)
        → Yields (IsOpened db) (ensure_thread_root id stream_id found db)
    root none = same-IsOpened db false
    root (some row) = of_stream row (find_stream row.stream_id db.streams)

-- The transaction has appended a message: what it answers, and what it has written.
pub record IsAppended (input : AppendTextMessageInput) (now : ℕ) (before : Db)
    (answer : AppendTextMessageResult) (after : Db) : Type 0 where
  pub canonical : input.stream_id ≡ get_canonical_stream_id input.target
  pub sequence : ℕ
  pub next : sequence ≡ suc (last_of input.stream_id before.streams)
  pub bounded : sequence ≤ max_integer
  pub now_last : last_of input.stream_id after.streams ≡ sequence
  pub others :
      (id : String) → id ≢ input.stream_id → last_of id after.streams ≡ last_of id before.streams
  pub fits : is_text input.text ≡ true
  pub new_message : find_message input.message_id before.messages ≡ none
  pub new_receipt : find_receipt input.sender_actor_id input.idempotency_key before.receipts ≡ none
  pub bytes : no_bytes input.request_fingerprint.value ≡ false
  pub answered : answer ≡ created_answer input now sequence
  pub messages :
      after.messages ≡ new_row input sequence (persisted_content input.text) now ∷ before.messages
  pub receipts : after.receipts ≡ receipt_row input ∷ before.receipts

-- The stream has been advanced to a number that fits the column.
pub record IsAdvanced (stream_id : String) (target : MessageTarget) (before : Db) (n : ℕ)
    (after : Db) : Type 0 where
  pub rows : Advanced stream_id target n before.streams after.streams
  pub bounded : n ≤ max_integer
  pub same_messages : after.messages ≡ before.messages
  pub same_receipts : after.receipts ≡ before.receipts

advance-IsAdvanced :
    (stream_id : String) (target : MessageTarget) (db : Db)
    → Yields (IsAdvanced stream_id target db) (advance_sequence_for_target stream_id target db)
unfolding advance_sequence_for_target
advance-IsAdvanced stream_id target db = go (advance_rows stream_id target db.streams) refl
  where
    go :
        (found : Option (ℕ × List StreamRow))
        → advance_rows stream_id target db.streams ≡ found
        → Yields (IsAdvanced stream_id target db) (advanced found db)
    go none e = tt
    go (some (n, rows)) e = elim (Bool-cases (ltb max_integer n)) [
      | inl large ↦ rw large tt
      | inr small ↦ rw small (record {
        rows = advance_rows-Advanced stream_id target db.streams e;
        bounded = ground arith;
        same_messages = refl;
        same_receipts = refl;
      })
    ]

append_to_stream-IsAppended :
    (input : AppendTextMessageInput) (now : ℕ) (before opened : Db)
    → IsOpened before true opened
    → Yields (IsAppended input now before) (append_to_stream input now opened)
unfolding append_to_stream
append_to_stream-IsAppended input now before opened o =
    continue-Yields (IsAdvanced input.stream_id input.target opened) (IsAppended input now before)
      (advance_sequence_for_target input.stream_id input.target opened) (write_message input now)
      (advance-IsAdvanced input.stream_id input.target opened)
      (λ n s a. weaken n s a (write_message input now n s) (write_message-Written input now n s))
  where
    weaken :
        (n : ℕ) (s : Db)
        → IsAdvanced input.stream_id input.target opened n s
        → (p : Result Error AppendTextMessageResult × Db) → Yields (Written input now n s) p
        → Yields (IsAppended input now before) p
    weaken n s a (err e, after) w = tt
    weaken n s a (ok answer, after) w =
        let messages : s.messages ≡ before.messages = a.same_messages ∙ o.same_messages in
        let receipts : s.receipts ≡ before.receipts = a.same_receipts ∙ o.same_receipts in
        let streams : after.streams ≡ s.streams = ap (λ d. d.streams) w.written in
        record {
          canonical = a.rows.canonical;
          sequence = n;
          next = a.rows.next ∙ ap suc (o.same_last input.stream_id);
          bounded = a.bounded;
          now_last = ap (last_of input.stream_id) streams ∙ a.rows.now_last;
          others = λ id apart. ap (last_of id) streams ∙ a.rows.others id apart ∙ o.same_last id;
          fits = w.fits;
          new_message =
              subst (λ rows. find_message input.message_id rows ≡ none) messages w.new_message;
          new_receipt =
              subst (λ rows. find_receipt input.sender_actor_id input.idempotency_key rows ≡ none)
                receipts w.new_receipt;
          bytes = w.bytes;
          answered = w.answered;
          messages =
              ap (λ d. d.messages) w.written
              ∙ ap (λ rows. new_row input n (persisted_content input.text) now ∷ rows) messages;
          receipts =
              ap (λ d. d.receipts) w.written ∙ ap (λ rows. receipt_row input ∷ rows) receipts;
        }

-- Nothing was created, and nothing was written.
pub record IsIdle (before : Db) (answer : Result Error AppendTextMessageResult) (after : Db)
    : Type 0 where
  pub unchanged : after ≡ before
  pub not_created : (receipt : StoredSendMessageReceipt) → answer ≢ ok (created receipt)

-- What a transaction leaves behind.
abbrev Outcome :
    AppendTextMessageInput → ℕ → Db → Result Error AppendTextMessageResult × Db → Type 0
Outcome input now before p =
    IsIdle before p.0 p.1
    ⊎ ((answer : AppendTextMessageResult) × (p.0 ≡ ok answer)
        × IsAppended input now before answer p.1)

append_if-Outcome :
    (input : AppendTextMessageInput) (now : ℕ) (before : Db) (p : Result Error Bool × Db)
    → Yields (IsOpened before) p
    → Outcome input now before
        (commit before (continue p.0 (λ exists. append_if exists input now) p.1))
append_if-Outcome input now before (err e, s) o =
    inl (record { unchanged = refl; not_created = λ r h. cc })
append_if-Outcome input now before (ok false, s) o =
    inl (record { unchanged = o.unchanged refl; not_created = λ r h. cc })
append_if-Outcome input now before (ok true, s) o =
    end (append_to_stream input now s) (append_to_stream-IsAppended input now before s o)
  where
    end :
        (p : Result Error AppendTextMessageResult × Db)
        → Yields (IsAppended input now before) p
        → Outcome input now before (commit before p)
    end (ok answer, after) a = inr (answer, refl, a)
    end (err e, after) a = inl (record { unchanged = refl; not_created = λ r h. cc })

-- Appending either changes nothing, or it appends one message and one receipt and says so.
pub append_text_message-Outcome :
    (input : AppendTextMessageInput) (now : ℕ) (db : Db)
    → IsIdle db (append_text_message input now db).0 (append_text_message input now db).1
      ⊎ ((answer : AppendTextMessageResult) × ((append_text_message input now db).0 ≡ ok answer)
          × IsAppended input now db answer (append_text_message input now db).1)
unfolding append_text_message append_new
append_text_message-Outcome input now db =
    found (find_send_message_receipt db input.sender_actor_id input.idempotency_key)
  where
    found :
        (r : Result Error (Option StoredSendMessageReceipt))
        → Outcome input now db (commit db (continue r (append_unless input now) db))
    found (err e) = inl (record { unchanged = refl; not_created = λ r h. cc })
    found (ok (some receipt)) = inl (record { unchanged = refl; not_created = λ r h. cc })
    found (ok none) =
        append_if-Outcome input now db (ensure_message_stream input.target input.stream_id db)
          (ensure_message_stream-IsOpened input.target input.stream_id db)
