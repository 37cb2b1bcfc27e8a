-- ===== src/Send/Succeeds.antt =====
-- A message that nothing stands against is sent.
use wake_surfer.Common.{
  has_nul, ℕ, suc, ◌<◌, String, true, false, List, [], ◌∷◌, ◌++◌, none, some, ◌≡◌, refl, ap, ◌∙◌,
  arith, ltb, inl, inr, ok, Bool-cases, Option-cases, is_empty,
}
use wake_surfer.Values.{value_has_nul}
use wake_surfer.Contract.{
  MessageTarget, channel, dm, thread, get_canonical_stream_id, get_message_target_id,
}
use wake_surfer.Store.{
  StreamRow, MessageRow, ReceiptRow, Db, same_target, find_stream_of_target, find_message,
  find_receipt, has_sequence, has_result, no_bytes, message_has_nul, receipt_has_nul, insert_stream,
  max_integer, advance_rows, insert_message, insert_receipt,
}
use wake_surfer.Store.Consistent.{
  last_of, GapFree, advance_rows-Advanced, same_target_refl, same_target-eq, has_sequence-next,
}
use wake_surfer.Send.Content.{is_text, persisted_content}
use wake_surfer.Send.Stored.{create-eq}
use wake_surfer.Send.Append.{
  AppendTextMessageInput, is_thread, ensure_message_stream, advance_sequence_for_target, new_row,
  write_message, append_to_stream,
}
use wake_surfer.Send.Appended.{receipt_row, created_answer, answer_of, answer_of-eq}

insert_message-free :
    (row : MessageRow) (db : Db)
    → find_message row.message_id db.messages ≡ none
    → has_sequence row.stream_id row.sequence db.messages ≡ false
    → message_has_nul row ≡ false
    → insert_message row db ≡ (ok tt, record db { messages = row ∷ db.messages })
unfolding insert_message
insert_message-free row db h k l = ground arith

insert_receipt-free :
    (row : ReceiptRow) (db : Db)
    → find_receipt row.sender_actor_id row.idempotency_key db.receipts ≡ none
    → has_result row.result_message_id db.receipts ≡ false
    → no_bytes row.fingerprint.value ≡ false
    → receipt_has_nul row ≡ false
    → insert_receipt row db ≡ (ok tt, record db { receipts = row ∷ db.receipts })
unfolding insert_receipt
insert_receipt-free row db h k l p = ground arith

-- No text of the input that is written has U+0000.
abbrev pub IsPlain : AppendTextMessageInput → Type 0
IsPlain input =
    (has_nul input.message_id ≡ false)
    × (has_nul input.sender_actor_id ≡ false)
    × (has_nul input.idempotency_key ≡ false)
    × (has_nul input.text ≡ false)

-- What stands against neither row.
abbrev pub IsFree : AppendTextMessageInput → Db → Type 0
IsFree input db =
    (find_message input.message_id db.messages ≡ none)
    × (find_receipt input.sender_actor_id input.idempotency_key db.receipts ≡ none)
    × (has_result input.message_id db.receipts ≡ false)
    × (no_bytes input.request_fingerprint.value ≡ false)
    × (is_text input.text ≡ true)
    × IsPlain input

message_has_nul-plain :
    (input : AppendTextMessageInput) (n now : ℕ)
    → IsPlain input
    → message_has_nul (new_row input n (persisted_content input.text) now) ≡ false
unfolding value_has_nul has_nul
message_has_nul-plain input n now (id, sender, key, plain_text) = rw (id, sender, plain_text) refl

receipt_has_nul-plain :
    (input : AppendTextMessageInput) → IsPlain input → receipt_has_nul (receipt_row input) ≡ false
receipt_has_nul-plain input (id, sender, key, plain_text) = rw (id, sender, key) refl

write_message-created :
    (input : AppendTextMessageInput) (now n : ℕ) (db : Db)
    → IsFree input db
    → has_sequence input.stream_id n db.messages ≡ false
    → (write_message input now n db).0 ≡ ok (created_answer input now n)
unfolding write_message answer_of
write_message-created input now n db (new_message, new_receipt, no_result, bytes, fits, plain)
      next =
    rw (create-eq input.text, fits)
      (rw
        (insert_message-free (new_row input n (persisted_content input.text) now) db new_message
          next (message_has_nul-plain input n now plain))
        (rw
          (insert_receipt-free (receipt_row input)
            (record db {
              messages = new_row input n (persisted_content input.text) now ∷ db.messages;
            })
            new_receipt no_result bytes (receipt_has_nul-plain input plain))
          (ap (λ p. p.0) (answer_of-eq input now n _ fits))))

-- A stream that exists is advanced.
advance_rows-found :
    (target : MessageTarget) (rows : List StreamRow) (row : StreamRow)
    → find_stream_of_target target rows ≡ some row
    → (n : ℕ) × (after : List StreamRow) × (advance_rows
          (get_canonical_stream_id target)
          target
          rows
        ≡ some (n, after))
unfolding advance_rows find_stream_of_target
advance_rows-found target [] row h = cc
advance_rows-found target (first ∷ rows) row h =
    let same = same_target-eq first.target target in
    elim (Bool-cases (same_target first.target target)) [
      | inl hit ↦ (
        suc first.last_sequence,
        record first { last_sequence = suc first.last_sequence } ∷ rows,
        ground arith,
      )
      | inr miss ↦
          let (n, after, found) = advance_rows-found target rows row (ground arith) in
          (n, first ∷ after, ground arith)
    ]

find_stream_of_target-append :
    (target : MessageTarget) (rows : List StreamRow) (new : StreamRow)
    → same_target new.target target ≡ true
    → (row : StreamRow) × (find_stream_of_target target (rows ++ (new ∷ [])) ≡ some row)
unfolding find_stream_of_target
find_stream_of_target-append target [] new h = (new, rw h refl)
find_stream_of_target-append target (row ∷ rows) new h =
    let (found, e) = find_stream_of_target-append target rows new h in
    elim (Bool-cases (same_target row.target target)) [
      | inl same ↦ (row, rw same refl)
      | inr differs ↦ (found, rw differs e)
    ]

pub insert_stream-found :
    (target : MessageTarget) (db : Db)
    → is_empty (get_message_target_id target) ≡ false
    → has_nul (get_message_target_id target) ≡ false
    → ((insert_stream target db).0 ≡ ok tt)
      × (row : StreamRow) × (find_stream_of_target target (insert_stream target db).1.streams
          ≡ some row)
unfolding insert_stream
insert_stream-found target db h plain =
    elim (Option-cases (find_stream_of_target target db.streams)) [
      | inr (row, old) ↦ (ground arith, row, ground arith)
      | inl none_yet ↦
          let (row, new) =
            find_stream_of_target-append target db.streams
              (record { target = target; last_sequence = 0 }) (same_target_refl target) in
          (ground arith, row, ground arith)
    ]

pub ensure_message_stream-eq :
    (target : MessageTarget) (id : String) (db : Db)
    → is_thread target ≡ false
    → (insert_stream target db).0 ≡ ok tt
    → ensure_message_stream target id db ≡ (ok true, (insert_stream target db).1)
unfolding ensure_message_stream
ensure_message_stream-eq (channel c) id db plain h = rw h refl
ensure_message_stream-eq (dm c) id db plain h = rw h refl
ensure_message_stream-eq (thread c) id db plain h = cc

pub append_to_stream-created :
    (input : AppendTextMessageInput) (now : ℕ) (db : Db) (row : StreamRow)
    → input.stream_id ≡ get_canonical_stream_id input.target
    → find_stream_of_target input.target db.streams ≡ some row
    → GapFree db
    → last_of input.stream_id db.streams < max_integer
    → IsFree input db
    → (append_to_stream input now db).0
      ≡ ok (created_answer input now (suc (last_of input.stream_id db.streams)))
unfolding append_to_stream advance_sequence_for_target
append_to_stream-created input now db row canonical exists gap_free small free =
    let (n, after, found) = advance_rows-found input.target db.streams row exists in
    let here : advance_rows input.stream_id input.target db.streams ≡ some (n, after) =
      rw canonical found in
    let a = advance_rows-Advanced input.stream_id input.target db.streams here in
    let fits : ltb max_integer n ≡ false = let next = a.next in ground arith in
    let free_number : has_sequence input.stream_id n db.messages ≡ false =
      rw a.next (has_sequence-next input.stream_id db gap_free) in
    rw (here, fits)
      (write_message-created input now n (record db { streams = after }) free free_number
        ∙ ap (λ k. ok (created_answer input now k)) a.next)
