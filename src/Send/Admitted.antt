-- ===== src/Send/Admitted.antt =====
-- The tests of the use case and its transaction let through what nothing stands against.
use wake_surfer.Common.{
  has_nul, ℕ, suc, ◌<◌, String, true, false, none, ◌≡◌, refl, ap, ◌∙◌, arith, str_eq, eq_refl,
  guard, Result, ok, err, is_empty, trim, is_canonical,
}
use wake_surfer.Contract.{
  MessageTarget, channel, dm, thread, get_canonical_stream_id, get_message_target_id,
}
use wake_surfer.Store.{Error, Db, find_receipt, insert_stream, max_integer, commit}
use wake_surfer.Store.Consistent.{
  last_of, GapFree, last_of-insert_stream, messages-insert_stream, receipts-insert_stream,
}
use wake_surfer.Send.{
  assert_non_blank_string, assert_idempotency_key, assert_send_message_target,
  get_send_message_stream_id,
}
use wake_surfer.Send.Append.{
  AppendTextMessageInput, is_thread, find_send_message_receipt, append_new, append_text_message,
}
use wake_surfer.Send.Appended.{created_answer}
use wake_surfer.Send.Succeeds.{
  IsFree, insert_stream-found, ensure_message_stream-eq, append_to_stream-created,
}

pub find_send_message_receipt-none :
    (db : Db) (sender key : String)
    → find_receipt sender key db.receipts ≡ none
    → find_send_message_receipt db sender key ≡ ok none
unfolding find_send_message_receipt
find_send_message_receipt-none db sender key h = rw h refl

commit-ok :
    {A : Type 0} (db : Db) (p : Result Error A × Db) (a : A) → p.0 ≡ ok a → (commit db p).0 ≡ ok a
commit-ok db (ok b, s) a h = h
commit-ok db (err e, s) a h = h

pub append_text_message-created :
    (input : AppendTextMessageInput) (now : ℕ) (db : Db)
    → is_thread input.target ≡ false
    → is_empty (get_message_target_id input.target) ≡ false
    → has_nul (get_message_target_id input.target) ≡ false
    → input.stream_id ≡ get_canonical_stream_id input.target
    → GapFree db
    → last_of input.stream_id db.streams < max_integer
    → IsFree input db
    → (append_text_message input now db).0
      ≡ ok (created_answer input now (suc (last_of input.stream_id db.streams)))
unfolding append_text_message append_new
append_text_message-created input now db plain named target_plain canonical gap_free small free =
    let (done, row, exists) = insert_stream-found input.target db named target_plain in
    let opened : Db = (insert_stream input.target db).1 in
    let last = last_of-insert_stream input.target db input.stream_id in
    let messages = messages-insert_stream input.target db in
    let receipts = receipts-insert_stream input.target db in
    let still : IsFree input opened = rw (messages, receipts) free in
    let gap_free_opened : GapFree opened =
      λ id. rw (messages, last_of-insert_stream input.target db id) (gap_free id) in
    let appended_new : (append_new input now db).0
        ≡ ok (created_answer input now (suc (last_of input.stream_id db.streams))) =
      rw (ensure_message_stream-eq input.target input.stream_id db plain done) (
        append_to_stream-created input now opened row canonical exists gap_free_opened
          (rw last small) still
        ∙ ap (λ n. ok (created_answer input now (suc n))) last) in
    rw (find_send_message_receipt-none db _ _ (free.1))
      (commit-ok db (append_new input now db) _ appended_new)

pub assert_non_blank_string-ok :
    (s : String) → is_empty (trim s) ≡ false → assert_non_blank_string s ≡ ok tt
unfolding assert_non_blank_string
assert_non_blank_string-ok s h = rw h refl

pub assert_idempotency_key-ok :
    (s : String) → is_canonical s ≡ true → assert_idempotency_key s ≡ ok tt
unfolding assert_idempotency_key assert_non_blank_string
assert_idempotency_key-ok s h = ground arith

-- The two packages have the same stream ID for a target.
get_send_message_stream_id-eq :
    (target : MessageTarget) → get_send_message_stream_id target ≡ get_canonical_stream_id target
unfolding get_send_message_stream_id get_canonical_stream_id
get_send_message_stream_id-eq (channel i) = refl
get_send_message_stream_id-eq (dm i) = refl
get_send_message_stream_id-eq (thread i) = refl

pub assert_send_message_target-ok :
    (target : MessageTarget)
    → is_empty (trim (get_message_target_id target)) ≡ false
    → assert_send_message_target target ≡ ok tt
unfolding assert_send_message_target get_message_target_id
assert_send_message_target-ok (channel i) h = rw h refl
assert_send_message_target-ok (dm i) h = rw h refl
assert_send_message_target-ok (thread i) h = rw h refl

pub same_stream-ok :
    (target : MessageTarget) (e : Error)
    → ◌≡◌ {A = Result Error (Unit {0})}
        (guard (str_eq (get_canonical_stream_id target) (get_send_message_stream_id target)) e)
        (ok tt)
same_stream-ok target e =
    rw (get_send_message_stream_id-eq target, eq_refl (get_canonical_stream_id target)) refl
