-- ===== src/History/Receipts.antt =====
-- The receipts over any number of calls, and what the rows of messages hold.
use wake_surfer.Common.{
  ℕ, String, true, Bool-cases, inl, inr, ◌⊎◌, List, [], ◌∷◌, none, some, ◌≡◌, refl, sym, subst,
  arith, str_eq, eq_iff, ◌&&◌, All,
}
use wake_surfer.Values.{null}
use wake_surfer.Store.{MessageRow, ReceiptRow, Db, empty_db, find_message, find_receipt}
use wake_surfer.Send.Content.{is_text, persisted_content}
use wake_surfer.Mutation.{update_rows}
use wake_surfer.History.{Call, Environment, run}
use wake_surfer.History.Changes.{
  Writing, editing, deleting, written, Change, stays, appends, writes, run-Keeps,
}

find_receipt-append :
    (sender key : String) (new row : ReceiptRow) (rows : List ReceiptRow)
    → find_receipt new.sender_actor_id new.idempotency_key rows ≡ none
    → find_receipt sender key rows ≡ some row
    → find_receipt sender key (new ∷ rows) ≡ some row
unfolding find_receipt
find_receipt-append sender key new row rows fresh found =
    elim (Bool-cases (str_eq new.sender_actor_id sender && str_eq new.idempotency_key key)) [
      | inr differs ↦ rw differs found
      | inl same ↦
          let s = eq_iff new.sender_actor_id sender in
          let k = eq_iff new.idempotency_key key in
          let here : (new.sender_actor_id ≡ sender) × (new.idempotency_key ≡ key) =
            (ground arith, ground arith) in
          absurd (
            let moved =
              subst (λ i. find_receipt i new.idempotency_key rows ≡ none) (here.0) fresh in
            let moved_key = subst (λ i. find_receipt sender i rows ≡ none) (here.1) moved in cc)
    ]

-- A receipt that was written is found under its key whatever calls follow.
pub run-find_receipt :
    (env : Environment) (calls : List Call) (db : Db) (sender key : String) (receipt : ReceiptRow)
    → find_receipt sender key db.receipts ≡ some receipt
    → find_receipt sender key (run env calls db).receipts ≡ some receipt
run-find_receipt env calls db sender key receipt found =
    run-Keeps (λ d. find_receipt sender key d.receipts ≡ some receipt) env keeps calls db found
  where
    keeps :
        (before after : Db)
        → Change before after
        → find_receipt sender key before.receipts ≡ some receipt
        → find_receipt sender key after.receipts ≡ some receipt
    keeps before after (stays e) h =
        subst (λ d. find_receipt sender key d.receipts ≡ some receipt) (sym e) h
    keeps before after (appends a) h =
        subst (λ rows. find_receipt sender key rows ≡ some receipt) (sym a.receipts)
          (find_receipt-append sender key a.receipt receipt before.receipts a.new_receipt h)
    keeps before after (writes w) h =
        subst (λ d. find_receipt sender key d.receipts ≡ some receipt) (sym w.updated) h

-- A message has a text that fits, or it is a tombstone with no content.
abbrev pub IsLive : MessageRow → Type 0
IsLive row =
    ((text : String) × (row.deleted_at ≡ none)
      × (is_text text ≡ true)
      × (row.content ≡ persisted_content text))
    ⊎ ((at : ℕ) × (row.deleted_at ≡ some at) × (row.content ≡ null))

written-IsLive : (w : Writing) (row : MessageRow) → row.deleted_at ≡ none → IsLive (written w row)
written-IsLive (editing t now fits) row alive = inl (t, alive, fits, refl)
written-IsLive (deleting now) row alive = inr (now, refl, refl)

update_rows-IsLive :
    (w : Writing) (id : String) (rows : List MessageRow) (row : MessageRow)
    → find_message id rows ≡ some row
    → row.deleted_at ≡ none
    → All IsLive rows
    → All IsLive (update_rows id (written w) rows)
unfolding find_message update_rows
update_rows-IsLive w id [] row found alive h = tt
update_rows-IsLive w id (first ∷ rows) row found alive (p, h) =
    elim (Bool-cases (str_eq first.message_id id)) [
      | inl same ↦
          let e : first ≡ row = ground arith in
          rw same (written-IsLive w first (subst (λ r. r.deleted_at ≡ none) (sym e) alive), h)
      | inr differs ↦ rw differs (p, update_rows-IsLive w id rows row (ground arith) alive h)
    ]

pub Change-IsLive :
    (before after : Db)
    → Change before after
    → All IsLive before.messages
    → All IsLive after.messages
Change-IsLive before after (stays e) h = subst (λ d. All IsLive d.messages) (sym e) h
Change-IsLive before after (appends a) h =
    subst (All IsLive) (sym a.messages) (inl (a.text, a.alive, a.fits, a.content), h)
Change-IsLive before after (writes w) h =
    subst (λ d. All IsLive d.messages) (sym w.updated)
      (update_rows-IsLive w.writing w.message_id before.messages w.row w.found w.alive h)

-- After any number of calls from the empty database on, every stored message either is not deleted
-- and has the content of a text that is trimmed, not empty and short enough, or is deleted and has no
-- content.
pub run-IsLive :
    (env : Environment) (calls : List Call) → All IsLive (run env calls empty_db).messages
run-IsLive env calls = run-Keeps (λ d. All IsLive d.messages) env Change-IsLive calls empty_db tt

pub find_message-All :
    (P : MessageRow → Type 0) (id : String) (rows : List MessageRow) (row : MessageRow)
    → All P rows
    → find_message id rows ≡ some row
    → P row
unfolding find_message
find_message-All P id [] row h found = absurd cc
find_message-All P id (first ∷ rows) row (p, h) found =
    elim (Bool-cases (str_eq first.message_id id)) [
      | inl same ↦ let e : first ≡ row = ground arith in subst P e p
      | inr differs ↦ find_message-All P id rows row h (ground arith)
    ]
