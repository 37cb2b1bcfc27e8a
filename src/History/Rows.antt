-- ===== src/History/Rows.antt =====
-- A message over any number of calls.
use wake_surfer.Common.{
  ℕ, ◌≤◌, String, false, Bool-cases, inl, inr, List, [], ◌∷◌, none, some, ◌≡◌, ◌≢◌, refl, sym, ap,
  subst, ◌∙◌, arith, str_eq, eq_iff,
}
use wake_surfer.Store.{MessageRow, Db, find_message}
use wake_surfer.Mutation.{update_rows}
use wake_surfer.History.{Call, Environment, run}
use wake_surfer.History.Changes.{
  Writing, editing, deleting, written, Change, stays, appends, writes, run-Keeps,
}

-- A row that is found stays when a row with a new ID is put before it.
pub find_message-append :
    (id : String) (new row : MessageRow) (rows : List MessageRow)
    → find_message new.message_id rows ≡ none
    → find_message id rows ≡ some row
    → find_message id (new ∷ rows) ≡ some row
unfolding find_message
find_message-append id new row rows fresh found = elim (Bool-cases (str_eq new.message_id id)) [
  | inl same ↦ absurd (
      let e = (eq_iff new.message_id id).0 same in
      let moved = subst (λ i. find_message i rows ≡ none) e fresh in cc)
  | inr differs ↦ rw differs found
]

written-message_id : (w : Writing) (row : MessageRow) → (written w row).message_id ≡ row.message_id
written-message_id (editing t now fits) row = refl
written-message_id (deleting now) row = refl

-- The row that is written, and every other row.
find_message-update_rows :
    (w : Writing) (id : String) (rows : List MessageRow) (row : MessageRow)
    → find_message id rows ≡ some row
    → find_message id (update_rows id (written w) rows) ≡ some (written w row)
unfolding find_message update_rows
find_message-update_rows w id [] row h = cc
find_message-update_rows w id (first ∷ rows) row h =
    elim (Bool-cases (str_eq first.message_id id)) [
      | inl same ↦
          let e : first ≡ row = ground arith in
          rw (same, written-message_id w first, same) (ap (λ r. some (written w r)) e)
      | inr differs ↦ rw (differs, differs) (find_message-update_rows w id rows row (ground arith))
    ]

find_message-update_rows_other :
    (w : Writing) (id other : String) (rows : List MessageRow)
    → other ≢ id
    → find_message other (update_rows id (written w) rows) ≡ find_message other rows
unfolding find_message update_rows
find_message-update_rows_other w id other [] apart = refl
find_message-update_rows_other w id other (first ∷ rows) apart =
    let ids = written-message_id w first in
    let named = eq_iff first.message_id id in
    let other_named = eq_iff first.message_id other in
    let rest = find_message-update_rows_other w id other rows apart in
    elim (Bool-cases (str_eq first.message_id id)) [
      | inl same ↦
          let differs : str_eq first.message_id other ≡ false = ground arith in
          rw (same, ids, differs) refl
      | inr differs ↦ elim (Bool-cases (str_eq first.message_id other)) [
        | inl here ↦ rw (differs, here) refl
        | inr there ↦ rw (differs, there) rest
      ]
    ]

-- What a change does to a row: nothing, or it writes a row that is not deleted.
pub data RowChange (row after : MessageRow) : Type 0 where
  same_row : after ≡ row → RowChange row after
  written_row : (w : Writing) → row.deleted_at ≡ none → after ≡ written w row → RowChange row after

pub Change-RowChange :
    (before after : Db) (id : String) (row : MessageRow)
    → Change before after
    → find_message id before.messages ≡ some row
    → (now : MessageRow) × (find_message id after.messages ≡ some now) × RowChange row now
Change-RowChange before after id row (stays e) h =
    (row, subst (λ d. find_message id d.messages ≡ some row) (sym e) h, same_row refl)
Change-RowChange before after id row (appends a) h = (
  row,
  subst (λ rows. find_message id rows ≡ some row) (sym a.messages)
      (find_message-append id a.row row before.messages a.new_message h),
  same_row refl,
)
Change-RowChange before after id row (writes w) h = elim (Bool-cases (str_eq id w.message_id)) [
  | inl same ↦
      let e = (eq_iff id w.message_id).0 same in
      let found : find_message w.message_id before.messages ≡ some row =
        subst (λ i. find_message i before.messages ≡ some row) e h in
      let is_row : w.row ≡ row = let f = w.found in cc in
      (
        written w.writing row,
        subst (λ d. find_message id d.messages ≡ some (written w.writing row)) (sym w.updated)
            (subst
              (λ i.
                find_message i (update_rows w.message_id (written w.writing) before.messages)
                ≡ some (written w.writing row))
              (sym e) (find_message-update_rows w.writing w.message_id before.messages row found)),
        written_row w.writing (subst (λ r. r.deleted_at ≡ none) is_row w.alive) refl,
      )
  | inr differs ↦
      let apart : id ≢ w.message_id = λ e. let same = (eq_iff id w.message_id).1 e in cc in
      (
        row,
        subst (λ d. find_message id d.messages ≡ some row) (sym w.updated)
            (find_message-update_rows_other w.writing w.message_id id before.messages apart ∙ h),
        same_row refl,
      )
]

-- A deleted message stays as it is, whatever calls follow: no edit, no further deletion and no new
-- message changes a field of it, its version and the time of its deletion included.
pub run-deleted :
    (env : Environment) (calls : List Call) (db : Db) (message_id : String) (row : MessageRow)
    (deleted_at : ℕ)
    → find_message message_id db.messages ≡ some row
    → row.deleted_at ≡ some deleted_at
    → find_message message_id (run env calls db).messages ≡ some row
run-deleted env calls db id row at found deleted =
    run-Keeps (λ d. find_message id d.messages ≡ some row) env keeps calls db found
  where
    keeps :
        (before after : Db)
        → Change before after
        → find_message id before.messages ≡ some row
        → find_message id after.messages ≡ some row
    keeps before after c h = still (Change-RowChange before after id row c h)
      where
        still :
            ((now : MessageRow) × (find_message id after.messages ≡ some now) × RowChange row now)
            → find_message id after.messages ≡ some row
        still (now, e, same_row same) = e ∙ ap some same
        still (now, e, written_row w alive same) = absurd cc

-- What an edit and a deletion leave of a row.
pub record Continues (row now : MessageRow) : Type 0 where
  pub same_id : now.message_id ≡ row.message_id
  pub same_stream : now.stream_id ≡ row.stream_id
  pub same_sequence : now.sequence ≡ row.sequence
  pub same_sender : now.sender_actor_id ≡ row.sender_actor_id
  pub same_time : now.created_at ≡ row.created_at
  pub no_older : row.version ≤ now.version

RowChange-Continues :
    (first row now : MessageRow) → Continues first row → RowChange row now → Continues first now
RowChange-Continues first row now c (same_row e) = subst (Continues first) (sym e) c
RowChange-Continues first row now c (written_row (editing t time fits) alive e) =
    subst (Continues first) (sym e) (record {
      same_id = c.same_id;
      same_stream = c.same_stream;
      same_sequence = c.same_sequence;
      same_sender = c.same_sender;
      same_time = c.same_time;
      no_older = let h = c.no_older in omega arith;
    })
RowChange-Continues first row now c (written_row (deleting time) alive e) =
    subst (Continues first) (sym e) (record {
      same_id = c.same_id;
      same_stream = c.same_stream;
      same_sequence = c.same_sequence;
      same_sender = c.same_sender;
      same_time = c.same_time;
      no_older = let h = c.no_older in omega arith;
    })

-- Whatever calls follow, a message that was sent is found under its ID, with the stream, the sequence
-- number, the sender and the time of creation that it was sent with, and its version never falls.
pub run-Continues :
    (env : Environment) (calls : List Call) (db : Db) (message_id : String) (row : MessageRow)
    → find_message message_id db.messages ≡ some row
    → (now : MessageRow) × (find_message message_id (run env calls db).messages ≡ some now)
      × Continues row now
run-Continues env calls db id row found =
    run-Keeps
      (λ d. (now : MessageRow) × (find_message id d.messages ≡ some now) × Continues row now) env
      keeps calls db
      (
        row,
        found,
        record {
          same_id = refl;
          same_stream = refl;
          same_sequence = refl;
          same_sender = refl;
          same_time = refl;
          no_older = omega arith;
        },
      )
  where
    keeps :
        (before after : Db)
        → Change before after
        → ((r : MessageRow) × (find_message id before.messages ≡ some r) × Continues row r)
        → (now : MessageRow) × (find_message id after.messages ≡ some now) × Continues row now
    keeps before after c (r, e, continues) =
        let (now, found_now, changed) = Change-RowChange before after id r c e in
        (now, found_now, RowChange-Continues row r now continues changed)
