-- ===== src/Mutation/Tombstones.antt =====
-- The outcomes of the transaction that deletes a message.
use wake_surfer.Common.{
  ℕ, suc, String, Option, none, some, ◌≡◌, ◌≢◌, refl, ap, ◌∙◌, arith, ltb, ◌⊎◌, inl, inr, Result,
  ok, err, Bool-cases, Option-cases,
}
use wake_surfer.Values.{is_nullish}
use wake_surfer.Contract.{MessageTarget, get_canonical_stream_id}
use wake_surfer.Store.{
  Error, invalid_argument, integer_out_of_range, constraint_violation, MessageRow, Db, commit,
  find_message, max_integer,
}
use wake_surfer.Mutation.{
  DeletedMessage, CurrentMessageRow, find_current, is_foreign, row_to_deleted_message,
}
use wake_surfer.Mutation.Delete.{
  deleted_row, write_delete, some_deleted, delete_current, delete_unless_deleted, delete_found,
  delete_own_message,
}
use wake_surfer.Mutation.Outcomes.{
  updated_db, find_message-id, find_current-found, parse_message_target-cases,
}
use wake_surfer.Mutation.Edits.{is_foreign-false}

-- The message in the answer to a deletion.
abbrev pub deleted_answer : MessageRow → MessageTarget → (now : ℕ) → DeletedMessage
deleted_answer row target now = record {
  message_id = row.message_id;
  stream_id = row.stream_id;
  sequence = row.sequence;
  sender_actor_id = row.sender_actor_id;
  target = target;
  version = suc row.version;
  created_at = row.created_at;
  deleted_at = now;
}

write_delete-eq :
    (row : MessageRow) (now : ℕ) (db : Db)
    → ((e : Error) × (write_delete row now db ≡ (err e, db)))
      ⊎ (write_delete row now db ≡ (ok tt, updated_db row.message_id (deleted_row now) db))
unfolding write_delete
write_delete-eq row now db = elim (Bool-cases (ltb max_integer (suc row.version))) [
  | inl large ↦ inl (integer_out_of_range, ground arith)
  | inr fits ↦ elim (Bool-cases (ltb now row.created_at)) [
    | inl early ↦ inl (constraint_violation, ground arith)
    | inr later ↦ inr (ground arith)
  ]
]

row_to_deleted-eq :
    (row : MessageRow) (target : MessageTarget) (now : ℕ)
    → ((e : Error) × (row_to_deleted_message (record { row = deleted_row now row; target = target })
          ≡ err e))
      ⊎ (row_to_deleted_message (record { row = deleted_row now row; target = target })
          ≡ ok (deleted_answer row target now))
unfolding row_to_deleted_message
row_to_deleted-eq row target now = elim (parse_message_target-cases target) [
  | inl blank ↦ rw blank (inl (invalid_argument, refl))
  | inr good ↦ rw good (inr refl)
]

-- Nothing was written; a message that is answered as deleted was the actor's own and deleted before.
pub record IsKept (message_id actor_id : String) (before : Db)
    (answer : Result Error (Option DeletedMessage)) (after : Db) : Type 0 where
  pub unchanged : after ≡ before
  pub before_that :
      (m : DeletedMessage)
      → answer ≡ ok (some m)
      → (row : MessageRow) × (find_message message_id before.messages ≡ some row)
        × (row.sender_actor_id ≡ actor_id)
        × (row.deleted_at ≡ some m.deleted_at)

-- The actor's own message was made a tombstone.
pub record IsOwnDelete (message_id actor_id : String) (target : MessageTarget) (now : ℕ)
    (before : Db) (p : Result Error (Option DeletedMessage) × Db) : Type 0 where
  pub row : MessageRow
  pub stream_target : MessageTarget
  pub found : find_message message_id before.messages ≡ some row
  pub own : row.sender_actor_id ≡ actor_id
  pub in_stream : row.stream_id ≡ get_canonical_stream_id target
  pub alive : row.deleted_at ≡ none
  pub answered : p.0 ≡ ok (some (deleted_answer row stream_target now))
  pub updated : p.1 ≡ updated_db message_id (deleted_row now) before

abbrev DeleteCurrentOutcome :
    MessageRow → MessageTarget → ℕ → Db → Result Error (Option DeletedMessage) × Db → Type 0
DeleteCurrentOutcome row target now db p =
    ((p.1 ≡ db) × ((m : DeletedMessage) → p.0 ≢ ok (some m)))
    ⊎ ((p.0 ≡ ok (some (deleted_answer row target now)))
        × (p.1 ≡ updated_db row.message_id (deleted_row now) db))

delete_current-Outcome :
    (row : MessageRow) (target : MessageTarget) (now : ℕ) (db : Db)
    → DeleteCurrentOutcome row target now db
        (commit db (delete_current (record { row = row; target = target }) now db))
unfolding delete_current
delete_current-Outcome row target now db = elim (write_delete-eq row now db) [
  | inl (e, refused) ↦ rw refused (inl (refl, λ m h. cc))
  | inr done ↦ rw done (elim (row_to_deleted-eq row target now) [
    | inl (e, blank) ↦ rw blank (inl (refl, λ m h. cc))
    | inr good ↦ rw good (inr (refl, refl))
  ])
]

row_to_deleted_message-deleted_at :
    (current : CurrentMessageRow) (m : DeletedMessage)
    → row_to_deleted_message current ≡ ok m
    → current.row.deleted_at ≡ some m.deleted_at
unfolding row_to_deleted_message
row_to_deleted_message-deleted_at current m h = elim (Option-cases current.row.deleted_at) [
  | inl never ↦ ground arith
  | inr (at, deleted) ↦ elim (parse_message_target-cases current.target) [
    | inl blank ↦ ground arith
    | inr good ↦ ground arith
  ]
]

pub delete_own_message-Outcome :
    (message_id actor_id : String) (target : MessageTarget) (now : ℕ) (db : Db)
    → IsKept message_id actor_id db
        (delete_own_message message_id actor_id target now db).0
        (delete_own_message message_id actor_id target now db).1
      ⊎ IsOwnDelete message_id actor_id target now db
          (delete_own_message message_id actor_id target now db)
unfolding delete_own_message
delete_own_message-Outcome id actor target now db = at (find_current db id) refl
  where
    deleted_at :
        (current : CurrentMessageRow)
        → find_message id db.messages ≡ some current.row
        → current.row.sender_actor_id ≡ actor
        → (r : Result Error DeletedMessage) → row_to_deleted_message current ≡ r
        → IsKept id actor db (commit db (some_deleted r, db)).0 (commit db (some_deleted r, db)).1
    deleted_at current found own (ok m) e = record {
      unchanged = refl;
      before_that =
          λ n h. (current.row, found, own, row_to_deleted_message-deleted_at current m e ∙ cc);
    }
    deleted_at current found own (err x) e = record {
      unchanged = refl;
      before_that = λ n h. absurd cc;
    }

    alive_at :
        (current : CurrentMessageRow)
        → find_message id db.messages ≡ some current.row
        → (current.row.sender_actor_id ≡ actor)
          × (current.row.stream_id ≡ get_canonical_stream_id target)
        → (deleted : Option ℕ) → current.row.deleted_at ≡ deleted
        → IsKept id actor db
            (commit db (delete_unless_deleted current now deleted db)).0
            (commit db (delete_unless_deleted current now deleted db)).1
          ⊎ IsOwnDelete id actor target now db
              (commit db (delete_unless_deleted current now deleted db))
    alive_at current found mine (some at) e =
        inl (deleted_at current found mine.0 (row_to_deleted_message current) refl)
    alive_at current found mine none e = elim (Bool-cases (is_nullish current.row.content)) [
      | inl nullish ↦ rw nullish (inl (record { unchanged = refl; before_that = λ m h. absurd cc }))
      | inr good ↦ rw good (elim (delete_current-Outcome current.row current.target now db) [
        | inl (same, not_some) ↦
            inl (record { unchanged = same; before_that = λ m h. absurd (not_some m h) })
        | inr (answered, updated) ↦ inr (record {
          row = current.row;
          stream_target = current.target;
          found = found;
          own = mine.0;
          in_stream = mine.1;
          alive = e;
          answered = answered;
          updated =
              updated
              ∙ ap (λ i. updated_db i (deleted_row now) db)
                  (find_message-id id db.messages current.row found);
        })
      ])
    ]

    at :
        (found : Option CurrentMessageRow)
        → find_current db id ≡ found
        → IsKept id actor db
            (commit db (delete_found actor target now found db)).0
            (commit db (delete_found actor target now found db)).1
          ⊎ IsOwnDelete id actor target now db (commit db (delete_found actor target now found db))
    at none e = inl (record { unchanged = refl; before_that = λ m h. absurd cc })
    at (some current) e = elim (Bool-cases (is_foreign actor target current.row)) [
      | inl foreign ↦ rw foreign (inl (record { unchanged = refl; before_that = λ m h. absurd cc }))
      | inr own ↦ rw own (
          alive_at current (find_current-found db id current e)
            (is_foreign-false actor target current.row own) current.row.deleted_at refl)
    ]
