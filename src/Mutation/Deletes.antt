-- ===== src/Mutation/Deletes.antt =====
-- The outcomes of a deletion.
use wake_surfer.Common.{
  ℕ, String, true, Option, none, some, ◌≡◌, refl, ◌⊎◌, inl, inr, Result, ok, err, Bool-cases,
}
use wake_surfer.Common.Exec.{pure, continue, continue-elim}
use wake_surfer.Contract.{MessageTarget}
use wake_surfer.Store.{Error, MessageRow, Db, find_message}
use wake_surfer.Mutation.{
  DeletedMessage, MessageMutationAuthorizer, delete_own, find_message_target,
  assert_non_blank_string,
}
use wake_surfer.Mutation.Delete.{
  DeleteMessageResult, delete_accepted, delete_forbidden, deleted_row, delete_own_message,
  delete_result, delete_target, execute_delete_message,
}
use wake_surfer.Mutation.Outcomes.{IsUpdated}
use wake_surfer.Mutation.Tombstones.{
  deleted_answer, IsKept, IsOwnDelete, delete_own_message-Outcome,
}

-- A message was deleted, and the call says so.
pub record IsDeleted (authorize : MessageMutationAuthorizer) (message_id actor_id : String)
    (now : ℕ) (before : Db) (answer : Result Error DeleteMessageResult) (after : Db) : Type 0 where
  pub is_updated : IsUpdated authorize delete_own message_id actor_id (deleted_row now) before after
  pub stream_target : MessageTarget
  pub answered : answer ≡ ok (delete_accepted (deleted_answer is_updated.row stream_target now))

-- Nothing was written. A message that the call answers with was deleted before, and is the actor's own.
pub record IsRefusedDelete (message_id actor_id : String) (before : Db)
    (answer : Result Error DeleteMessageResult) (after : Db) : Type 0 where
  pub unchanged : after ≡ before
  pub before_that :
      (m : DeletedMessage)
      → answer ≡ ok (delete_accepted m)
      → (row : MessageRow) × (find_message message_id before.messages ≡ some row)
        × (row.sender_actor_id ≡ actor_id)
        × (row.deleted_at ≡ some m.deleted_at)

module _ (authorize : MessageMutationAuthorizer) where
  abbrev DeletedOrNot :
      (message_id actor_id : String) → ℕ → Db → Result Error DeleteMessageResult × Db → Type 0
  DeletedOrNot id actor now db p =
      IsRefusedDelete id actor db p.0 p.1 ⊎ IsDeleted authorize id actor now db p.0 p.1

  own_delete-Outcome :
      (id actor : String) (now : ℕ) (db : Db) (target : MessageTarget)
      → authorize actor target delete_own ≡ true
      → (p : Result Error (Option DeletedMessage) × Db)
      → IsKept id actor db p.0 p.1 ⊎ IsOwnDelete id actor target now db p
      → DeletedOrNot id actor now db (continue p.0 (λ message. pure (delete_result message)) p.1)
  own_delete-Outcome id actor now db target allowed (err e, s) (inl kept) =
      inl (record { unchanged = kept.unchanged; before_that = λ m h. absurd cc })
  own_delete-Outcome id actor now db target allowed (ok none, s) (inl kept) =
      inl (record { unchanged = kept.unchanged; before_that = λ m h. absurd cc })
  own_delete-Outcome id actor now db target allowed (ok (some d), s) (inl kept) =
      inl (record { unchanged = kept.unchanged; before_that = λ m h. kept.before_that m (cc) })
  own_delete-Outcome id actor now db target allowed p (inr own) = rw own.answered (
      inr (record {
        is_updated = record {
          row = own.row;
          target = target;
          found = own.found;
          own = own.own;
          in_stream = own.in_stream;
          allowed = allowed;
          alive = own.alive;
          updated = own.updated;
        };
        stream_target = own.stream_target;
        answered = refl;
      }))

  -- A deletion has written nothing, and answers as accepted only for a message of the actor's own
  -- that was deleted before; or the actor's own message, which was not deleted and which the
  -- authorizer let it delete, is a tombstone with the next version.
  pub execute_delete_message-Outcome :
      (seen : Db) (message_id actor_id : String) (now : ℕ) (db : Db)
      → IsRefusedDelete message_id actor_id db
          (execute_delete_message authorize seen message_id actor_id now db).0
          (execute_delete_message authorize seen message_id actor_id now db).1
        ⊎ IsDeleted authorize message_id actor_id now db
            (execute_delete_message authorize seen message_id actor_id now db).0
            (execute_delete_message authorize seen message_id actor_id now db).1
  unfolding execute_delete_message
  execute_delete_message-Outcome seen id actor now db =
      continue-elim (DeletedOrNot id actor now db) (assert_non_blank_string actor) _ db thrown
        (λ _ _.
          continue-elim (DeletedOrNot id actor now db) (assert_non_blank_string id) _ db thrown
            (λ _ _.
              continue-elim (DeletedOrNot id actor now db) (find_message_target seen id)
                (delete_target authorize id actor now) db thrown (λ target _. target_at target)))
    where
      thrown : (e : Error) → DeletedOrNot id actor now db (err e, db)
      thrown e = inl (record { unchanged = refl; before_that = λ m h. absurd cc })

      forbidden : DeletedOrNot id actor now db (ok delete_forbidden, db)
      forbidden = inl (record { unchanged = refl; before_that = λ m h. absurd cc })

      target_at :
          (target : Option MessageTarget)
          → DeletedOrNot id actor now db (delete_target authorize id actor now target db)
      target_at none = forbidden
      target_at (some target) = elim (Bool-cases (authorize actor target delete_own)) [
        | inr denied ↦ rw denied forbidden
        | inl allowed ↦ rw allowed (
            own_delete-Outcome id actor now db target allowed
              (delete_own_message id actor target now db)
              (delete_own_message-Outcome id actor target now db))
      ]
