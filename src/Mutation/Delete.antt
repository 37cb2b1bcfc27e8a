-- ===== src/Mutation/Delete.antt =====
-- usecases/delete-message: the transaction that makes a message a tombstone, and the use case.
use wake_surfer.Common.{
  ℕ, suc, String, not, Option, none, some, ltb, if◌then◌else◌, Result, ok, err,
}
use wake_surfer.Common.Exec.{Exec, pure, throw, ◌>>=◌, ◌>>◌}
use wake_surfer.Values.{null, is_nullish}
use wake_surfer.Contract.{MessageTarget}
use wake_surfer.Store.{
  Error, invalid_lifecycle, constraint_violation, integer_out_of_range, MessageRow, Db, transaction,
  lift, max_integer,
}
use wake_surfer.Mutation.{
  DeletedMessage, MessageMutationAuthorizer, delete_own, CurrentMessageRow, assert_non_blank_string,
  find_current, find_message_target, is_foreign, row_to_deleted_message, update_rows,
}

pub data DeleteMessageResult : Type 0 where
  delete_accepted : DeletedMessage → DeleteMessageResult
  delete_forbidden : DeleteMessageResult

-- The row that the update writes.
abbrev pub deleted_row : (now : ℕ) → MessageRow → MessageRow
deleted_row now row = record row {
  content = null;
  version = suc row.version;
  deleted_at = some now;
}

-- The update of the row, with the tests of the table on the version and on `deleted_at`.
unfoldable pub write_delete : MessageRow → (now : ℕ) → Exec Db Error (Unit {0})
unfolding update_rows
write_delete row now db =
    if ltb max_integer (suc row.version)
    then (err integer_out_of_range, db)
    else if ltb now row.created_at
    then (err constraint_violation, db)
    else (ok tt, record db { messages = update_rows row.message_id (deleted_row now) db.messages })

abbrev pub some_deleted : Result Error DeletedMessage → Result Error (Option DeletedMessage)
some_deleted (ok message) = ok (some message)
some_deleted (err e) = err e

-- The transaction on a message that is not deleted.
unfoldable pub delete_current :
    CurrentMessageRow → (now : ℕ) → Exec Db Error (Option DeletedMessage)
unfolding write_delete row_to_deleted_message
delete_current current now = do
  write_delete current.row now
  lift
      (some_deleted (row_to_deleted_message (record current { row = deleted_row now current.row })))

abbrev pub delete_unless_deleted :
    CurrentMessageRow → (now : ℕ) → Option ℕ → Exec Db Error (Option DeletedMessage)
delete_unless_deleted current now (some at) = lift (some_deleted (row_to_deleted_message current))
delete_unless_deleted current now none =
    if is_nullish current.row.content then throw invalid_lifecycle else delete_current current now

abbrev pub delete_found :
    (actor_id : String)
    → MessageTarget
    → (now : ℕ) → Option CurrentMessageRow
    → Exec Db Error (Option DeletedMessage)
delete_found actor_id target now none = pure none
delete_found actor_id target now (some current) =
    if is_foreign actor_id target current.row
    then pure none
    else delete_unless_deleted current now current.row.deleted_at

unfoldable pub delete_own_message :
    (message_id actor_id : String)
    → MessageTarget
    → (now : ℕ) → Exec Db Error (Option DeletedMessage)
unfolding find_current is_foreign row_to_deleted_message delete_current
delete_own_message message_id actor_id target now =
    transaction (λ db. delete_found actor_id target now (find_current db message_id) db)

abbrev pub delete_result : Option DeletedMessage → DeleteMessageResult
delete_result none = delete_forbidden
delete_result (some message) = delete_accepted message

module _ (authorize : MessageMutationAuthorizer) where
  abbrev pub delete_target :
      (message_id actor_id : String)
      → (now : ℕ) → Option MessageTarget
      → Exec Db Error DeleteMessageResult
  delete_target message_id actor_id now none = pure delete_forbidden
  delete_target message_id actor_id now (some target) =
      if not (authorize actor_id target delete_own)
      then pure delete_forbidden
      else (delete_own_message message_id actor_id target now >>= λ message.
          pure (delete_result message))

  -- `seen` is the database when the target is looked up.
  unfoldable pub execute_delete_message :
      (seen : Db) → (message_id actor_id : String) → (now : ℕ) → Exec Db Error DeleteMessageResult
  unfolding find_message_target delete_own_message
  execute_delete_message seen message_id actor_id now = do
    lift (assert_non_blank_string actor_id)
    lift (assert_non_blank_string message_id)
    target ← lift (find_message_target seen message_id)
    delete_target message_id actor_id now target
