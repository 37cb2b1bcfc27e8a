-- ===== src/Mutation/Edit.antt =====
-- usecases/edit-message: the transaction that writes a new text to a message, and the use case.
use wake_surfer.Common.{
  ℕ, suc, String, not, Option, none, some, ltb, if◌then◌else◌, Result, ok, err,
}
use wake_surfer.Common.Exec.{Exec, pure, throw, ◌>>=◌, ◌>>◌}
use wake_surfer.Values.{Value, is_nullish, value_has_nul}
use wake_surfer.Contract.{MessageTarget}
use wake_surfer.Store.{
  Error, invalid_lifecycle, constraint_violation, integer_out_of_range, invalid_text, MessageRow,
  Db, transaction, lift, max_integer,
}
use wake_surfer.Send.Content.{
  create_persisted_text_message_content, parse_persisted_text_message_content,
}
use wake_surfer.Mutation.{
  EditedTextMessage, DeletedMessage, MessageMutationAuthorizer, edit_own, CurrentMessageRow,
  assert_non_blank_string, normalize_edited_message_text, parse_message_target, find_current,
  find_message_target, is_foreign, row_to_deleted_message, update_rows,
}

-- What the transaction returns; `none` is `undefined`.
pub data Edited : Type 0 where
  edited_text : EditedTextMessage → Edited
  was_deleted : DeletedMessage → Edited

pub data EditMessageResult : Type 0 where
  edit_accepted : EditedTextMessage → EditMessageResult
  invalid_content edit_forbidden : EditMessageResult
  message_deleted : DeletedMessage → EditMessageResult

abbrev pub edited_message :
    MessageRow
    → (text : String) → (edited_at : ℕ) → Result Error MessageTarget
    → Result Error EditedTextMessage
edited_message row text at (err e) = err e
edited_message row text at (ok target) = ok (record {
  message_id = row.message_id;
  stream_id = row.stream_id;
  sequence = row.sequence;
  sender_actor_id = row.sender_actor_id;
  target = target;
  version = row.version;
  text = text;
  created_at = row.created_at;
  edited_at = at;
})

abbrev pub edited_of :
    CurrentMessageRow → Option ℕ → Option ℕ → Result Error String → Result Error EditedTextMessage
edited_of current (some at) none (ok text) =
    edited_message current.row text at (parse_message_target current.target)
edited_of current (some at) none (err e) = err e
edited_of current _ _ _ = err invalid_lifecycle

unfoldable pub row_to_edited_text_message : CurrentMessageRow → Result Error EditedTextMessage
unfolding parse_message_target
row_to_edited_text_message current =
    if is_nullish current.row.content
    then err invalid_lifecycle
    else edited_of current current.row.edited_at current.row.deleted_at
        (parse_persisted_text_message_content current.row.content)

-- The row that the update writes.
abbrev pub edited_row : Value → (now : ℕ) → MessageRow → MessageRow
edited_row content now row = record row {
  content = content;
  version = suc row.version;
  edited_at = some now;
}

-- The update of the row, with the tests of the table on the version and on `edited_at`, and of the
-- texts that the column can hold.
unfoldable pub write_edit : MessageRow → Value → (now : ℕ) → Exec Db Error (Unit {0})
unfolding update_rows
write_edit row content now db =
    if ltb max_integer (suc row.version)
    then (err integer_out_of_range, db)
    else if ltb now row.created_at
    then (err constraint_violation, db)
    else if value_has_nul content
    then (err invalid_text, db)
    else (
      ok tt,
      record db { messages = update_rows row.message_id (edited_row content now) db.messages },
    )

-- The transaction on a message that is not deleted.
unfoldable pub edit_current :
    CurrentMessageRow → (text : String) → (now : ℕ) → Exec Db Error (Option Edited)
unfolding write_edit row_to_edited_text_message
edit_current current text now = do
  content ← lift (create_persisted_text_message_content text)
  write_edit current.row content now
  message ←
      lift
        (row_to_edited_text_message (record current { row = edited_row content now current.row }))
  pure (some (edited_text message))

abbrev pub was_deleted_of : Result Error DeletedMessage → Result Error (Option Edited)
was_deleted_of (ok message) = ok (some (was_deleted message))
was_deleted_of (err e) = err e

abbrev pub edit_unless_deleted :
    CurrentMessageRow → (text : String) → (now : ℕ) → Option ℕ → Exec Db Error (Option Edited)
edit_unless_deleted current text now (some at) =
    lift (was_deleted_of (row_to_deleted_message current))
edit_unless_deleted current text now none =
    if is_nullish current.row.content
    then throw invalid_lifecycle
    else edit_current current text now

abbrev pub edit_found :
    (actor_id : String)
    → MessageTarget
    → (text : String) → (now : ℕ) → Option CurrentMessageRow
    → Exec Db Error (Option Edited)
edit_found actor_id target text now none = pure none
edit_found actor_id target text now (some current) =
    if is_foreign actor_id target current.row
    then pure none
    else edit_unless_deleted current text now current.row.deleted_at

-- `now` is the time of the database.
unfoldable pub edit_own_message :
    (message_id actor_id : String)
    → MessageTarget
    → (text : String) → (now : ℕ) → Exec Db Error (Option Edited)
unfolding find_current is_foreign row_to_deleted_message edit_current
edit_own_message message_id actor_id target text now =
    transaction (λ db. edit_found actor_id target text now (find_current db message_id) db)

abbrev pub edit_result : Option Edited → EditMessageResult
edit_result none = edit_forbidden
edit_result (some (was_deleted message)) = message_deleted message
edit_result (some (edited_text message)) = edit_accepted message

module _ (authorize : MessageMutationAuthorizer) where
  abbrev pub edit_target :
      (message_id actor_id text : String)
      → (now : ℕ) → Option MessageTarget
      → Exec Db Error EditMessageResult
  edit_target message_id actor_id text now none = pure edit_forbidden
  edit_target message_id actor_id text now (some target) =
      if not (authorize actor_id target edit_own)
      then pure edit_forbidden
      else (edit_own_message message_id actor_id target text now >>= λ message.
          pure (edit_result message))

  abbrev pub edit_text :
      (seen : Db)
      → (message_id actor_id : String) → (now : ℕ) → Option String
      → Exec Db Error EditMessageResult
  edit_text seen message_id actor_id now none = pure invalid_content
  edit_text seen message_id actor_id now (some text) =
      lift (find_message_target seen message_id) >>= edit_target message_id actor_id text now

  -- `seen` is the database when the target is looked up.
  unfoldable pub execute_edit_message :
      (seen : Db)
      → (message_id text actor_id : String) → (now : ℕ) → Exec Db Error EditMessageResult
  unfolding find_message_target edit_own_message
  execute_edit_message seen message_id text actor_id now = do
    lift (assert_non_blank_string actor_id)
    lift (assert_non_blank_string message_id)
    edit_text seen message_id actor_id now (normalize_edited_message_text text)
