-- ===== src/History.antt =====
-- The database under calls of the send and the mutation package, one transaction after the other.
-- Each call brings the state of the database at its first look, its message ID and its time.
pub mod Changes
pub mod Sequences
pub mod Rows
pub mod Receipts
pub mod Readable
pub mod Lookup
pub mod Retry
mod Tests
use wake_surfer.Common.{ℕ, String, List, [], ◌∷◌}
use wake_surfer.Store.{Db}
use wake_surfer.Send.{CanonicalPayload}
use wake_surfer.Send.Execute.{SendMessageInput, Resolver, WriteAuthorizer, execute_send_message}
use wake_surfer.Mutation.{MessageMutationAuthorizer}
use wake_surfer.Mutation.Edit.{execute_edit_message}
use wake_surfer.Mutation.Delete.{execute_delete_message}

pub data Call : Type 0 where
  send_message : (seen : Db) → SendMessageInput → (message_id : String) → (now : ℕ) → Call
  edit_message : (seen : Db) (message_id text actor_id : String) → (now : ℕ) → Call
  delete_message : (seen : Db) (message_id actor_id : String) → (now : ℕ) → Call

-- What belongs to the callers of the packages.
pub record Environment : Type 0 where
  pub stringify : CanonicalPayload → String
  pub sha256 : String → List ℕ
  pub resolve_target : Resolver
  pub authorize_write : WriteAuthorizer
  pub authorize_mutation : MessageMutationAuthorizer

-- The database after a call.
unfoldable pub step : Environment → Call → Db → Db
unfolding execute_send_message execute_edit_message execute_delete_message
step env (send_message seen input id now) db =
    (execute_send_message env.stringify env.sha256 env.resolve_target env.authorize_write seen input
      id now db).1
step env (edit_message seen id text actor now) db =
    (execute_edit_message env.authorize_mutation seen id text actor now db).1
step env (delete_message seen id actor now) db =
    (execute_delete_message env.authorize_mutation seen id actor now db).1

abbrev pub run : Environment → List Call → Db → Db
run env [] db = db
run env (call ∷ calls) db = run env calls (step env call db)
