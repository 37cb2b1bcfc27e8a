-- ===== src/History/Changes.antt =====
-- What a call can do to the database: nothing, append one message, or write one message that is not
-- deleted. The invariants are proved of these changes.
use wake_surfer.Common.{
  ℕ, suc, ◌≤◌, String, true, none, some, List, [], ◌∷◌, ◌≡◌, ◌≢◌, refl, inl, inr,
}
use wake_surfer.Store.{MessageRow, ReceiptRow, Db, find_message, find_receipt, max_integer}
use wake_surfer.Store.Consistent.{last_of}
use wake_surfer.Send.Content.{is_text, persisted_content}
use wake_surfer.Send.Append.{new_row}
use wake_surfer.Send.Appended.{receipt_row}
use wake_surfer.Send.Execute.{append_input}
use wake_surfer.Send.Results.{execute_send_message-Sent}
use wake_surfer.Mutation.Edit.{edited_row}
use wake_surfer.Mutation.Delete.{deleted_row}
use wake_surfer.Mutation.Outcomes.{updated_db}
use wake_surfer.Mutation.Edits.{execute_edit_message-Outcome}
use wake_surfer.Mutation.Deletes.{execute_delete_message-Outcome}
use wake_surfer.History.{Call, send_message, edit_message, delete_message, Environment, step, run}

-- A message and its receipt are new, and the message has the stream's next number.
pub record Appends (before after : Db) : Type 0 where
  pub row : MessageRow
  pub receipt : ReceiptRow
  pub text : String
  pub fits : is_text text ≡ true
  pub content : row.content ≡ persisted_content text
  pub alive : row.deleted_at ≡ none
  pub named : receipt.result_message_id ≡ row.message_id
  pub sender : receipt.sender_actor_id ≡ row.sender_actor_id
  pub next : row.sequence ≡ suc (last_of row.stream_id before.streams)
  pub bounded : row.sequence ≤ max_integer
  pub now_last : last_of row.stream_id after.streams ≡ row.sequence
  pub others :
      (id : String) → id ≢ row.stream_id → last_of id after.streams ≡ last_of id before.streams
  pub new_message : find_message row.message_id before.messages ≡ none
  pub new_receipt :
      find_receipt receipt.sender_actor_id receipt.idempotency_key before.receipts ≡ none
  pub messages : after.messages ≡ row ∷ before.messages
  pub receipts : after.receipts ≡ receipt ∷ before.receipts

-- How a message is written.
pub data Writing : Type 0 where
  editing : (text : String) (now : ℕ) → is_text text ≡ true → Writing
  deleting : (now : ℕ) → Writing

abbrev pub written : Writing → MessageRow → MessageRow
written (editing text now fits) row = edited_row (persisted_content text) now row
written (deleting now) row = deleted_row now row

pub record Writes (before after : Db) : Type 0 where
  pub message_id : String
  pub writing : Writing
  pub row : MessageRow
  pub found : find_message message_id before.messages ≡ some row
  pub alive : row.deleted_at ≡ none
  pub updated : after ≡ updated_db message_id (written writing) before

pub data Change (before after : Db) : Type 0 where
  stays : after ≡ before → Change before after
  appends : Appends before after → Change before after
  writes : Writes before after → Change before after

-- What a call of one of the three use cases does to the database is a change: nothing at all; or one
-- new message with a text that fits, in a stream whose next sequence number it takes, and its
-- receipt under a key that had none, where no other stream gets another number; or a new text or a
-- tombstone for one message that is not deleted.
pub step-Change : (env : Environment) (call : Call) (db : Db) → Change db (step env call db)
unfolding step
step-Change env (send_message seen input id now) db =
    elim (execute_send_message-Sent env.stringify env.sha256 env.resolve_target env.authorize_write
      seen input id now db) [
        | inl refused ↦ stays refused.unchanged
        | inr sent ↦
            let a = sent.is_appended in
            let i = append_input input sent.text sent.fingerprint id sent.stream_id in
            appends (record {
              row = new_row i a.sequence (persisted_content sent.text) now;
              receipt = receipt_row i;
              text = sent.text;
              fits = a.fits;
              content = refl;
              alive = refl;
              named = refl;
              sender = refl;
              next = a.next;
              bounded = a.bounded;
              now_last = a.now_last;
              others = a.others;
              new_message = a.new_message;
              new_receipt = a.new_receipt;
              messages = a.messages;
              receipts = a.receipts;
            })
      ]
step-Change env (edit_message seen id text actor now) db =
    elim (execute_edit_message-Outcome env.authorize_mutation seen id text actor now db) [
      | inl refused ↦ stays refused.unchanged
      | inr edited ↦ writes (record {
        message_id = id;
        writing = editing edited.normalized_text now edited.fits;
        row = edited.is_updated.row;
        found = edited.is_updated.found;
        alive = edited.is_updated.alive;
        updated = edited.is_updated.updated;
      })
    ]
step-Change env (delete_message seen id actor now) db =
    elim (execute_delete_message-Outcome env.authorize_mutation seen id actor now db) [
      | inl refused ↦ stays refused.unchanged
      | inr deleted ↦ writes (record {
        message_id = id;
        writing = deleting now;
        row = deleted.is_updated.row;
        found = deleted.is_updated.found;
        alive = deleted.is_updated.alive;
        updated = deleted.is_updated.updated;
      })
    ]

-- A property of databases that each change keeps is kept by any number of calls.
pub run-Keeps :
    (P : Db → Type 0) (env : Environment)
    → ((before after : Db) → Change before after → P before → P after)
    → (calls : List Call) (db : Db) → P db
    → P (run env calls db)
run-Keeps P env keeps [] db p = p
run-Keeps P env keeps (call ∷ calls) db p =
    run-Keeps P env keeps calls (step env call db)
      (keeps db (step env call db) (step-Change env call db) p)
