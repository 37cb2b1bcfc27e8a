-- ===== src/Mutation/Tests.antt =====
-- The theorems on edits and deletions at a message of Ann's.
use wake_surfer.Common.{has_nul, ◌≡◌, ◌⊎◌, refl, true, [], ◌∷◌, none, ok, trim, is_white}
use wake_surfer.Values.{value_has_nul, fields_have_nul}
use wake_surfer.Contract.{
  channel, get_canonical_stream_id, get_message_target_type, get_message_target_id,
}
use wake_surfer.Store.{Db, find_stream, find_message}
use wake_surfer.Send.Content.{
  persisted_content, parse_persisted_text_message_content, create_persisted_text_message_content,
}
use wake_surfer.Mutation.{
  MessageMutationAuthorizer, assert_non_blank_string, normalize_edited_message_text,
  parse_message_target, find_current, find_message_target, is_foreign, row_to_deleted_message,
  update_rows,
}
use wake_surfer.Mutation.Edit.{
  edit_accepted, row_to_edited_text_message, write_edit, edit_current, edit_own_message,
  execute_edit_message,
}
use wake_surfer.Mutation.Delete.{
  write_delete, delete_current, delete_own_message, execute_delete_message,
}
use wake_surfer.Mutation.Edits.{IsEdited, IsRefusedEdit, execute_edit_message-Outcome}
use wake_surfer.Mutation.Deletes.{IsDeleted, IsRefusedDelete, execute_delete_message-Outcome}

mutations : Unit {0}
unfolding trim is_white has_nul value_has_nul fields_have_nul get_canonical_stream_id
    get_message_target_type get_message_target_id find_stream find_message
    parse_persisted_text_message_content create_persisted_text_message_content
    assert_non_blank_string normalize_edited_message_text parse_message_target find_current
    find_message_target is_foreign row_to_deleted_message update_rows row_to_edited_text_message
    write_edit edit_current edit_own_message execute_edit_message write_delete delete_current
    delete_own_message execute_delete_message
mutations = tt

abbrev authorize : MessageMutationAuthorizer
authorize actor target capability = true

abbrev db : Db
db = record {
  streams = record { target = channel "c"; last_sequence = 1 } ∷ [];
  messages =
      record {
        message_id = "m1";
        stream_id = "channel:c";
        sequence = 1;
        sender_actor_id = "ann";
        version = 1;
        content = persisted_content "hi";
        created_at = 100;
        edited_at = none;
        deleted_at = none;
      }
      ∷ [];
  receipts = [];
}

execute_edit_message_own :
    (execute_edit_message authorize db "m1" "ho " "ann" 200 db).0
    ≡ ok (
        edit_accepted (record {
          message_id = "m1";
          stream_id = "channel:c";
          sequence = 1;
          sender_actor_id = "ann";
          target = channel "c";
          version = 2;
          text = "ho";
          created_at = 100;
          edited_at = 200;
        }))
unfolding mutations
execute_edit_message_own = refl

execute_edit_message_foreign : (execute_edit_message authorize db "m1" "ho" "bob" 200 db).1 ≡ db
unfolding mutations
execute_edit_message_foreign = refl

execute_edit_message-Outcome_example :
    IsRefusedEdit db
      (execute_edit_message authorize db "m1" "ho " "ann" 200 db).0
      (execute_edit_message authorize db "m1" "ho " "ann" 200 db).1
    ⊎ IsEdited authorize "m1" "ho " "ann" 200 db
        (execute_edit_message authorize db "m1" "ho " "ann" 200 db).0
        (execute_edit_message authorize db "m1" "ho " "ann" 200 db).1
execute_edit_message-Outcome_example =
    execute_edit_message-Outcome authorize db "m1" "ho " "ann" 200 db

execute_delete_message-Outcome_example :
    IsRefusedDelete "m1" "ann" db
      (execute_delete_message authorize db "m1" "ann" 200 db).0
      (execute_delete_message authorize db "m1" "ann" 200 db).1
    ⊎ IsDeleted authorize "m1" "ann" 200 db
        (execute_delete_message authorize db "m1" "ann" 200 db).0
        (execute_delete_message authorize db "m1" "ann" 200 db).1
execute_delete_message-Outcome_example =
    execute_delete_message-Outcome authorize db "m1" "ann" 200 db
