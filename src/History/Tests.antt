-- ===== src/History/Tests.antt =====
-- The theorems on runs of calls: Ann writes "hi", changes it to "ho", and deletes it.
use wake_surfer.Common.{has_nul, ◌≡◌, refl, ok, true, All, [], ◌∷◌, some, trim, is_white}
use wake_surfer.Values.{value_has_nul, fields_have_nul, null}
use wake_surfer.Contract.{get_canonical_stream_id, get_message_target_type, get_message_target_id}
use wake_surfer.Store.{
  Db, MessageRow, empty_db, find_stream, find_stream_of_target, find_message, has_sequence,
  find_receipt, has_result, insert_stream, advance_rows, insert_message, insert_receipt,
}
use wake_surfer.Store.Consistent.{sequences_of, last_of, down_from}
use wake_surfer.Send
use wake_surfer.Send.{
  assert_idempotency_key, assert_send_message_target, get_send_message_target_type,
  get_send_message_target_id, get_send_message_stream_id, normalize_message_text,
  create_send_request_fingerprint, same_bytes, matches_send_request_fingerprint,
  parse_send_request_fingerprint,
}
use wake_surfer.Send.Content.{
  parse_persisted_text_message_content, create_persisted_text_message_content,
}
use wake_surfer.Send.Append.{
  row_to_appended_text_message, row_to_current_appended_text_message,
  row_to_stored_send_message_receipt, find_send_message_receipt, ensure_message_stream,
  advance_sequence_for_target, write_message, append_to_stream, append_new, append_text_message,
}
use wake_surfer.Send.Execute.{
  result_for_existing_receipt, result_for_append, send_authorized, send_resolved, send_normalized,
  execute_send_message,
}
use wake_surfer.Send.Fixture.{
  stringify, sha256, resolve_target, authorize_write, hello, hello_message,
}
use wake_surfer.Mutation
use wake_surfer.Mutation.{
  normalize_edited_message_text, parse_message_target, find_current, find_message_target,
  is_foreign, row_to_deleted_message, update_rows,
}
use wake_surfer.Mutation.Edit.{
  row_to_edited_text_message, write_edit, edit_current, edit_own_message, execute_edit_message,
}
use wake_surfer.Mutation.Delete.{
  write_delete, delete_current, delete_own_message, execute_delete_message,
}
use wake_surfer.History.{Call, send_message, edit_message, delete_message, Environment, step, run}
use wake_surfer.History.Sequences.{run-GapFree}
use wake_surfer.History.Rows.{Continues, run-deleted, run-Continues}
use wake_surfer.History.Receipts.{IsLive, run-IsLive}
use wake_surfer.Streams.{Body}
use wake_surfer.Streams.Rows.{parse_body}
use wake_surfer.History.Readable.{column, IsBodyOf, run-IsBodyOf}
use wake_surfer.History.Retry.{send_in, IsAnsweredAgain, execute_send_message-retry}

calls : Unit {0}
unfolding trim is_white has_nul value_has_nul fields_have_nul get_canonical_stream_id
    get_message_target_type get_message_target_id find_stream find_stream_of_target find_message
    has_sequence find_receipt has_result insert_stream advance_rows insert_message insert_receipt
    assert_idempotency_key assert_send_message_target get_send_message_target_type
    get_send_message_target_id get_send_message_stream_id normalize_message_text
    create_send_request_fingerprint same_bytes matches_send_request_fingerprint
    parse_send_request_fingerprint parse_persisted_text_message_content
    create_persisted_text_message_content row_to_appended_text_message
    row_to_current_appended_text_message row_to_stored_send_message_receipt
    find_send_message_receipt ensure_message_stream advance_sequence_for_target write_message
    append_to_stream append_new append_text_message result_for_existing_receipt result_for_append
    send_authorized send_resolved send_normalized execute_send_message sequences_of
    normalize_edited_message_text parse_message_target find_current find_message_target is_foreign
    row_to_deleted_message update_rows row_to_edited_text_message write_edit edit_current
    edit_own_message execute_edit_message write_delete delete_current delete_own_message
    execute_delete_message step Send.assert_non_blank_string Mutation.assert_non_blank_string
calls = tt

abbrev env : Environment
env = record {
  stringify = stringify;
  sha256 = sha256;
  resolve_target = resolve_target;
  authorize_write = authorize_write;
  authorize_mutation = λ actor target capability. true;
}

abbrev write : Call
write = send_message empty_db hello "m1" 100

abbrev written_db : Db
written_db = run env (write ∷ []) empty_db

abbrev change : Call
change = edit_message written_db "m1" "ho" "ann" 200

abbrev remove : Call
remove = delete_message written_db "m1" "ann" 300

abbrev tombstone : MessageRow
tombstone = record {
  message_id = "m1";
  stream_id = "channel:c";
  sequence = 1;
  sender_actor_id = "ann";
  version = 3;
  content = null;
  created_at = 100;
  edited_at = some 200;
  deleted_at = some 300;
}

run_changes : (run env (write ∷ change ∷ remove ∷ []) empty_db).messages ≡ tombstone ∷ []
unfolding calls
run_changes = refl

run-GapFree_example :
    sequences_of "channel:c" (run env (write ∷ change ∷ remove ∷ []) empty_db).messages
    ≡ down_from (last_of "channel:c" (run env (write ∷ change ∷ remove ∷ []) empty_db).streams)
run-GapFree_example = run-GapFree env (write ∷ change ∷ remove ∷ []) "channel:c"

run-deleted_example :
    find_message "m1"
      (run env
        (change ∷ write ∷ remove ∷ [])
        (run env (write ∷ change ∷ remove ∷ []) empty_db)).messages
    ≡ some tombstone
unfolding calls
run-deleted_example =
    run-deleted env (change ∷ write ∷ remove ∷ []) (run env (write ∷ change ∷ remove ∷ []) empty_db)
      "m1" tombstone 300 refl refl

run-Continues_example :
    (now : MessageRow) × (find_message "m1"
        (run env (change ∷ remove ∷ []) (run env (write ∷ change ∷ remove ∷ []) empty_db)).messages
      ≡ some now)
    × Continues tombstone now
unfolding calls
run-Continues_example =
    run-Continues env (change ∷ remove ∷ []) (run env (write ∷ change ∷ remove ∷ []) empty_db) "m1"
      tombstone refl

run-IsLive_example : All IsLive (run env (write ∷ change ∷ remove ∷ []) empty_db).messages
run-IsLive_example = run-IsLive env (write ∷ change ∷ remove ∷ [])

run-IsBodyOf_example :
    (body : Body) × (parse_body tombstone.content
        (column tombstone.deleted_at)
        (column tombstone.edited_at)
      ≡ ok body)
    × IsBodyOf tombstone body
unfolding calls
run-IsBodyOf_example = run-IsBodyOf env (write ∷ change ∷ remove ∷ []) "m1" tombstone refl

execute_send_message-retry_example :
    IsAnsweredAgain env hello_message
      (send_in env
        (run env (change ∷ []) (step env write empty_db))
        hello
        "m2"
        400
        (run env (change ∷ []) (step env write empty_db))).0
    × ((send_in env
          (run env (change ∷ []) (step env write empty_db))
          hello
          "m2"
          400
          (run env (change ∷ []) (step env write empty_db))).1
        ≡ run env (change ∷ []) (step env write empty_db))
unfolding calls
execute_send_message-retry_example =
    execute_send_message-retry env [] (change ∷ []) empty_db hello "m1" 100 hello_message "m2" 400
      refl
