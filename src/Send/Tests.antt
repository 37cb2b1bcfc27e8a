-- ===== src/Send/Tests.antt =====
-- The theorems on sending at a concrete message.
use wake_surfer.Common.{
  has_nul, ◌≡◌, ◌≢◌, ◌≤◌, ◌↔◌, ◌⊎◌, refl, false, some, ok, trim, is_white, is_empty, len, arith,
}
use wake_surfer.Values.{value_has_nul, fields_have_nul}
use wake_surfer.Contract.{
  channel, get_canonical_stream_id, get_message_target_type, get_message_target_id,
}
use wake_surfer.Store.{
  Db, empty_db, find_stream, find_stream_of_target, find_message, has_sequence, find_receipt,
  has_result, insert_stream, advance_rows, insert_message, insert_receipt,
}
use wake_surfer.Store.Consistent.{sequences_of}
use wake_surfer.Send.{
  assert_non_blank_string, assert_idempotency_key, assert_send_message_target,
  get_send_message_target_type, get_send_message_target_id, get_send_message_stream_id,
  normalize_message_text, create_send_request_fingerprint, same_bytes,
  matches_send_request_fingerprint, parse_send_request_fingerprint, fingerprint_of,
}
use wake_surfer.Send.Content.{
  max_text_message_utf8_bytes, persisted_content, parse_persisted_text_message_content,
  create_persisted_text_message_content,
}
use wake_surfer.Send.Stored.{
  normalize_message_text-create, parse-create, parse_persisted_text_message_content-agree, read_as,
}
use wake_surfer.Send.Append.{
  AppendedTextMessage, row_to_appended_text_message, row_to_current_appended_text_message,
  row_to_stored_send_message_receipt, find_send_message_receipt, ensure_message_stream,
  advance_sequence_for_target, write_message, append_to_stream, append_new, append_text_message,
}
use wake_surfer.Send.Execute.{
  accepted, newly, result_for_existing_receipt, result_for_append, send_authorized, send_resolved,
  send_normalized, execute_send_message,
}
use wake_surfer.Send.Results.{IsRefused, IsSent, execute_send_message-Sent}
use wake_surfer.Send.Idempotent.{execute_send_message-known_key}
use wake_surfer.Send.Accepted.{IsWritten, execute_send_message-accepted}
use wake_surfer.Send.Fixture.{
  stringify, sha256, resolve_target, authorize_write, hello, hello_message,
}
use wake_surfer.Streams.Rows

sends : Unit {0}
unfolding trim is_white has_nul value_has_nul fields_have_nul get_canonical_stream_id
    get_message_target_type get_message_target_id find_stream find_stream_of_target find_message
    has_sequence find_receipt has_result insert_stream advance_rows insert_message insert_receipt
    assert_non_blank_string assert_idempotency_key assert_send_message_target
    get_send_message_target_type get_send_message_target_id get_send_message_stream_id
    normalize_message_text create_send_request_fingerprint same_bytes
    matches_send_request_fingerprint parse_send_request_fingerprint
    parse_persisted_text_message_content create_persisted_text_message_content
    row_to_appended_text_message row_to_current_appended_text_message
    row_to_stored_send_message_receipt find_send_message_receipt ensure_message_stream
    advance_sequence_for_target write_message append_to_stream append_new append_text_message
    result_for_existing_receipt result_for_append send_authorized send_resolved send_normalized
    execute_send_message sequences_of
sends = tt

execute_send_message_new :
    (execute_send_message stringify sha256 resolve_target authorize_write empty_db hello "m1" 100
      empty_db).0
    ≡ ok (accepted newly hello_message)
unfolding sends
execute_send_message_new = refl

abbrev sent_db : Db
sent_db =
    (execute_send_message stringify sha256 resolve_target authorize_write empty_db hello "m1" 100
      empty_db).1

execute_send_message-Sent_example :
    IsRefused empty_db
      (execute_send_message stringify sha256 resolve_target authorize_write empty_db hello "m1" 100
        empty_db).0
      (execute_send_message stringify sha256 resolve_target authorize_write empty_db hello "m1" 100
        empty_db).1
    ⊎ IsSent stringify sha256 resolve_target authorize_write hello "m1" 100 empty_db
        (execute_send_message stringify sha256 resolve_target authorize_write empty_db hello "m1"
          100 empty_db).0
        (execute_send_message stringify sha256 resolve_target authorize_write empty_db hello "m1"
          100 empty_db).1
execute_send_message-Sent_example =
    execute_send_message-Sent stringify sha256 resolve_target authorize_write empty_db hello "m1"
      100 empty_db

execute_send_message-known_key_example :
    ((execute_send_message stringify sha256 resolve_target authorize_write empty_db hello "m2" 200
        sent_db).1
      ≡ sent_db)
    × ((m : AppendedTextMessage)
        → (execute_send_message stringify sha256 resolve_target authorize_write empty_db hello "m2"
            200 sent_db).0
          ≢ ok (accepted newly m))
unfolding sends
execute_send_message-known_key_example =
    execute_send_message-known_key stringify sha256 resolve_target authorize_write empty_db hello
      "m2" 200 sent_db
      (record {
        sender_actor_id = "ann";
        idempotency_key = "k1";
        fingerprint = fingerprint_of stringify sha256 (channel "c") (persisted_content "hi");
        result_message_id = "m1";
      })
      refl

execute_send_message-accepted_example :
    ((execute_send_message stringify sha256 resolve_target authorize_write empty_db hello "m1" 100
        empty_db).0
      ≡ ok (accepted newly hello_message))
    × IsWritten stringify sha256 resolve_target authorize_write hello "m1" "hi" 100 empty_db
        (execute_send_message stringify sha256 resolve_target authorize_write empty_db hello "m1"
          100 empty_db).1
unfolding sends
execute_send_message-accepted_example =
    execute_send_message-accepted stringify sha256 resolve_target authorize_write empty_db hello
      "m1" 100 empty_db "hi" refl refl refl refl refl refl refl refl (refl, refl, refl, refl) refl
      (λ s. refl) refl refl refl refl (λ id. refl) (omega arith)

normalize_message_text-create_example :
    ((normalize_message_text " hi " ≡ some "hi") ↔ (
      (trim " hi " ≡ "hi")
      × (create_persisted_text_message_content "hi" ≡ ok (persisted_content "hi"))))
    × (normalize_message_text " hi " ≡ some "hi"
        → (trim "hi" ≡ "hi") × (is_empty "hi" ≡ false) × (len "hi" ≤ max_text_message_utf8_bytes))
normalize_message_text-create_example = normalize_message_text-create " hi " "hi"

parse-create_example :
    (parse_persisted_text_message_content (persisted_content "hi") ≡ ok "hi")
    × (Rows.parse_persisted_text_message_content (persisted_content "hi")
        ≡ some (record { schema_version = 1; kind = "text"; text = "hi" }))
unfolding sends
parse-create_example = parse-create "hi" refl

parse_persisted_text_message_content-agree_example :
    Rows.parse_persisted_text_message_content (persisted_content "hi")
    ≡ read_as (parse_persisted_text_message_content (persisted_content "hi"))
parse_persisted_text_message_content-agree_example =
    parse_persisted_text_message_content-agree (persisted_content "hi")
