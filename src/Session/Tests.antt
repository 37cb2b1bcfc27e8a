-- ===== src/Session/Tests.antt =====
-- A session of the channel "general" with the cursor 3: a page brings the message 4.
use wake_surfer.Common.{ℕ, ◌≡◌, refl, String, true, false, [], ◌∷◌, Option, none, some, ok, err}
use wake_surfer.Values.{Value, whole}
use wake_surfer.Common.Dict.{get, put, remove, add, discard, has, text_key}
use wake_surfer.Contract.{
  MessageTarget, channel, text, get_canonical_stream_id, get_message_target_type,
  get_message_target_id,
}
use wake_surfer.Contract.Responses.{LatestResponse}
use wake_surfer.Timeline.{
  create, has_buffered_gap, stream_messages_client_targets_equal, restore_cursor, assert_stream,
  assert_message_target, assert_identity, register_record, remove_buffered, set_history,
  messages_equal,
}
use wake_surfer.Timeline.Insert.{
  replace_known, insertion_index, show_record, insert_loaded_message, keep_aside, buffer_message,
  drain_loop, drain_contiguous_buffer, discard_each, discard_buffered_at_or_before_cursor,
}
use wake_surfer.Timeline.Apply.{
  set_cursor, apply_live, apply_accepted, insert_history_message, insert_history_messages,
  apply_latest, apply_older, apply_sync,
}
use wake_surfer.Timeline.Runs.{restore, run}
use wake_surfer.Session.{
  RecoveryState, StoredCursor, is_stored_cursor, to_value, TransportErrorCode, transport_error,
  type_error, load, save,
}
use wake_surfer.Session.Recovery.{
  RecoveryPhase, SessionState, Reply, answered, failed, Wait, Round, empty_batch,
}
use wake_surfer.Session.Bootstrap.{
  persist_cursor, apply_page, recover_round, recover_rounds, recover_after_cursor, run_bootstrap,
}
use wake_surfer.Session.Stored.{is_valid, load-save}
use wake_surfer.Session.Saved.{IsReady}
use wake_surfer.Session.Ready.{recover_rounds-IsReady}

sessions : Unit {0}
unfolding get put remove add discard has get_canonical_stream_id get_message_target_type
    get_message_target_id stream_messages_client_targets_equal restore_cursor assert_stream
    assert_message_target assert_identity register_record remove_buffered set_history messages_equal
    replace_known insertion_index show_record insert_loaded_message keep_aside buffer_message
    drain_loop drain_contiguous_buffer discard_each discard_buffered_at_or_before_cursor set_cursor
    apply_live apply_accepted insert_history_message insert_history_messages apply_latest
    apply_older apply_sync run has_buffered_gap is_stored_cursor load save persist_cursor apply_page
    recover_round recover_rounds recover_after_cursor run_bootstrap
sessions = tt

abbrev stored : StoredCursor
stored = record {
  delivery_sync_cursor = 4;
  through_sequence = some 9;
  recovery_state = RecoveryState.recovery_pending;
}

abbrev stringify : Value → String
stringify v = "c"

abbrev parse : String → Option Value
parse raw = some (to_value stored)

abbrev no_dates : String → Option ℕ
no_dates t = none

abbrev general : MessageTarget
general = channel "general"

abbrev before : SessionState
before = record {
  timeline = run no_dates (restore (whole 3) ∷ []) (create general);
  phase = RecoveryPhase.idle;
  through_sequence = none;
  cell = none;
}

abbrev round : Round
round = record {
  page = record {
    arrivals = [];
    reply = answered (whole 100) (record {
      stream = "channel:general";
      after_sequence = 3;
      through_sequence = 4;
      messages =
          record {
            message_id = "m4";
            stream_id = "channel:general";
            sequence = 4;
            sender_actor_id = "ann";
            target = general;
            created_at = "2026-01-01T00:00:00.000Z";
            sent_at_client = none;
            content = text "hello" none;
          }
          ∷ [];
      next_after_sequence = 4;
      has_more_after = false;
    });
    aborted = false;
  };
  pause = record { arrivals = []; reply = none; aborted = false };
}

load-save_example :
    (is_valid stored ≡ true
      → ((save stringify parse stored none).0 ≡ ok tt)
        × (load stringify parse (save stringify parse stored none).1 ≡ (some stored, some "c")))
    × (is_valid stored ≡ false → save stringify parse stored none ≡ (err type_error, none))
load-save_example = load-save stringify parse stored none refl

recover_rounds-IsReady_example :
    IsReady stringify parse no_dates
      (recover_rounds stringify parse no_dates false empty_batch (round ∷ []) before).1
unfolding sessions
recover_rounds-IsReady_example =
    recover_rounds-IsReady stringify parse no_dates false empty_batch (round ∷ []) before refl

-- The latest page cannot be loaded: the transport says that it may be tried again.
abbrev lost : Wait (Reply LatestResponse)
lost = record {
  arrivals = [];
  reply = failed (
      transport_error
        (record { code = TransportErrorCode.timeout; retry_after_ms = none; retryable = true }));
  aborted = false;
}
