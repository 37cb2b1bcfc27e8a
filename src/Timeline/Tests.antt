-- ===== src/Timeline/Tests.antt =====
-- A model with a page of one message, and notifications that arrive out of order.
use wake_surfer.Common.{
  ℕ, ◌+◌, ◌≡◌, ◌≢◌, refl, String, true, false, List, [], ◌∷◌, map, All, Option, none, some, arith,
  ok, err,
}
use wake_surfer.Common.Dict.{get, put, remove, add, discard, has, text_key}
use wake_surfer.Contract.{
  MessageTarget, PublicMessage, channel, text, deleted, is_deleted_public_message,
  get_canonical_stream_id, get_message_target_type, get_message_target_id,
}
use wake_surfer.Contract.Responses.{LatestResponse}
use wake_surfer.Timeline.{
  Timeline, message_identity_conflict, messages, stream_messages_client_targets_equal,
  restore_cursor, assert_stream, assert_message_target, assert_identity, register_record,
  remove_buffered, set_history, messages_equal,
}
use wake_surfer.Timeline.Insert.{
  replace_known, insertion_index, show_record, insert_loaded_message, keep_aside, buffer_message,
  drain_loop, drain_contiguous_buffer, discard_each, discard_buffered_at_or_before_cursor,
}
use wake_surfer.Timeline.Apply.{
  set_cursor, apply_live, apply_accepted, insert_history_message, insert_history_messages,
  apply_latest, apply_older, apply_sync,
}
use wake_surfer.Timeline.Consistent.{IsOurs}
use wake_surfer.Timeline.Order.{Ascending}
use wake_surfer.Timeline.Runs.{Call, latest, live, run, reached, run-messages, run-keeps_shown}
use wake_surfer.Timeline.Deleted.{run-keeps_deleted}
use wake_surfer.Timeline.Live.{
  HasCaughtUp, kept_aside, apply_live-HasCaughtUp, apply_live-keeps_gap,
}

methods : Unit {0}
unfolding get put remove add discard has get_canonical_stream_id get_message_target_type
    get_message_target_id stream_messages_client_targets_equal restore_cursor assert_stream
    assert_message_target assert_identity register_record remove_buffered set_history messages_equal
    replace_known insertion_index show_record insert_loaded_message keep_aside buffer_message
    drain_loop drain_contiguous_buffer discard_each discard_buffered_at_or_before_cursor set_cursor
    apply_live apply_accepted insert_history_message insert_history_messages apply_latest
    apply_older apply_sync run
methods = tt

abbrev no_dates : String → Option ℕ
no_dates t = none

abbrev general : MessageTarget
general = channel "general"

abbrev note : String → ℕ → PublicMessage
note id n = record {
  message_id = id;
  stream_id = "channel:general";
  sequence = n;
  sender_actor_id = "ann";
  target = general;
  created_at = "2026-01-01T00:00:00.000Z";
  sent_at_client = none;
  content = text "hello" none;
}

abbrev first_page : LatestResponse
first_page = record {
  stream = "channel:general";
  through_sequence = 1;
  messages = note "a" 1 ∷ [];
  next_before_sequence = some 1;
  has_more_before = false;
}

-- Message 3 comes before message 2.
abbrev early : List Call
early = latest first_page ∷ live (note "c" 3) ∷ []

early_ids : (reached no_dates general early).visible_ids ≡ "a" ∷ []
unfolding methods
early_ids = refl

late_ids :
    (run no_dates (live (note "b" 2) ∷ []) (reached no_dates general early)).visible_ids
    ≡ "a" ∷ "b" ∷ "c" ∷ []
unfolding methods
late_ids = refl

-- A message with the ID of another is refused.
conflict :
    (apply_live (note "a" 5) (reached no_dates general early)).0 ≡ err message_identity_conflict
unfolding methods
conflict = refl

apart : 5 ≢ 1 + 1
apart h = omega arith

run-messages_example :
    (ms : List PublicMessage) × (messages (reached no_dates general early) ≡ map some ms)
    × (map PublicMessage.message_id ms ≡ (reached no_dates general early).visible_ids)
    × Ascending (map PublicMessage.sequence ms)
    × All (IsOurs general) ms
run-messages_example = run-messages no_dates general early

run-keeps_shown_example :
    has "a" (run no_dates (live (note "b" 2) ∷ []) (reached no_dates general early)).visible_ids
    ≡ true
unfolding methods
run-keeps_shown_example = run-keeps_shown no_dates general early (live (note "b" 2) ∷ []) "a" refl

apply_live-HasCaughtUp_example :
    (u : Timeline) × (apply_live (note "b" 2) (reached no_dates general early) ≡ (ok tt, u))
    × HasCaughtUp 1 u
unfolding methods
apply_live-HasCaughtUp_example =
    apply_live-HasCaughtUp no_dates general early 1 (note "b" 2) refl ((refl, refl), (refl, refl))
      refl

apply_live-keeps_gap_example :
    (u : Timeline) × (apply_live (note "e" 5) (reached no_dates general early) ≡ (ok tt, u))
    × (u.visible_ids ≡ (reached no_dates general early).visible_ids)
    × (u.delivery_sync_cursor ≡ (reached no_dates general early).delivery_sync_cursor)
    × (u.buffered_by_sequence ≡ kept_aside 1 (note "e" 5) (reached no_dates general early))
unfolding methods
apply_live-keeps_gap_example =
    apply_live-keeps_gap no_dates general early 1 (note "e" 5) refl ((refl, refl), (refl, refl))
      apart

-- Message "a" is deleted when it is read first, and comes again with its text.
abbrev gone : PublicMessage
gone = record (note "a" 1) { content = deleted "2026-01-02T00:00:00.000Z" }

run-keeps_deleted_example :
    get "a"
      (run no_dates (latest first_page ∷ live (note "b" 2) ∷ []) (
        reached no_dates general
          (latest (record first_page { messages = gone ∷ [] }) ∷ []))).records
    ≡ some gone
unfolding methods is_deleted_public_message
run-keeps_deleted_example =
    run-keeps_deleted no_dates "a" gone
      (reached no_dates general (latest (record first_page { messages = gone ∷ [] }) ∷ []))
      (latest first_page ∷ live (note "b" 2) ∷ []) refl refl (refl, (refl, tt))
