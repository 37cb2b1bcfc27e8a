-- ===== src/Streams/Tests.antt =====
-- Queries of a small database, and the theorems on queries applied to them.
use wake_surfer.Common.{
  ℕ, ◌+◌, ◌-◌, ◌≡◌, refl, true, false, [], ◌∷◌, map, none, some, range_from, reverse, take, str_eq,
  ok, err, trim, ◌==◌, if◌then◌else◌,
}
use wake_surfer.Values.{whole, Value, null, number, string, date, object, end, field}
use wake_surfer.Contract.{channel, thread}
use wake_surfer.Streams.{
  type_error, data_integrity, sequence_gap, text, deleted, StreamMessage, success, failure,
  stream_unavailable, invalid_cursor, Authorizer, allowed, denied, RawStreamMessageRow,
  RawStreamMetadataRow, assert_actor_id, assert_stream_messages_target, assert_before_sequence,
  assert_after_sequence, assert_through_sequence, assert_query_page_size,
  authorize_message_stream_read, get_canonical_stream_messages_id,
}
use wake_surfer.Streams.Rows.{
  parse_rows, parse_stream_message_row, parse_message_stream_metadata, parse_non_blank_string,
  parse_positive_safe_integer, parse_date, parse_body, parse_text_body, parse_edited_at,
  parse_persisted_text_message_content,
}
use wake_surfer.Streams.Window.{assert_expected_sequence_window}
use wake_surfer.Streams.Window.Range.{assert_expected_sequence_window_iff}
use wake_surfer.Streams.Reads.{
  ReadDb, ThreadRow, check_older_rows, check_rows_after, check_latest_rows, read_older_rows,
  read_older_of, read_older_messages, read_rows_after, read_after_of, read_messages_after,
  read_latest_of, read_latest_messages_snapshot, resolve_message_stream_read_target,
  latest_query_row_limit,
}
use wake_surfer.Streams.Pages.{HasHead}
use wake_surfer.Streams.Outcomes.{IsLatestPage}
use wake_surfer.Streams.Rows.Stored.{AreStored}
use wake_surfer.Streams.Queries.{
  HasOrigin, load_latest_messages-IsLatestPage, load_older_messages-IsOlderPage,
  sync_after_messages-IsSyncPage,
}
use wake_surfer.Streams.Queries.Stored.{
  load_latest_messages-AreStored, load_older_messages-AreStored, sync_after_messages-AreStored,
}
use wake_surfer.Streams.Queries.Denied.{queries_hide_messages}
use wake_surfer.Streams.Usecases.{
  LatestMessagesPage, OlderMessagesPage, SyncAfterMessagesPage, load_latest_messages,
  load_latest_of, load_older_messages, load_older_of, sync_after_messages, sync_after_of,
  read_authorized, create_load_latest_messages_success, create_load_older_messages_success,
  create_sync_after_messages_success,
}

queries : Unit {0}
unfolding trim assert_actor_id assert_stream_messages_target assert_before_sequence
    assert_after_sequence assert_through_sequence assert_query_page_size
    authorize_message_stream_read get_canonical_stream_messages_id parse_rows
    parse_stream_message_row parse_message_stream_metadata parse_non_blank_string
    parse_positive_safe_integer parse_date parse_body parse_text_body parse_edited_at
    parse_persisted_text_message_content assert_expected_sequence_window check_older_rows
    check_rows_after check_latest_rows read_older_rows read_older_of read_older_messages
    read_rows_after read_after_of read_messages_after read_latest_of read_latest_messages_snapshot
    resolve_message_stream_read_target load_latest_messages load_latest_of load_older_messages
    load_older_of sync_after_messages sync_after_of read_authorized
    create_load_latest_messages_success create_load_older_messages_success
    create_sync_after_messages_success
queries = tt

abbrev content : Value
content = object (
    field "schemaVersion" (number (whole 1))
      (field "kind" (string "text") (field "text" (string "hi") end)))

-- Message 2 of the channel is a tombstone.
abbrev stored_row : ℕ → RawStreamMessageRow
stored_row n = record {
  message_id = string "m";
  stream_id = string "channel:general";
  sequence = number (whole n);
  sender_actor_id = string "alice";
  target_type = string "channel";
  target_id = string "general";
  content = if n == 2 then null else content;
  created_at = date (some 1000);
  deleted_at = if n == 2 then date (some 2000) else null;
  edited_at = null;
}

abbrev metadata : RawStreamMetadataRow
metadata = record {
  target_type = string "channel";
  target_id = string "general";
  head_sequence = number (whole 3);
}

abbrev thread_origin : ThreadRow
thread_origin = record {
  thread_target_type = string "thread";
  thread_target_id = string "root";
  root_message_id = string "root";
  parent_target_type = string "channel";
  parent_target_id = string "general";
}

-- A channel of three messages, and a thread whose root stands in it.
abbrev small_db : ReadDb
small_db = record {
  stream_row = λ id. if str_eq id "channel:general" then some metadata else none;
  thread_row = λ id. if str_eq id "thread:root" then some thread_origin else none;
  latest_rows = λ id head limit. map stored_row (reverse (range_from 1 head));
  older_rows = λ id before limit. take limit (map stored_row (reverse (range_from 1 (before - 1))));
  rows_after = λ id after through limit.
      take limit (map stored_row (range_from (after + 1) (through - after)));
}

abbrev permit : Authorizer
permit actor target = allowed

abbrev refuse : Authorizer
refuse actor target = denied

abbrev message : ℕ → StreamMessage
message n = record {
  message_id = "m";
  sequence = n;
  sender_actor_id = "alice";
  target = channel "general";
  created_at = 1000;
  sent_at_client = none;
  body = if n == 2 then deleted 2000 else text "hi" none;
}

abbrev older_page : OlderMessagesPage
older_page = record {
  before_sequence = 4;
  messages = message 2 ∷ message 3 ∷ [];
  next_before_sequence = some 2;
  has_more_before = true;
}

abbrev latest_page : LatestMessagesPage
latest_page = record {
  through_sequence = 3;
  messages = message 1 ∷ message 2 ∷ message 3 ∷ [];
  next_before_sequence = some 1;
  has_more_before = false;
}

abbrev sync_page : SyncAfterMessagesPage
sync_page = record {
  after_sequence = 1;
  through_sequence = 3;
  messages = message 2 ∷ [];
  next_after_sequence = 2;
  has_more_after = true;
}

older_answer :
    load_older_messages small_db permit "bob" (channel "general") (whole 4) (whole 2)
    ≡ ok (success older_page)
unfolding queries
older_answer = refl

latest_answer :
    load_latest_messages small_db permit "bob" (channel "general") ≡ ok (success latest_page)
unfolding queries
latest_answer = refl

sync_answer :
    sync_after_messages small_db permit "bob" (channel "general") (whole 1) none (whole 1)
    ≡ ok (success sync_page)
unfolding queries
sync_answer = refl

other_answers :
    (load_latest_messages small_db refuse "bob" (channel "general")
      ≡ ok (failure stream_unavailable))
    × (load_latest_messages small_db permit "bob" (thread "none") ≡ ok (failure stream_unavailable))
    × (load_older_messages small_db permit "bob" (channel "general") (whole 5) (whole 2)
        ≡ ok (failure invalid_cursor))
    × (load_older_messages small_db permit "bob" (channel "general") (whole 4) (whole 101)
        ≡ err type_error)
    × (load_latest_messages small_db permit " bob" (channel "general") ≡ err type_error)
    × (load_latest_messages small_db permit "bob" (channel "other")
        ≡ ok (
            success (record {
              through_sequence = 0;
              messages = [];
              next_before_sequence = none;
              has_more_before = false;
            })))
unfolding queries
other_answers = (refl, refl, refl, refl, refl, refl)

-- A gap in the stored messages is an error, and never an incomplete page.
abbrev gap_db : ReadDb
gap_db = record small_db { latest_rows = λ id head limit. map stored_row (3 ∷ 1 ∷ []) }

gap_answer :
    load_latest_messages gap_db permit "bob" (channel "general") ≡ err (data_integrity sequence_gap)
unfolding queries
gap_answer = refl

load_latest_messages-IsLatestPage_example :
    (head : ℕ) × HasHead small_db
      (get_canonical_stream_messages_id (channel "general"))
      (channel "general")
      head
    × IsLatestPage head latest_page
load_latest_messages-IsLatestPage_example =
    (load_latest_messages-IsLatestPage small_db permit "bob" (channel "general") latest_page
      latest_answer).1

load_older_messages-IsOlderPage_example : HasOrigin small_db permit "bob" (channel "general")
load_older_messages-IsOlderPage_example =
    (load_older_messages-IsOlderPage small_db permit "bob" (channel "general") (whole 4) (whole 2)
      older_page older_answer).0

sync_after_messages-IsSyncPage_example : HasOrigin small_db permit "bob" (channel "general")
sync_after_messages-IsSyncPage_example =
    (sync_after_messages-IsSyncPage small_db permit "bob" (channel "general") (whole 1) none
      (whole 1) sync_page sync_answer).0

load_latest_messages-AreStored_example :
    AreStored
      (channel "general")
      (small_db.latest_rows
        (get_canonical_stream_messages_id (channel "general"))
        latest_page.through_sequence
        latest_query_row_limit)
      latest_page.messages
load_latest_messages-AreStored_example =
    load_latest_messages-AreStored small_db permit "bob" (channel "general") latest_page
      latest_answer

load_older_messages-AreStored_example :
    (b : ℕ) × (l : ℕ) × (whole 4 ≡ whole b)
    × (whole 2 ≡ whole l)
    × AreStored
        (channel "general")
        (small_db.older_rows (get_canonical_stream_messages_id (channel "general")) b (l + 1))
        older_page.messages
load_older_messages-AreStored_example =
    load_older_messages-AreStored small_db permit "bob" (channel "general") (whole 4) (whole 2)
      older_page older_answer

sync_after_messages-AreStored_example :
    (n : ℕ) × (l : ℕ) × (whole 1 ≡ whole n)
    × (whole 1 ≡ whole l)
    × AreStored
        (channel "general")
        (small_db.rows_after
          (get_canonical_stream_messages_id (channel "general"))
          n
          sync_page.through_sequence
          (l + 1))
        sync_page.messages
sync_after_messages-AreStored_example =
    sync_after_messages-AreStored small_db permit "bob" (channel "general") (whole 1) none (whole 1)
      sync_page sync_answer

queries_hide_messages_example :
    load_latest_messages small_db refuse "bob" (channel "general")
    ≡ load_latest_messages gap_db refuse "bob" (channel "general")
queries_hide_messages_example =
    (queries_hide_messages refuse "bob" (λ target. refl) small_db gap_db refl (channel "general")).0

assert_expected_sequence_window_iff_example :
    assert_expected_sequence_window (message 2 ∷ message 3 ∷ []) 2 3 ≡ ok tt
assert_expected_sequence_window_iff_example =
    (assert_expected_sequence_window_iff (message 2 ∷ message 3 ∷ []) 2 3).1 refl
