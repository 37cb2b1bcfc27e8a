-- ===== src/Streams/Reads.antt =====
-- The *.kysely.ts files: the queries, and what the program does with their answers. The database
-- is a dependency: `ReadDb` is one snapshot of it, seen through the five queries, and nothing at all
-- is assumed of the rows that it returns.
use wake_surfer.Common.{
  ℕ, String, ◌+◌, ◌-◌, min, max, Bool, ◌&&◌, ◌||◌, List, [], Option, none, some, ltb, ◌==◌, take,
  take_last, length, reverse, if◌then◌else◌, Result, ok, err, ◌>>=◌, ◌>>◌, guard,
}
use wake_surfer.Values.{Value, is_string}
use wake_surfer.Contract.{MessageTarget, channel, dm, thread}
use wake_surfer.Streams.{
  Error, data_integrity, stream_target_mismatch, invalid_storage_row, StreamMessage, Outcome,
  success, failure, invalid_cursor, RawStreamMessageRow, RawStreamMetadataRow,
  MessageStreamMetadata, missing, found, head_sequence, max_latest_messages_query_count,
  get_canonical_stream_messages_id,
}
use wake_surfer.Streams.Rows.{parse_message_stream_metadata, parse_rows, parse_non_blank_string}
use wake_surfer.Streams.Window.{assert_expected_sequence_window, throw_sequence_gap}

-- The row of the query that joins a thread with its root message and the stream of that message.
pub record ThreadRow : Type 0 where
  pub thread_target_type : Value
  pub thread_target_id : Value
  pub root_message_id : Value
  pub parent_target_type : Value
  pub parent_target_id : Value

pub record ReadDb : Type 0 where
  -- message_streams where stream_id = …
  pub stream_row : (stream_id : String) → Option RawStreamMetadataRow
  pub thread_row : (stream_id : String) → Option ThreadRow
  -- messages where sequence <= head, newest first
  pub latest_rows : (stream_id : String) (head limit : ℕ) → List RawStreamMessageRow
  -- messages where sequence < before, newest first
  pub older_rows : (stream_id : String) (before limit : ℕ) → List RawStreamMessageRow
  -- messages where after < sequence <= through, oldest first
  pub rows_after : (stream_id : String) (after through limit : ℕ) → List RawStreamMessageRow

pub data ResolvedReadTarget : Type 0 where
  resolved : (stream_id : String) (authorization_target : MessageTarget) → ResolvedReadTarget
  unavailable : ResolvedReadTarget

-- The end of `resolveMessageStreamReadTarget`: the target of the stream that the thread's root
-- message stands in.
abbrev pub parent_target :
    (stream_id : String) (kind : Value) → Option String → Result Error ResolvedReadTarget
parent_target stream_id kind none = err (data_integrity invalid_storage_row)
parent_target stream_id kind (some id) =
    if is_string kind "channel"
    then ok (resolved stream_id (channel id))
    else if is_string kind "dm"
    then ok (resolved stream_id (dm id))
    else err (data_integrity invalid_storage_row)

abbrev pub resolve_thread :
    (stream_id thread_id : String) → Option ThreadRow → Result Error ResolvedReadTarget
resolve_thread stream_id thread_id none = ok unavailable
resolve_thread stream_id thread_id (some row) = do
  guard (is_string row.thread_target_type "thread" && is_string row.thread_target_id thread_id)
      (data_integrity stream_target_mismatch)
  guard (is_string row.root_message_id thread_id) (data_integrity invalid_storage_row)
  parent_target stream_id row.parent_target_type (parse_non_blank_string row.parent_target_id)

unfoldable pub resolve_message_stream_read_target :
    ReadDb → MessageTarget → Result Error ResolvedReadTarget
resolve_message_stream_read_target db (channel id) =
    ok (resolved (get_canonical_stream_messages_id (channel id)) (channel id))
resolve_message_stream_read_target db (dm id) =
    ok (resolved (get_canonical_stream_messages_id (dm id)) (dm id))
resolve_message_stream_read_target db (thread id) =
    let stream_id = get_canonical_stream_messages_id (thread id) in
    resolve_thread stream_id id (db.thread_row stream_id)

pub record LatestMessagesSnapshot : Type 0 where
  pub head : ℕ
  pub messages : List StreamMessage

abbrev pub latest_query_row_limit : ℕ
latest_query_row_limit = max_latest_messages_query_count + 1

unfoldable pub check_latest_rows :
    List StreamMessage → (head : ℕ) → Result Error LatestMessagesSnapshot
check_latest_rows descending head = do
  let messages = reverse descending
  assert_expected_sequence_window messages (max 1 (head + 1 - latest_query_row_limit)) head
  ok (record { head = head; messages = take_last max_latest_messages_query_count messages })

unfoldable pub read_latest_of :
    ReadDb → String → MessageTarget → MessageStreamMetadata → Result Error LatestMessagesSnapshot
read_latest_of db stream_id target missing = ok (record { head = 0; messages = [] })
read_latest_of db stream_id target (found head) = do
  descending ← parse_rows (db.latest_rows stream_id head latest_query_row_limit) stream_id target
  check_latest_rows descending head

unfoldable pub read_latest_messages_snapshot :
    ReadDb → (stream_id : String) → MessageTarget → Result Error LatestMessagesSnapshot
read_latest_messages_snapshot db stream_id target = do
  stream ← parse_message_stream_metadata (db.stream_row stream_id) target
  read_latest_of db stream_id target stream

-- stream.status === "missing"
abbrev pub is_missing : MessageStreamMetadata → Bool
is_missing missing = Bool.true
is_missing (found head) = Bool.false

-- The checks of what the query returned, and the page that is cut from it.
unfoldable pub check_older_rows :
    List StreamMessage → (before limit : ℕ) → Result Error (List StreamMessage)
check_older_rows descending before limit = do
  let expected_count = min (before - 1) (limit + 1)
  (if length descending == expected_count then ok tt else throw_sequence_gap)
  let messages = reverse descending
  assert_expected_sequence_window messages (before - expected_count) (before - 1)
  ok (take_last limit messages)

-- The query and its checks, past the two early returns.
unfoldable pub read_older_rows :
    ReadDb
    → (stream_id : String) → MessageTarget
    → (before limit : ℕ) → Result Error (List StreamMessage)
read_older_rows db stream_id target before limit = do
  descending ← parse_rows (db.older_rows stream_id before (limit + 1)) stream_id target
  check_older_rows descending before limit

-- The part of the transaction that follows the stream's row.
unfoldable pub read_older_of :
    ReadDb
    → (stream_id : String) → MessageTarget
    → (before limit : ℕ) → MessageStreamMetadata
    → Result Error (Outcome (List StreamMessage))
read_older_of db stream_id target before limit stream =
    if ltb (head_sequence stream + 1) before
    then ok (failure invalid_cursor)
    else if is_missing stream || before == 1
    then ok (success [])
    else (do messages ← read_older_rows db stream_id target before limit; ok (success messages))

unfoldable pub read_older_messages :
    ReadDb
    → (stream_id : String) → MessageTarget
    → (before limit : ℕ) → Result Error (Outcome (List StreamMessage))
read_older_messages db stream_id target before limit = do
  stream ← parse_message_stream_metadata (db.stream_row stream_id) target
  read_older_of db stream_id target before limit stream

pub record SyncAfterMessagesSnapshot : Type 0 where
  pub messages : List StreamMessage
  pub through : ℕ

unfoldable pub check_rows_after :
    List StreamMessage → (after through limit : ℕ) → Result Error (List StreamMessage)
check_rows_after messages after through limit = do
  let expected_count = min (through - after) (limit + 1)
  (if length messages == expected_count then ok tt else throw_sequence_gap)
  assert_expected_sequence_window messages (after + 1) (after + expected_count)
  ok (take limit messages)

unfoldable pub read_rows_after :
    ReadDb
    → (stream_id : String) → MessageTarget
    → (after through limit : ℕ) → Result Error (List StreamMessage)
read_rows_after db stream_id target after through limit = do
  messages ← parse_rows (db.rows_after stream_id after through (limit + 1)) stream_id target
  check_rows_after messages after through limit

-- input.throughSequence ?? stream.headSequence
abbrev pub through_or : Option ℕ → ℕ → ℕ
through_or none head = head
through_or (some through) head = through

unfoldable pub read_after_of :
    ReadDb
    → (stream_id : String) → MessageTarget
    → (after through limit : ℕ) → MessageStreamMetadata
    → Result Error (Outcome SyncAfterMessagesSnapshot)
read_after_of db stream_id target after through limit stream =
    if ltb (head_sequence stream) after || (ltb (head_sequence stream) through || ltb through after)
    then ok (failure invalid_cursor)
    else if is_missing stream || after == through
    then ok (success (record { messages = []; through = through }))
    else (do
      messages ← read_rows_after db stream_id target after through limit
      ok (success (record { messages = messages; through = through })))

unfoldable pub read_messages_after :
    ReadDb
    → (stream_id : String) → MessageTarget
    → (after : ℕ) (through : Option ℕ) (limit : ℕ)
    → Result Error (Outcome SyncAfterMessagesSnapshot)
read_messages_after db stream_id target after through limit = do
  stream ← parse_message_stream_metadata (db.stream_row stream_id) target
  read_after_of db stream_id target after (through_or through (head_sequence stream)) limit stream
