-- ===== src/Streams/Pages.antt =====
-- The sequence numbers of what the database reads return.
use wake_surfer.Common.{
  ℕ, ◌+◌, ◌-◌, min, max, take, take_last, ◌≤◌, ◌<◌, ◌≡◌, ◌⊎◌, refl, ap, ◌∙◌, sym, String, List, [],
  Option, arith, range_from, reverse, ok, >>=-eq-ok, inl, inr,
}
use wake_surfer.Contract.{MessageTarget}
use wake_surfer.Streams.{
  StreamMessage, success, MessageStreamMetadata, missing, found, head_sequence,
}
use wake_surfer.Streams.Rows.{parse_message_stream_metadata, parse_rows}
use wake_surfer.Streams.Window.{assert_expected_sequence_window}
use wake_surfer.Streams.Window.Range.{
  sequences, assert_expected_sequence_window_iff, range_eq, sequences-take_last, sequences-take,
}
use wake_surfer.Streams.Reads.{
  ReadDb, latest_query_row_limit, check_older_rows, check_rows_after, check_latest_rows,
  read_older_rows, read_older_of, read_older_messages, read_rows_after, read_after_of,
  read_messages_after, read_latest_of, SyncAfterMessagesSnapshot, LatestMessagesSnapshot,
  read_latest_messages_snapshot, through_or,
}

check_older_rows-range :
    (rows ms : List StreamMessage) (before limit : ℕ)
    → 0 < before
    → check_older_rows rows before limit ≡ ok ms
    → sequences ms ≡ range_from (before - min (before - 1) limit) (min (before - 1) limit)
unfolding check_older_rows
check_older_rows-range rows ms before limit pos h =
    let n : ℕ = min (before - 1) (limit + 1) in
    let window : assert_expected_sequence_window (reverse rows) (before - n) (before - 1) ≡ ok tt =
      ground arith in
    let page : take_last limit (reverse rows) ≡ ms = ground arith in
    ap sequences (sym page)
    ∙ sequences-take_last limit _ _ (reverse rows)
        ((assert_expected_sequence_window_iff (reverse rows) (before - n) (before - 1)).0 window)
    ∙ range_eq (omega arith) (omega arith)

check_rows_after-range :
    (rows ms : List StreamMessage) (after through limit : ℕ)
    → check_rows_after rows after through limit ≡ ok ms
    → sequences ms ≡ range_from (after + 1) (min (through - after) limit)
unfolding check_rows_after
check_rows_after-range rows ms after through limit h =
    let n : ℕ = min (through - after) (limit + 1) in
    let window : assert_expected_sequence_window rows (after + 1) (after + n) ≡ ok tt =
      ground arith in
    let page : take limit rows ≡ ms = ground arith in
    ap sequences (sym page)
    ∙ sequences-take limit _ _ rows
        ((assert_expected_sequence_window_iff rows (after + 1) (after + n)).0 window)
    ∙ range_eq refl (omega arith)

check_latest_rows-range :
    (rows : List StreamMessage) (head : ℕ) (snapshot : LatestMessagesSnapshot)
    → check_latest_rows rows head ≡ ok snapshot
    → (snapshot.head ≡ head)
      × (sequences snapshot.messages ≡ range_from (head + 1 - min head 5) (min head 5))
unfolding check_latest_rows
check_latest_rows-range rows head snapshot h =
    let window : assert_expected_sequence_window (reverse rows) (max 1 (head + 1 - 6)) head
        ≡ ok tt =
      ground arith in
    let page : take_last 5 (reverse rows) ≡ snapshot.messages = ground arith in
    (
      ground arith,
      ap sequences (sym page)
          ∙ sequences-take_last 5 _ _ (reverse rows) (
              (assert_expected_sequence_window_iff (reverse rows) (max 1 (head + 1 - 6)) head).0
                window)
          ∙ range_eq (omega arith) (omega arith),
    )

-- A page of no messages, where the window is empty.
empty_page : (k n : ℕ) (ms : List StreamMessage) → ms ≡ [] → n ≡ 0 → sequences ms ≡ range_from k n
empty_page k n ms p q = rw (p, q)

-- The head of a stream, as its row tells it: 0 if there is no row.
abbrev pub HasHead : ReadDb → (stream_id : String) → MessageTarget → ℕ → Type 0
HasHead db stream_id target head =
    (stream : MessageStreamMetadata) × (parse_message_stream_metadata (db.stream_row stream_id)
        target
      ≡ ok stream)
    × (head_sequence stream ≡ head)

module _ (db : ReadDb) (stream_id : String) (target : MessageTarget) where
  read_older_rows-range :
      (before limit : ℕ) (ms : List StreamMessage)
      → 0 < before
      → read_older_rows db stream_id target before limit ≡ ok ms
      → sequences ms ≡ range_from (before - min (before - 1) limit) (min (before - 1) limit)
  unfolding read_older_rows
  read_older_rows-range before limit ms pos h =
      let (rows, parsed, checked) =
        >>=-eq-ok (parse_rows (db.older_rows stream_id before (limit + 1)) stream_id target)
          (λ rows. check_older_rows rows before limit) h in
      check_older_rows-range rows ms before limit pos checked

  older_cases :
      (before limit : ℕ) (stream : MessageStreamMetadata) (ms : List StreamMessage)
      → 0 < before
      → read_older_of db stream_id target before limit stream ≡ ok (success ms)
      → ((before ≡ 1) × (ms ≡ [])) ⊎ (read_older_rows db stream_id target before limit ≡ ok ms)
  unfolding read_older_of
  older_cases before limit missing ms pos h = ground arith
  older_cases before limit (found head) ms pos h = ground arith

  read_older_of-range :
      (before limit : ℕ) (stream : MessageStreamMetadata) (ms : List StreamMessage)
      → 0 < before
      → read_older_of db stream_id target before limit stream ≡ ok (success ms)
      → sequences ms ≡ range_from (before - min (before - 1) limit) (min (before - 1) limit)
  read_older_of-range before limit stream ms pos h =
      elim (older_cases before limit stream ms pos h) [
        | inl (one, none_left) ↦ empty_page _ _ ms none_left (omega arith)
        | inr read ↦ read_older_rows-range before limit ms pos read
      ]

  older_below :
      (before limit : ℕ) (stream : MessageStreamMetadata) (ms : List StreamMessage)
      → read_older_of db stream_id target before limit stream ≡ ok (success ms)
      → before ≤ head_sequence stream + 1
  unfolding read_older_of
  older_below before limit stream ms h = ground arith

  -- A page of older messages is the window of numbers right before the cursor.
  pub read_older_messages-range :
      (before limit : ℕ) (ms : List StreamMessage)
      → 0 < before
      → read_older_messages db stream_id target before limit ≡ ok (success ms)
      → (head : ℕ) × HasHead db stream_id target head
        × (before ≤ head + 1)
        × (sequences ms ≡ range_from (before - min (before - 1) limit) (min (before - 1) limit))
  unfolding read_older_messages
  read_older_messages-range before limit ms pos h =
      let (stream, parsed, read) =
        >>=-eq-ok (parse_message_stream_metadata (db.stream_row stream_id) target)
          (read_older_of db stream_id target before limit) h in
      (
        head_sequence stream,
        (stream, parsed, refl),
        older_below before limit stream ms read,
        read_older_of-range before limit stream ms pos read,
      )

  read_rows_after-range :
      (after through limit : ℕ) (ms : List StreamMessage)
      → read_rows_after db stream_id target after through limit ≡ ok ms
      → sequences ms ≡ range_from (after + 1) (min (through - after) limit)
  unfolding read_rows_after
  read_rows_after-range after through limit ms h =
      let (rows, parsed, checked) =
        >>=-eq-ok (parse_rows (db.rows_after stream_id after through (limit + 1)) stream_id target)
          (λ rows. check_rows_after rows after through limit) h in
      check_rows_after-range rows ms after through limit checked

  after_cases :
      (after through limit : ℕ) (stream : MessageStreamMetadata) (s : SyncAfterMessagesSnapshot)
      → read_after_of db stream_id target after through limit stream ≡ ok (success s)
      → (s.through ≡ through)
        × (after ≤ through)
        × (through ≤ head_sequence stream)
        × (((after ≡ through) × (s.messages ≡ []))
            ⊎ (read_rows_after db stream_id target after through limit ≡ ok s.messages))
  unfolding read_after_of
  after_cases after through limit missing s h = ground arith
  after_cases after through limit (found head) s h = ground arith

  read_after_of-range :
      (after through limit : ℕ) (stream : MessageStreamMetadata) (s : SyncAfterMessagesSnapshot)
      → read_after_of db stream_id target after through limit stream ≡ ok (success s)
      → sequences s.messages ≡ range_from (after + 1) (min (through - after) limit)
  read_after_of-range after through limit stream s h =
      elim ((after_cases after through limit stream s h).3) [
        | inl (same, none_left) ↦ empty_page _ _ s.messages none_left (omega arith)
        | inr read ↦ read_rows_after-range after through limit s.messages read
      ]

  -- A page of newer messages is the window of numbers right after the cursor, up to the head that
  -- was asked for or, if none was, the head of the stream.
  pub read_messages_after-range :
      (after : ℕ) (through : Option ℕ) (limit : ℕ) (s : SyncAfterMessagesSnapshot)
      → read_messages_after db stream_id target after through limit ≡ ok (success s)
      → (head : ℕ) × HasHead db stream_id target head
        × (s.through ≡ through_or through head)
        × (after ≤ s.through)
        × (s.through ≤ head)
        × (sequences s.messages ≡ range_from (after + 1) (min (s.through - after) limit))
  unfolding read_messages_after
  read_messages_after-range after through limit s h =
      let (stream, parsed, read) =
        >>=-eq-ok (parse_message_stream_metadata (db.stream_row stream_id) target)
          (λ stream.
            read_after_of db stream_id target after (through_or through (head_sequence stream))
              limit stream)
          h in
      let t : ℕ = through_or through (head_sequence stream) in
      let cases = after_cases after t limit stream s read in
      let range = read_after_of-range after t limit stream s read in
      (
        head_sequence stream,
        (stream, parsed, refl),
        cases.0,
        omega (arith, cases.0, cases.1),
        omega (arith, cases.0, cases.2),
        rw (cases.0) range,
      )

  read_latest_of-range :
      (stream : MessageStreamMetadata) (s : LatestMessagesSnapshot)
      → read_latest_of db stream_id target stream ≡ ok s
      → (s.head ≡ head_sequence stream)
        × (sequences s.messages ≡ range_from (s.head + 1 - min s.head 5) (min s.head 5))
  unfolding read_latest_of
  read_latest_of-range missing s h =
      let start : s.head ≡ 0 = ground arith in
      (start, empty_page _ _ s.messages (ground arith) (omega arith))
  read_latest_of-range (found head) s h =
      let (rows, parsed, checked) =
        >>=-eq-ok
          (parse_rows (db.latest_rows stream_id head latest_query_row_limit) stream_id target)
          (λ rows. check_latest_rows rows head) h in
      let (same, range) = check_latest_rows-range rows head s checked in (same, rw same range)

  -- The latest page is the window of at most five numbers that ends at the stream's head.
  pub read_latest_messages_snapshot-range :
      (s : LatestMessagesSnapshot)
      → read_latest_messages_snapshot db stream_id target ≡ ok s
      → HasHead db stream_id target s.head
        × (sequences s.messages ≡ range_from (s.head + 1 - min s.head 5) (min s.head 5))
  unfolding read_latest_messages_snapshot
  read_latest_messages_snapshot-range s h =
      let (stream, parsed, read) =
        >>=-eq-ok (parse_message_stream_metadata (db.stream_row stream_id) target)
          (read_latest_of db stream_id target) h in
      let (same, range) = read_latest_of-range stream s read in ((stream, parsed, sym same), range)
