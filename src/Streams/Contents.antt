-- ===== src/Streams/Contents.antt =====
-- The messages of a page, and the rows they are made of.
use wake_surfer.Common.{
  ℕ, ◌+◌, ◌-◌, ◌≡◌, ◌⊎◌, inl, inr, subst, String, Option, arith, List, [], All-drop, All-take,
  All-reverse, reverse, length, take, take_last, ok, >>=-eq-ok,
}
use wake_surfer.Contract.{MessageTarget}
use wake_surfer.Streams.{
  StreamMessage, RawStreamMessageRow, success, MessageStreamMetadata, missing, found, head_sequence,
}
use wake_surfer.Streams.Rows.{parse_rows, parse_message_stream_metadata}
use wake_surfer.Streams.Rows.Stored.{AreStored, parse_rows-AreStored}
use wake_surfer.Streams.Reads.{
  ReadDb, check_older_rows, check_rows_after, check_latest_rows, read_older_rows, read_older_of,
  read_older_messages, read_rows_after, read_after_of, read_messages_after, read_latest_of,
  read_latest_messages_snapshot, latest_query_row_limit, SyncAfterMessagesSnapshot,
  LatestMessagesSnapshot, through_or,
}

module _ (target : MessageTarget) (source : List RawStreamMessageRow) where
  check_older_rows-AreStored :
      (rows ms : List StreamMessage) (before limit : ℕ)
      → AreStored target source rows
      → check_older_rows rows before limit ≡ ok ms
      → AreStored target source ms
  unfolding check_older_rows
  check_older_rows-AreStored rows ms before limit a h =
      let page : take_last limit (reverse rows) ≡ ms = ground arith in
      subst (AreStored target source) page
        (All-drop _ (length (reverse rows) - limit) (reverse rows) (All-reverse _ rows a))

  check_rows_after-AreStored :
      (rows ms : List StreamMessage) (after through limit : ℕ)
      → AreStored target source rows
      → check_rows_after rows after through limit ≡ ok ms
      → AreStored target source ms
  unfolding check_rows_after
  check_rows_after-AreStored rows ms after through limit a h =
      let page : take limit rows ≡ ms = ground arith in
      subst (AreStored target source) page (All-take _ limit rows a)

  check_latest_rows-AreStored :
      (rows : List StreamMessage) (head : ℕ) (s : LatestMessagesSnapshot)
      → AreStored target source rows
      → check_latest_rows rows head ≡ ok s
      → AreStored target source s.messages
  unfolding check_latest_rows
  check_latest_rows-AreStored rows head s a h =
      let page : take_last 5 (reverse rows) ≡ s.messages = ground arith in
      subst (AreStored target source) page
        (All-drop _ (length (reverse rows) - 5) (reverse rows) (All-reverse _ rows a))

check_latest_rows-head :
    (rows : List StreamMessage) (head : ℕ) (s : LatestMessagesSnapshot)
    → check_latest_rows rows head ≡ ok s
    → head ≡ s.head
unfolding check_latest_rows
check_latest_rows-head rows head s h = ground arith

module _ (target : MessageTarget) (db : ReadDb) (stream_id : String) where
  read_older_rows-AreStored :
      (before limit : ℕ) (ms : List StreamMessage)
      → read_older_rows db stream_id target before limit ≡ ok ms
      → AreStored target (db.older_rows stream_id before (limit + 1)) ms
  unfolding read_older_rows
  read_older_rows-AreStored before limit ms h =
      let (rows, parsed, checked) =
        >>=-eq-ok (parse_rows (db.older_rows stream_id before (limit + 1)) stream_id target)
          (λ rows. check_older_rows rows before limit) h in
      check_older_rows-AreStored target _ rows ms before limit
        (parse_rows-AreStored _ stream_id target rows parsed) checked

  read_older_of-AreStored :
      (before limit : ℕ) (stream : MessageStreamMetadata) (ms : List StreamMessage)
      → read_older_of db stream_id target before limit stream ≡ ok (success ms)
      → AreStored target (db.older_rows stream_id before (limit + 1)) ms
  unfolding read_older_of
  read_older_of-AreStored before limit missing ms h =
      let none_left : ms ≡ [] = ground arith in rw none_left tt
  read_older_of-AreStored before limit (found head) ms h =
      let cases : (ms ≡ []) ⊎ (read_older_rows db stream_id target before limit ≡ ok ms) =
        ground arith in
      elim cases [
        | inl none_left ↦ rw none_left tt
        | inr read ↦ read_older_rows-AreStored before limit ms read
      ]

  pub read_older_messages-AreStored :
      (before limit : ℕ) (ms : List StreamMessage)
      → read_older_messages db stream_id target before limit ≡ ok (success ms)
      → AreStored target (db.older_rows stream_id before (limit + 1)) ms
  unfolding read_older_messages
  read_older_messages-AreStored before limit ms h =
      let (stream, parsed, read) =
        >>=-eq-ok (parse_message_stream_metadata (db.stream_row stream_id) target)
          (read_older_of db stream_id target before limit) h in
      read_older_of-AreStored before limit stream ms read

  read_rows_after-AreStored :
      (after through limit : ℕ) (ms : List StreamMessage)
      → read_rows_after db stream_id target after through limit ≡ ok ms
      → AreStored target (db.rows_after stream_id after through (limit + 1)) ms
  unfolding read_rows_after
  read_rows_after-AreStored after through limit ms h =
      let (rows, parsed, checked) =
        >>=-eq-ok (parse_rows (db.rows_after stream_id after through (limit + 1)) stream_id target)
          (λ rows. check_rows_after rows after through limit) h in
      check_rows_after-AreStored target _ rows ms after through limit
        (parse_rows-AreStored _ stream_id target rows parsed) checked

  read_after_of-AreStored :
      (after through limit : ℕ) (stream : MessageStreamMetadata) (s : SyncAfterMessagesSnapshot)
      → read_after_of db stream_id target after through limit stream ≡ ok (success s)
      → AreStored target (db.rows_after stream_id after s.through (limit + 1)) s.messages
  unfolding read_after_of
  read_after_of-AreStored after through limit missing s h =
      let none_left : s.messages ≡ [] = ground arith in rw none_left tt
  read_after_of-AreStored after through limit (found head) s h =
      let cases : (s.messages ≡ [])
          ⊎ (read_rows_after db stream_id target after through limit ≡ ok s.messages) =
        ground arith in
      elim cases [
        | inl none_left ↦ rw none_left tt
        | inr read ↦
            let bound : through ≡ s.through = ground arith in
            subst (λ n. AreStored target (db.rows_after stream_id after n (limit + 1)) s.messages)
              bound (read_rows_after-AreStored after through limit s.messages read)
      ]

  pub read_messages_after-AreStored :
      (after : ℕ) (through : Option ℕ) (limit : ℕ) (s : SyncAfterMessagesSnapshot)
      → read_messages_after db stream_id target after through limit ≡ ok (success s)
      → AreStored target (db.rows_after stream_id after s.through (limit + 1)) s.messages
  unfolding read_messages_after
  read_messages_after-AreStored after through limit s h =
      let (stream, parsed, read) =
        >>=-eq-ok (parse_message_stream_metadata (db.stream_row stream_id) target)
          (λ stream.
            read_after_of db stream_id target after (through_or through (head_sequence stream))
              limit stream)
          h in
      read_after_of-AreStored after (through_or through (head_sequence stream)) limit stream s read

  read_latest_of-AreStored :
      (stream : MessageStreamMetadata) (s : LatestMessagesSnapshot)
      → read_latest_of db stream_id target stream ≡ ok s
      → AreStored target (db.latest_rows stream_id s.head latest_query_row_limit) s.messages
  unfolding read_latest_of
  read_latest_of-AreStored missing s h =
      let none_left : s.messages ≡ [] = ground arith in rw none_left tt
  read_latest_of-AreStored (found head) s h =
      let (rows, parsed, checked) =
        >>=-eq-ok
          (parse_rows (db.latest_rows stream_id head latest_query_row_limit) stream_id target)
          (λ rows. check_latest_rows rows head) h in
      let bound : head ≡ s.head = check_latest_rows-head rows head s checked in
      subst (λ n. AreStored target (db.latest_rows stream_id n latest_query_row_limit) s.messages)
        bound
        (check_latest_rows-AreStored target _ rows head s
          (parse_rows-AreStored _ stream_id target rows parsed) checked)

  pub read_latest_messages_snapshot-AreStored :
      (s : LatestMessagesSnapshot)
      → read_latest_messages_snapshot db stream_id target ≡ ok s
      → AreStored target (db.latest_rows stream_id s.head latest_query_row_limit) s.messages
  unfolding read_latest_messages_snapshot
  read_latest_messages_snapshot-AreStored s h =
      let (stream, parsed, read) =
        >>=-eq-ok (parse_message_stream_metadata (db.stream_row stream_id) target)
          (read_latest_of db stream_id target) h in
      read_latest_of-AreStored stream s read
