-- ===== src/Streams/Queries/Stored.antt =====
-- The messages that the three queries hand out.
use wake_surfer.Common.{ℕ, ◌+◌, ◌≡◌, subst, String, Option, arith, ok, >>=-eq-ok, List}
use wake_surfer.Values.{Number, whole}
use wake_surfer.Contract.{MessageTarget}
use wake_surfer.Streams.{
  Outcome, success, failure, Authorizer, StreamMessage, get_canonical_stream_messages_id,
}
use wake_surfer.Streams.Reads.{
  ReadDb, read_older_messages, read_messages_after, read_latest_messages_snapshot,
  SyncAfterMessagesSnapshot, latest_query_row_limit,
}
use wake_surfer.Streams.Rows.Stored.{AreStored}
use wake_surfer.Streams.Contents.{
  read_older_messages-AreStored, read_messages_after-AreStored,
  read_latest_messages_snapshot-AreStored,
}
use wake_surfer.Streams.Access.{read_authorized-IsAuthorized}
use wake_surfer.Streams.Usecases.{
  LatestMessagesPage, OlderMessagesPage, SyncAfterMessagesPage, create_load_older_messages_success,
  create_load_latest_messages_success, create_sync_after_messages_success, load_older_messages,
  load_older_of, load_latest_messages, load_latest_of, sync_after_messages, sync_after_of,
  older_outcome, sync_outcome, read_authorized,
}
use wake_surfer.Streams.Queries.{older_admitted, sync_admitted}

module _ (db : ReadDb) (target : MessageTarget) (stream_id : String) where
  latest_of-AreStored :
      (p : LatestMessagesPage)
      → load_latest_of db target stream_id ≡ ok (success p)
      → AreStored target
          (db.latest_rows stream_id p.through_sequence latest_query_row_limit)
          p.messages
  unfolding load_latest_of create_load_latest_messages_success
  latest_of-AreStored p h =
      let (s, read, made) =
        >>=-eq-ok (read_latest_messages_snapshot db stream_id target)
          (λ s. ok (success (create_load_latest_messages_success s))) h in
      let same : create_load_latest_messages_success s ≡ p = cc in
      subst
        (λ q.
          AreStored target
            (db.latest_rows stream_id (LatestMessagesPage.through_sequence q)
              latest_query_row_limit)
            (LatestMessagesPage.messages q))
        same (read_latest_messages_snapshot-AreStored target db stream_id s read)

  older_of-AreStored :
      (before limit : ℕ) (p : OlderMessagesPage)
      → load_older_of db target before limit stream_id ≡ ok (success p)
      → AreStored target (db.older_rows stream_id before (limit + 1)) p.messages
  unfolding load_older_of create_load_older_messages_success
  older_of-AreStored before limit p h =
      let (r, read, made) =
        >>=-eq-ok (read_older_messages db stream_id target before limit)
          (λ r. ok (older_outcome before r)) h in
      let same : older_outcome before r ≡ success p = cc in go r read same
    where
      go :
          (r : Outcome (List StreamMessage))
          → read_older_messages db stream_id target before limit ≡ ok r
          → older_outcome before r ≡ success p
          → AreStored target (db.older_rows stream_id before (limit + 1)) p.messages
      go (failure code) read made = cc
      go (success ms) read made =
          let same : ms ≡ p.messages = ground arith in
          subst (AreStored target (db.older_rows stream_id before (limit + 1))) same
            (read_older_messages-AreStored target db stream_id before limit ms read)

  sync_of-AreStored :
      (after : ℕ) (through : Option ℕ) (limit : ℕ) (p : SyncAfterMessagesPage)
      → sync_after_of db target after through limit stream_id ≡ ok (success p)
      → AreStored target (db.rows_after stream_id after p.through_sequence (limit + 1)) p.messages
  unfolding sync_after_of create_sync_after_messages_success
  sync_of-AreStored after through limit p h =
      let (r, read, made) =
        >>=-eq-ok (read_messages_after db stream_id target after through limit)
          (λ r. ok (sync_outcome after r)) h in
      let same : sync_outcome after r ≡ success p = cc in go r read same
    where
      go :
          (r : Outcome SyncAfterMessagesSnapshot)
          → read_messages_after db stream_id target after through limit ≡ ok r
          → sync_outcome after r ≡ success p
          → AreStored target
              (db.rows_after stream_id after p.through_sequence (limit + 1))
              p.messages
      go (failure code) read made = cc
      go (success s) read made =
          let same : create_sync_after_messages_success after s ≡ p = cc in
          subst
            (λ q.
              AreStored target
                (db.rows_after stream_id after (SyncAfterMessagesPage.through_sequence q)
                  (limit + 1))
                (SyncAfterMessagesPage.messages q))
            same (read_messages_after-AreStored target db stream_id after through limit s read)

module _ (db : ReadDb) (authorize : Authorizer) (actor : String) (target : MessageTarget) where
  -- Every message of a successful query of the latest messages was made of one of the rows that
  -- the database returned for the query up to the page's head: a row of the requested target that
  -- agrees with it in every field: the identifiers, which are canonical, the sequence number,
  -- which is positive and safe, the date of creation, and either canonical text with the date of
  -- its last edit or, with no content, the date of deletion.
  pub load_latest_messages-AreStored :
      (p : LatestMessagesPage)
      → load_latest_messages db authorize actor target ≡ ok (success p)
      → AreStored target
          (db.latest_rows
            (get_canonical_stream_messages_id target)
            p.through_sequence
            latest_query_row_limit)
          p.messages
  unfolding load_latest_messages
  load_latest_messages-AreStored p h =
      let read : read_authorized db authorize actor target (load_latest_of db target)
          ≡ ok (success p) =
        ground arith in
      let a =
        read_authorized-IsAuthorized db authorize actor target (load_latest_of db target) p read in
      latest_of-AreStored db target (get_canonical_stream_messages_id target) p a.page

  -- Every message of a successful query of older messages was made of one of the rows that the
  -- database returned for the query before the given number: a row of the requested target that
  -- agrees with it in every field: the identifiers, which are canonical, the sequence number,
  -- which is positive and safe, the date of creation, and either canonical text with the date of
  -- its last edit or, with no content, the date of deletion.
  pub load_older_messages-AreStored :
      (before limit : Number) (p : OlderMessagesPage)
      → load_older_messages db authorize actor target before limit ≡ ok (success p)
      → (b : ℕ) × (l : ℕ) × (before ≡ whole b)
        × (limit ≡ whole l)
        × AreStored target
            (db.older_rows (get_canonical_stream_messages_id target) b (l + 1))
            p.messages
  load_older_messages-AreStored before limit p h =
      let (b, l, is_b, is_l, pos, some_limit, most, read) =
        older_admitted db authorize actor target before limit p h in
      let a =
        read_authorized-IsAuthorized db authorize actor target (load_older_of db target b l) p
          read in
      (
        b,
        l,
        is_b,
        is_l,
        older_of-AreStored db target (get_canonical_stream_messages_id target) b l p a.page,
      )

  -- Every message of a successful synchronisation was made of one of the rows that the database
  -- returned for the query after the given number up to the page's last one: a row of the
  -- requested target that agrees with it in every field: the identifiers, which are canonical, the
  -- sequence number, which is positive and safe, the date of creation, and either canonical text
  -- with the date of its last edit or, with no content, the date of deletion.
  pub sync_after_messages-AreStored :
      (after : Number) (through : Option Number) (limit : Number) (p : SyncAfterMessagesPage)
      → sync_after_messages db authorize actor target after through limit ≡ ok (success p)
      → (n : ℕ) × (l : ℕ) × (after ≡ whole n)
        × (limit ≡ whole l)
        × AreStored target
            (db.rows_after (get_canonical_stream_messages_id target) n p.through_sequence (l + 1))
            p.messages
  sync_after_messages-AreStored after through limit p h =
      let (n, t, l, is_n, is_t, is_l, some_limit, most, read) =
        sync_admitted db authorize actor target after through limit p h in
      let a =
        read_authorized-IsAuthorized db authorize actor target (sync_after_of db target n t l) p
          read in
      (
        n,
        l,
        is_n,
        is_l,
        sync_of-AreStored db target (get_canonical_stream_messages_id target) n t l p a.page,
      )
