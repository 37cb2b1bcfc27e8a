-- ===== src/Streams/Queries.antt =====
-- The main theorems on the three queries of the API.
pub mod Stored
pub mod Denied
use mathlib.Core.Option
use wake_surfer.Common.{
  ℕ, ◌+◌, ◌-◌, min, ◌≤◌, ◌<◌, ◌≡◌, refl, ap, ◌∙◌, sym, String, Bool, Option, none, some, arith,
  Result, ok, err, >>=-eq-ok, guard-eq-ok, guard, not, List,
}
use wake_surfer.Values.{Number, whole, negative, other, max_safe_integer}
use wake_surfer.Contract.{MessageTarget}
use wake_surfer.Streams.{
  Error, Outcome, success, failure, Authorizer, allowed, StreamMessage,
  assert_safe_integer_in_range, assert_before_sequence, assert_after_sequence,
  assert_through_sequence, assert_query_page_size, assert_stream_messages_target, assert_actor_id,
  get_canonical_stream_messages_id,
}
use wake_surfer.Streams.Reads.{
  ReadDb, read_older_messages, read_messages_after, read_latest_messages_snapshot,
  LatestMessagesSnapshot, SyncAfterMessagesSnapshot,
}
use wake_surfer.Streams.Pages.{
  HasHead, read_older_messages-range, read_messages_after-range,
  read_latest_messages_snapshot-range,
}
use wake_surfer.Streams.Outcomes.{
  IsOlderPage, IsSyncPage, IsLatestPage, create_older-IsOlderPage, create_sync-IsSyncPage,
  create_latest-IsLatestPage,
}
use wake_surfer.Streams.Access.{IsAuthorized, read_authorized-IsAuthorized, IsDirect, IsOrigin}
use wake_surfer.Streams.Usecases.{
  OlderMessagesPage, LatestMessagesPage, SyncAfterMessagesPage, create_load_older_messages_success,
  create_load_latest_messages_success, create_sync_after_messages_success, load_older_messages,
  load_older_of, load_latest_messages, load_latest_of, sync_after_messages, sync_after_of,
  older_outcome, sync_outcome, read_authorized,
}

-- What the guards of a query have established when it succeeds.
abbrev pub HasOrigin : ReadDb → Authorizer → (actor_id : String) → MessageTarget → Type 0
HasOrigin db authorize actor target =
    (origin : MessageTarget) × IsOrigin db target origin
    × IsDirect origin
    × (authorize actor origin ≡ allowed)

module _ (db : ReadDb) (authorize : Authorizer) (actor : String) (target : MessageTarget) where
  stream_id : String
  stream_id = get_canonical_stream_messages_id target

  load_latest_of-IsLatestPage :
      (p : LatestMessagesPage)
      → load_latest_of db target stream_id ≡ ok (success p)
      → (head : ℕ) × HasHead db stream_id target head × IsLatestPage head p
  unfolding load_latest_of
  load_latest_of-IsLatestPage p h =
      let (s, read, made) =
        >>=-eq-ok (read_latest_messages_snapshot db stream_id target)
          (λ s. ok (success (create_load_latest_messages_success s))) h in
      let (head, range) = read_latest_messages_snapshot-range db stream_id target s read in
      let same : create_load_latest_messages_success s ≡ p = cc in
      (s.head, head, rw same at (create_latest-IsLatestPage s s.messages refl range))

  load_older_of-IsOlderPage :
      (before limit : ℕ) (p : OlderMessagesPage)
      → 0 < before
      → 0 < limit
      → load_older_of db target before limit stream_id ≡ ok (success p)
      → (head : ℕ) × HasHead db stream_id target head
        × (before ≤ head + 1)
        × IsOlderPage before limit p
  unfolding load_older_of
  load_older_of-IsOlderPage before limit p pos some_limit h =
      let (r, read, made) =
        >>=-eq-ok (read_older_messages db stream_id target before limit)
          (λ r. ok (older_outcome before r)) h in
      let same : older_outcome before r ≡ success p = cc in go r read same
    where
      go :
          (r : Outcome (List StreamMessage))
          → read_older_messages db stream_id target before limit ≡ ok r
          → older_outcome before r ≡ success p
          → (head : ℕ) × HasHead db stream_id target head
            × (before ≤ head + 1)
            × IsOlderPage before limit p
      go (failure code) read made = cc
      go (success ms) read made =
          let (head, has, below, range) =
            read_older_messages-range db stream_id target before limit ms pos read in
          let same : create_load_older_messages_success before ms ≡ p = cc in
          (
            head,
            has,
            below,
            rw same at (create_older-IsOlderPage before limit ms pos some_limit range),
          )

  sync_after_of-IsSyncPage :
      (after : ℕ) (through : Option ℕ) (limit : ℕ) (p : SyncAfterMessagesPage)
      → 0 < limit
      → sync_after_of db target after through limit stream_id ≡ ok (success p)
      → (head : ℕ) × HasHead db stream_id target head × IsSyncPage after through limit head p
  unfolding sync_after_of
  sync_after_of-IsSyncPage after through limit p some_limit h =
      let (r, read, made) =
        >>=-eq-ok (read_messages_after db stream_id target after through limit)
          (λ r. ok (sync_outcome after r)) h in
      let same : sync_outcome after r ≡ success p = cc in go r read same
    where
      go :
          (r : Outcome SyncAfterMessagesSnapshot)
          → read_messages_after db stream_id target after through limit ≡ ok r
          → sync_outcome after r ≡ success p
          → (head : ℕ) × HasHead db stream_id target head × IsSyncPage after through limit head p
      go (failure code) read made = cc
      go (success s) read made =
          let (head, has, bound, low, high, range) =
            read_messages_after-range db stream_id target after through limit s read in
          let same : create_sync_after_messages_success after s ≡ p = cc in
          (
            head,
            has,
            rw same at (
                create_sync-IsSyncPage after through limit head s s.messages refl some_limit bound
                  low high range),
          )

  older_admitted :
      (before limit : Number) (p : OlderMessagesPage)
      → load_older_messages db authorize actor target before limit ≡ ok (success p)
      → (b : ℕ) × (l : ℕ) × (before ≡ whole b)
        × (limit ≡ whole l)
        × (1 ≤ b)
        × (1 ≤ l)
        × (l ≤ 100)
        × (read_authorized db authorize actor target (load_older_of db target b l) ≡ ok (success p))
  unfolding load_older_messages assert_before_sequence assert_query_page_size
  older_admitted (whole b) (whole l) p h =
      (b, l, refl, refl, ground arith, ground arith, ground arith, ground arith)
  older_admitted (whole b) (negative l) p h = ground arith
  older_admitted (whole b) other p h = ground arith
  older_admitted (negative b) limit p h = ground arith
  older_admitted other limit p h = ground arith

  sync_admitted :
      (after : Number) (through : Option Number) (limit : Number) (p : SyncAfterMessagesPage)
      → sync_after_messages db authorize actor target after through limit ≡ ok (success p)
      → (a : ℕ) × (t : Option ℕ) × (l : ℕ) × (after ≡ whole a)
        × (through ≡ Option.map whole t)
        × (limit ≡ whole l)
        × (1 ≤ l)
        × (l ≤ 100)
        × (read_authorized db authorize actor target (sync_after_of db target a t l)
            ≡ ok (success p))
  unfolding sync_after_messages assert_after_sequence assert_through_sequence assert_query_page_size
  sync_admitted (whole a) none (whole l) p h =
      (a, none, l, refl, refl, refl, ground arith, ground arith, ground arith)
  sync_admitted (whole a) (some (whole t)) (whole l) p h =
      (a, some t, l, refl, refl, refl, ground arith, ground arith, ground arith)
  sync_admitted (whole a) (some (negative t)) limit p h = ground arith
  sync_admitted (whole a) (some other) limit p h = ground arith
  sync_admitted (whole a) none (negative l) p h = ground arith
  sync_admitted (whole a) none other p h = ground arith
  sync_admitted (whole a) (some (whole t)) (negative l) p h = ground arith
  sync_admitted (whole a) (some (whole t)) other p h = ground arith
  sync_admitted (negative a) through limit p h = ground arith
  sync_admitted other through limit p h = ground arith

  -- A successful query of the latest messages has been authorized against the stream's origin, and
  -- its page is the window of at most five numbers that ends at the head of the stream.
  pub load_latest_messages-IsLatestPage :
      (p : LatestMessagesPage)
      → load_latest_messages db authorize actor target ≡ ok (success p)
      → HasOrigin db authorize actor target
        × ((head : ℕ) × HasHead db (get_canonical_stream_messages_id target) target head
            × IsLatestPage head p)
  unfolding load_latest_messages stream_id
  load_latest_messages-IsLatestPage p h =
      let read : read_authorized db authorize actor target (load_latest_of db target)
          ≡ ok (success p) =
        ground arith in
      let a =
        read_authorized-IsAuthorized db authorize actor target (load_latest_of db target) p read in
      ((a.origin, a.resolves, a.direct, a.permitted), load_latest_of-IsLatestPage p a.page)

  -- A successful query of older messages has been authorized against the stream's origin, and its
  -- page is the window of numbers right before the cursor, at most as many as were asked for.
  pub load_older_messages-IsOlderPage :
      (before limit : Number) (p : OlderMessagesPage)
      → load_older_messages db authorize actor target before limit ≡ ok (success p)
      → HasOrigin db authorize actor target
        × ((b : ℕ) × (l : ℕ) × (before ≡ whole b)
            × (limit ≡ whole l)
            × (l ≤ 100)
            × ((head : ℕ) × HasHead db (get_canonical_stream_messages_id target) target head
                × (b ≤ head + 1)
                × IsOlderPage b l p))
  unfolding stream_id
  load_older_messages-IsOlderPage before limit p h =
      let (b, l, is_b, is_l, pos, some_limit, most, read) = older_admitted before limit p h in
      let a =
        read_authorized-IsAuthorized db authorize actor target (load_older_of db target b l) p
          read in
      (
        (a.origin, a.resolves, a.direct, a.permitted),
        (b, l, is_b, is_l, most, load_older_of-IsOlderPage b l p pos some_limit a.page),
      )

  -- A successful synchronisation has been authorized against the stream's origin, and its page is
  -- the window of numbers right after the cursor, at most as many as were asked for, up to the
  -- number that was asked for or the head of the stream.
  pub sync_after_messages-IsSyncPage :
      (after : Number) (through : Option Number) (limit : Number) (p : SyncAfterMessagesPage)
      → sync_after_messages db authorize actor target after through limit ≡ ok (success p)
      → HasOrigin db authorize actor target
        × ((a : ℕ) × (t : Option ℕ) × (l : ℕ) × (after ≡ whole a)
            × (through ≡ Option.map whole t)
            × (limit ≡ whole l)
            × (l ≤ 100)
            × ((head : ℕ) × HasHead db (get_canonical_stream_messages_id target) target head
                × IsSyncPage a t l head p))
  unfolding stream_id
  sync_after_messages-IsSyncPage after through limit p h =
      let (n, t, l, is_n, is_t, is_l, some_limit, most, read) =
        sync_admitted after through limit p h in
      let a =
        read_authorized-IsAuthorized db authorize actor target (sync_after_of db target n t l) p
          read in
      (
        (a.origin, a.resolves, a.direct, a.permitted),
        (n, t, l, is_n, is_t, is_l, most, sync_after_of-IsSyncPage n t l p some_limit a.page),
      )
