-- ===== src/Streams/Queries/Denied.antt =====
-- The three queries of a reader whom the authorizer denies.
use mathlib.Core.Path.{fun_ext}
use wake_surfer.Common.{
  ℕ, ◌≡◌, refl, ap, String, Option, arith, Result, ok, err, ◌>>=◌, ◌>>◌, guard, not,
}
use wake_surfer.Values.{Number}
use wake_surfer.Contract.{MessageTarget, channel, dm, thread}
use wake_surfer.Streams.{
  Error, Outcome, Authorizer, denied, type_error, assert_actor_id, assert_stream_messages_target,
  assert_before_sequence, assert_after_sequence, assert_through_sequence, assert_query_page_size,
  authorize_message_stream_read,
}
use wake_surfer.Streams.Reads.{
  ReadDb, ResolvedReadTarget, resolved, unavailable, resolve_message_stream_read_target,
}
use wake_surfer.Streams.Usecases.{
  OlderMessagesPage, SyncAfterMessagesPage, load_older_messages, load_latest_messages,
  sync_after_messages, read_authorized, read_resolved, load_older_of, load_latest_of, sync_after_of,
  is_past,
}

resolve_same :
    (db db' : ReadDb) (target : MessageTarget)
    → db.thread_row ≡ db'.thread_row
    → resolve_message_stream_read_target db target ≡ resolve_message_stream_read_target db' target
unfolding resolve_message_stream_read_target
resolve_same db db' (channel id) e = refl
resolve_same db db' (dm id) e = refl
resolve_same db db' (thread id) e = rw e

module _ {A : Type 0} (authorize : Authorizer) (actor : String)
    (denies : (target : MessageTarget) → authorize actor target ≡ denied) where
  read_resolved_same :
      (found : ResolvedReadTarget) (read read' : String → Result Error (Outcome A))
      → read_resolved authorize actor found read ≡ read_resolved authorize actor found read'
  unfolding authorize_message_stream_read
  read_resolved_same unavailable read read' = refl
  read_resolved_same (resolved sid t) read read' = ground (arith, denies t)

  pub read_authorized_same :
      (db db' : ReadDb) (target : MessageTarget) (read read' : String → Result Error (Outcome A))
      → db.thread_row ≡ db'.thread_row
      → read_authorized db authorize actor target read
        ≡ read_authorized db' authorize actor target read'
  unfolding read_authorized
  read_authorized_same db db' target read read' e =
      rw (resolve_same db db' target e) (go (resolve_message_stream_read_target db' target))
    where
      go :
          (r : Result Error ResolvedReadTarget)
          → (r >>= λ found. read_resolved authorize actor found read)
            ≡ (r >>= λ found. read_resolved authorize actor found read')
      go (ok found) = read_resolved_same found read read'
      go (err x) = refl

module _ (authorize : Authorizer) (actor : String)
    (denies : (target : MessageTarget) → authorize actor target ≡ denied) (db db' : ReadDb)
    (same_threads : db.thread_row ≡ db'.thread_row) (target : MessageTarget) where
  latest_same :
      load_latest_messages db authorize actor target
      ≡ load_latest_messages db' authorize actor target
  unfolding load_latest_messages
  latest_same = rw (
      read_authorized_same authorize actor denies db db' target (load_latest_of db target)
        (load_latest_of db' target) same_threads)

  older_same :
      (before limit : Number)
      → load_older_messages db authorize actor target before limit
        ≡ load_older_messages db' authorize actor target before limit
  unfolding load_older_messages
  older_same before limit =
      ap
        (λ (k : ℕ → ℕ → Result Error (Outcome OlderMessagesPage)). do
          assert_stream_messages_target target
          b ← assert_before_sequence before
          l ← assert_query_page_size limit
          assert_actor_id actor
          k b l)
        (fun_ext λ b. fun_ext λ l.
          read_authorized_same authorize actor denies db db' target (load_older_of db target b l)
            (load_older_of db' target b l) same_threads)

  sync_same :
      (after : Number) (through : Option Number) (limit : Number)
      → sync_after_messages db authorize actor target after through limit
        ≡ sync_after_messages db' authorize actor target after through limit
  unfolding sync_after_messages
  sync_same after through limit =
      ap
        (λ (k : ℕ → Option ℕ → ℕ → Result Error (Outcome SyncAfterMessagesPage)). do
          assert_stream_messages_target target
          a ← assert_after_sequence after
          t ← assert_through_sequence through
          l ← assert_query_page_size limit
          assert_actor_id actor
          guard (not (is_past a t)) type_error
          k a t l)
        (fun_ext λ a. fun_ext λ t. fun_ext λ l.
          read_authorized_same authorize actor denies db db' target (sync_after_of db target a t l)
            (sync_after_of db' target a t l) same_threads)

  -- To an actor whom the authorizer denies every target, the three queries answer the same whatever
  -- messages and stream heads the database holds: two databases that agree on the origins of
  -- threads cannot be told apart.
  pub queries_hide_messages :
      (load_latest_messages db authorize actor target
        ≡ load_latest_messages db' authorize actor target)
      × ((before limit : Number)
          → load_older_messages db authorize actor target before limit
            ≡ load_older_messages db' authorize actor target before limit)
      × ((after : Number) (through : Option Number) (limit : Number)
          → sync_after_messages db authorize actor target after through limit
            ≡ sync_after_messages db' authorize actor target after through limit)
  queries_hide_messages = (latest_same, older_same, sync_same)
