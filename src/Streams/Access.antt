-- ===== src/Streams/Access.antt =====
-- Reads that are authorized: the origin of a stream, and what the authorizer says of it.
use wake_surfer.Common.{◌≡◌, refl, ◌∙◌, String, Option, none, some, arith, Result, ok, >>=-eq-ok}
use wake_surfer.Contract.{MessageTarget, channel, dm, thread}
use wake_surfer.Streams.{
  Error, Authorization, allowed, denied, Outcome, success, Authorizer,
  authorize_message_stream_read, get_canonical_stream_messages_id,
}
use wake_surfer.Streams.Reads.{
  ReadDb, ThreadRow, ResolvedReadTarget, resolved, unavailable, resolve_message_stream_read_target,
  resolve_thread, parent_target,
}
use wake_surfer.Streams.Rows.{parse_non_blank_string}
use wake_surfer.Streams.Usecases.{read_authorized, read_resolved, read_if}

-- A channel or a direct conversation: what the authorizer knows.
abbrev pub IsDirect : MessageTarget → Type 0
IsDirect (channel id) = Unit
IsDirect (dm id) = Unit
IsDirect (thread id) = ⊥

-- The target that a read of `target` is authorized against.
abbrev pub IsOrigin : ReadDb → (target origin : MessageTarget) → Type 0
IsOrigin db target origin =
    resolve_message_stream_read_target db target
    ≡ ok (resolved (get_canonical_stream_messages_id target) origin)

parent_target-IsDirect :
    (stream_id sid : String) (row : ThreadRow) (id : Option String) (t : MessageTarget)
    → parent_target stream_id row.parent_target_type id ≡ ok (resolved sid t)
    → (sid ≡ stream_id) × IsDirect t
parent_target-IsDirect stream_id sid row none t h = cc
parent_target-IsDirect stream_id sid row (some id) (channel c) h = (ground arith, tt)
parent_target-IsDirect stream_id sid row (some id) (dm d) h = (ground arith, tt)
parent_target-IsDirect stream_id sid row (some id) (thread d) h = ground arith

resolve_thread-IsDirect :
    (stream_id thread_id sid : String) (row : Option ThreadRow) (t : MessageTarget)
    → resolve_thread stream_id thread_id row ≡ ok (resolved sid t)
    → (sid ≡ stream_id) × IsDirect t
resolve_thread-IsDirect stream_id thread_id sid none t h = cc
resolve_thread-IsDirect stream_id thread_id sid (some row) t h =
    parent_target-IsDirect stream_id sid row (parse_non_blank_string row.parent_target_id) t
      (ground arith)

-- What is resolved is the canonical stream, and its origin is no thread.
pub resolve-IsDirect :
    (db : ReadDb) (target t : MessageTarget) (sid : String)
    → resolve_message_stream_read_target db target ≡ ok (resolved sid t)
    → (sid ≡ get_canonical_stream_messages_id target) × IsDirect t
unfolding resolve_message_stream_read_target
resolve-IsDirect db (channel id) (channel c) sid h = (cc, tt)
resolve-IsDirect db (dm id) (dm c) sid h = (cc, tt)
resolve-IsDirect db (channel id) (dm c) sid h = cc
resolve-IsDirect db (channel id) (thread c) sid h = cc
resolve-IsDirect db (dm id) (channel c) sid h = cc
resolve-IsDirect db (dm id) (thread c) sid h = cc
resolve-IsDirect db (thread id) t sid h = resolve_thread-IsDirect _ id sid (db.thread_row _) t h

-- What a successful query has established: the origin of the stream, that the authorizer allowed
-- the actor to read it, and the read of the canonical stream.
pub record IsAuthorized {A : Type 0} (db : ReadDb) (authorize : Authorizer) (actor : String)
    (target : MessageTarget) (read : String → Result Error (Outcome A)) (a : A) : Type 0 where
  pub origin : MessageTarget
  pub resolves : IsOrigin db target origin
  pub direct : IsDirect origin
  pub permitted : authorize actor origin ≡ allowed
  pub page : read (get_canonical_stream_messages_id target) ≡ ok (success a)

module _ {A : Type 0} (db : ReadDb) (authorize : Authorizer) (actor : String)
    (target : MessageTarget) (read : String → Result Error (Outcome A)) where
  read_if-eq-success :
      (z : Authorization) (r : Result Error (Outcome A)) (a : A)
      → read_if z r ≡ ok (success a)
      → (z ≡ allowed) × (r ≡ ok (success a))
  read_if-eq-success denied r a h = cc
  read_if-eq-success allowed r a h = (refl, h)

  authorize_lem :
      (t : MessageTarget) (z : Authorization)
      → authorize_message_stream_read authorize actor t ≡ ok z
      → authorize actor t ≡ z
  unfolding authorize_message_stream_read
  authorize_lem t z h = ground arith

  pub read_authorized-IsAuthorized :
      (a : A)
      → read_authorized db authorize actor target read ≡ ok (success a)
      → IsAuthorized db authorize actor target read a
  unfolding read_authorized
  read_authorized-IsAuthorized a h =
      let (found, resolves, rest) =
        >>=-eq-ok (resolve_message_stream_read_target db target)
          (λ found. read_resolved authorize actor found read) h in
      go found resolves rest
    where
      go :
          (found : ResolvedReadTarget)
          → resolve_message_stream_read_target db target ≡ ok found
          → read_resolved authorize actor found read ≡ ok (success a)
          → IsAuthorized db authorize actor target read a
      go unavailable e r = cc
      go (resolved sid t) e r =
          let (z, checked, done) =
            >>=-eq-ok (authorize_message_stream_read authorize actor t) (λ z. read_if z (read sid))
              r in
          let (same, direct) = resolve-IsDirect db target t sid e in
          let (yes_it_is, page) = read_if-eq-success z (read sid) a done in
          record {
            origin = t;
            resolves = rw same at e;
            direct = direct;
            permitted = authorize_lem t z checked ∙ yes_it_is;
            page = rw same at page;
          }
