-- ===== src/Streams/Usecases.antt =====
-- The *.usecase.ts files: the three queries that the API serves. The steps run in the source's
-- order, and the first that throws ends the query.
use wake_surfer.Common.{
  ℕ, String, Bool, false, not, List, Option, none, some, ltb, first?, last?, Result, ok, ◌>>=◌,
  ◌>>◌, guard,
}
use wake_surfer.Values.{Number}
use wake_surfer.Contract.{MessageTarget}
use wake_surfer.Streams.{
  Error, type_error, Authorization, allowed, denied, StreamMessage, Outcome, success, failure,
  stream_unavailable, Authorizer, assert_actor_id, assert_stream_messages_target,
  assert_before_sequence, assert_after_sequence, assert_through_sequence, assert_query_page_size,
  authorize_message_stream_read,
}
use wake_surfer.Streams.Reads.{
  ReadDb, ResolvedReadTarget, resolved, unavailable, resolve_message_stream_read_target,
  LatestMessagesSnapshot, read_latest_messages_snapshot, read_older_messages,
  SyncAfterMessagesSnapshot, read_messages_after,
}

-- messages[0]?.sequence ?? null
abbrev pub sequence_of : Option StreamMessage → Option ℕ
sequence_of none = none
sequence_of (some m) = some m.sequence

-- oldest === undefined ? false : oldest.sequence > 1
abbrev pub has_before : Option StreamMessage → Bool
has_before none = false
has_before (some oldest) = ltb 1 oldest.sequence

-- newest?.sequence ?? through
abbrev pub sequence_or : Option StreamMessage → ℕ → ℕ
sequence_or none through = through
sequence_or (some newest) through = newest.sequence

pub record LatestMessagesPage : Type 0 where
  pub through_sequence : ℕ
  pub messages : List StreamMessage
  pub next_before_sequence : Option ℕ
  pub has_more_before : Bool

pub record OlderMessagesPage : Type 0 where
  pub before_sequence : ℕ
  pub messages : List StreamMessage
  pub next_before_sequence : Option ℕ
  pub has_more_before : Bool

pub record SyncAfterMessagesPage : Type 0 where
  pub after_sequence : ℕ
  pub through_sequence : ℕ
  pub messages : List StreamMessage
  pub next_after_sequence : ℕ
  pub has_more_after : Bool

unfoldable pub create_load_latest_messages_success : LatestMessagesSnapshot → LatestMessagesPage
create_load_latest_messages_success snapshot = record {
  through_sequence = snapshot.head;
  messages = snapshot.messages;
  next_before_sequence = sequence_of (first? snapshot.messages);
  has_more_before = has_before (first? snapshot.messages);
}

unfoldable pub create_load_older_messages_success : ℕ → List StreamMessage → OlderMessagesPage
create_load_older_messages_success before messages = record {
  before_sequence = before;
  messages = messages;
  next_before_sequence = sequence_of (first? messages);
  has_more_before = has_before (first? messages);
}

unfoldable pub create_sync_after_messages_success :
    ℕ → SyncAfterMessagesSnapshot → SyncAfterMessagesPage
create_sync_after_messages_success after snapshot =
    let next = sequence_or (last? snapshot.messages) snapshot.through in
    record {
      after_sequence = after;
      through_sequence = snapshot.through;
      messages = snapshot.messages;
      next_after_sequence = next;
      has_more_after = ltb next snapshot.through;
    }

-- The steps that the three queries share, between their tests of arguments and the read: the
-- target is resolved, and the actor is authorized to read it.
abbrev pub read_if :
    {A : Type 0} → Authorization → Result Error (Outcome A) → Result Error (Outcome A)
read_if denied read = ok (failure stream_unavailable)
read_if allowed read = read

abbrev pub read_resolved :
    {A : Type 0}
    → Authorizer
    → String
    → ResolvedReadTarget
    → (String → Result Error (Outcome A))
    → Result Error (Outcome A)
read_resolved authorize actor unavailable read = ok (failure stream_unavailable)
read_resolved authorize actor (resolved stream_id target) read = do
  authorization ← authorize_message_stream_read authorize actor target
  read_if authorization (read stream_id)

unfoldable pub read_authorized :
    {A : Type 0}
    → ReadDb
    → Authorizer
    → (actor_id : String) → MessageTarget
    → (String → Result Error (Outcome A))
    → Result Error (Outcome A)
read_authorized db authorize actor target read = do
  found ← resolve_message_stream_read_target db target
  read_resolved authorize actor found read

unfoldable pub load_latest_of :
    ReadDb → MessageTarget → (stream_id : String) → Result Error (Outcome LatestMessagesPage)
load_latest_of db target stream_id = do
  snapshot ← read_latest_messages_snapshot db stream_id target
  ok (success (create_load_latest_messages_success snapshot))

unfoldable pub load_latest_messages :
    ReadDb
    → Authorizer
    → (actor_id : String) → MessageTarget
    → Result Error (Outcome LatestMessagesPage)
load_latest_messages db authorize actor target = do
  assert_stream_messages_target target
  assert_actor_id actor
  read_authorized db authorize actor target (load_latest_of db target)

abbrev pub older_outcome : ℕ → Outcome (List StreamMessage) → Outcome OlderMessagesPage
older_outcome before (failure code) = failure code
older_outcome before (success messages) =
    success (create_load_older_messages_success before messages)

unfoldable pub load_older_of :
    ReadDb
    → MessageTarget
    → (before limit : ℕ) → (stream_id : String) → Result Error (Outcome OlderMessagesPage)
load_older_of db target before limit stream_id = do
  result ← read_older_messages db stream_id target before limit
  ok (older_outcome before result)

unfoldable pub load_older_messages :
    ReadDb
    → Authorizer
    → (actor_id : String) → MessageTarget
    → (before limit : Number) → Result Error (Outcome OlderMessagesPage)
load_older_messages db authorize actor target before_given limit_given = do
  assert_stream_messages_target target
  before ← assert_before_sequence before_given
  limit ← assert_query_page_size limit_given
  assert_actor_id actor
  read_authorized db authorize actor target (load_older_of db target before limit)

abbrev pub sync_outcome : ℕ → Outcome SyncAfterMessagesSnapshot → Outcome SyncAfterMessagesPage
sync_outcome after (failure code) = failure code
sync_outcome after (success snapshot) = success (create_sync_after_messages_success after snapshot)

-- query.throughSequence !== undefined && query.afterSequence > query.throughSequence
abbrev pub is_past : ℕ → Option ℕ → Bool
is_past after none = false
is_past after (some through) = ltb through after

unfoldable pub sync_after_of :
    ReadDb
    → MessageTarget
    → (after : ℕ) (through : Option ℕ) (limit : ℕ) → (stream_id : String)
    → Result Error (Outcome SyncAfterMessagesPage)
sync_after_of db target after through limit stream_id = do
  result ← read_messages_after db stream_id target after through limit
  ok (sync_outcome after result)

unfoldable pub sync_after_messages :
    ReadDb
    → Authorizer
    → (actor_id : String) → MessageTarget
    → (after : Number) (through : Option Number) (limit : Number)
    → Result Error (Outcome SyncAfterMessagesPage)
sync_after_messages db authorize actor target after_given through_given limit_given = do
  assert_stream_messages_target target
  after ← assert_after_sequence after_given
  through ← assert_through_sequence through_given
  limit ← assert_query_page_size limit_given
  assert_actor_id actor
  guard (not (is_past after through)) type_error
  read_authorized db authorize actor target (sync_after_of db target after through limit)
