-- ===== src/Streams.antt =====
-- packages/realtime-chat-stream-messages/src/stream-messages.ts and errors.ts: the types of the
-- read side of the message store, and its tests of arguments. `StreamMessagesTarget` has the shape
-- of the shared `MessageTarget`. An error keeps its class and reason; the metadata that it carries
-- for logs, and the branches of `assertStreamMessagesTarget` for values that the type excludes, are
-- left out.
pub mod Rows
pub mod Window
pub mod Reads
pub mod Usecases
pub mod Pages
pub mod Outcomes
pub mod Contents
pub mod Access
pub mod Queries
mod Tests
use Prim.Native.String.{◌++◌}
use wake_surfer.Common.{
  ℕ, String, Bool, true, false, not, ◌||◌, List, Option, none, some, ltb, leb, if◌then◌else◌,
  Result, ok, err, ◌>>◌, guard, is_canonical,
}
use wake_surfer.Values.{Number, whole, negative, other, Value, is_safe_integer, max_safe_integer}
use wake_surfer.Contract.{MessageTarget, channel, dm, thread}

pub data DataIntegrityReason : Type 0 where
  stream_target_mismatch sequence_gap invalid_storage_row : DataIntegrityReason

pub data Error : Type 0 where
  type_error : Error
  data_integrity : DataIntegrityReason → Error

pub data Authorization : Type 0 where
  allowed denied : Authorization

-- `content` with the Date that goes with it, in milliseconds.
pub data Body : Type 0 where
  text : String → (edited_at : Option ℕ) → Body
  deleted : (deleted_at : ℕ) → Body

pub record StreamMessage : Type 0 where
  pub message_id : String
  pub sequence : ℕ
  pub sender_actor_id : String
  pub target : MessageTarget
  pub created_at : ℕ
  pub sent_at_client : Option ℕ
  pub body : Body

pub data FailureCode : Type 0 where
  stream_unavailable invalid_cursor : FailureCode

-- A query that did not throw: a page, or a failure that the caller is told of.
pub data Outcome (A : Type 0) : Type 0 where
  success : A → Outcome A
  failure : FailureCode → Outcome A

abbrev pub max_latest_messages_query_count : ℕ
max_latest_messages_query_count = 5

abbrev pub max_stream_messages_query_page_size : ℕ
max_stream_messages_query_page_size = 100

pub record RawStreamMessageRow : Type 0 where
  pub message_id : Value
  pub stream_id : Value
  pub sequence : Value
  pub sender_actor_id : Value
  pub target_type : Value
  pub target_id : Value
  pub content : Value
  pub created_at : Value
  pub deleted_at : Value
  pub edited_at : Value

pub record RawStreamMetadataRow : Type 0 where
  pub target_type : Value
  pub target_id : Value
  pub head_sequence : Value

pub data MessageStreamMetadata : Type 0 where
  missing : MessageStreamMetadata
  found : ℕ → MessageStreamMetadata

-- stream.headSequence
abbrev pub head_sequence : MessageStreamMetadata → ℕ
head_sequence missing = 0
head_sequence (found head) = head

unfoldable pub get_stream_messages_target_type : MessageTarget → String
get_stream_messages_target_type (channel id) = "channel"
get_stream_messages_target_type (dm id) = "dm"
get_stream_messages_target_type (thread id) = "thread"

unfoldable pub get_stream_messages_target_id : MessageTarget → String
get_stream_messages_target_id (channel id) = id
get_stream_messages_target_id (dm id) = id
get_stream_messages_target_id (thread id) = id

unfoldable pub get_canonical_stream_messages_id : MessageTarget → String
unfolding get_stream_messages_target_type get_stream_messages_target_id
get_canonical_stream_messages_id target =
    get_stream_messages_target_type target ++ (":" ++ get_stream_messages_target_id target)

pub assert_non_blank_identifier : String → Result Error (Unit {0})
assert_non_blank_identifier value = guard (is_canonical value) type_error

pub assert_actor_id : String → Result Error (Unit {0})
unfolding assert_non_blank_identifier
assert_actor_id actor_id = assert_non_blank_identifier actor_id

pub assert_stream_messages_target : MessageTarget → Result Error (Unit {0})
unfolding assert_non_blank_identifier
assert_stream_messages_target (channel id) = assert_non_blank_identifier id
assert_stream_messages_target (dm id) = assert_non_blank_identifier id
assert_stream_messages_target (thread id) = assert_non_blank_identifier id

-- The number that passed the test comes back as a natural number.
pub assert_safe_integer_in_range : Number → (minimum maximum : ℕ) → Result Error ℕ
assert_safe_integer_in_range (whole n) minimum maximum =
    if not (is_safe_integer (whole n)) || (ltb n minimum || ltb maximum n)
    then err type_error
    else ok n
assert_safe_integer_in_range (negative n) minimum maximum = err type_error
assert_safe_integer_in_range other minimum maximum = err type_error

pub assert_before_sequence : Number → Result Error ℕ
unfolding assert_safe_integer_in_range
assert_before_sequence n = assert_safe_integer_in_range n 1 max_safe_integer

pub assert_after_sequence : Number → Result Error ℕ
unfolding assert_safe_integer_in_range
assert_after_sequence n = assert_safe_integer_in_range n 0 max_safe_integer

pub assert_through_sequence : Option Number → Result Error (Option ℕ)
unfolding assert_safe_integer_in_range
assert_through_sequence none = ok none
assert_through_sequence (some n) = elim (assert_safe_integer_in_range n 0 max_safe_integer) [
  | ok through ↦ ok (some through)
  | err e ↦ err e
]

pub assert_query_page_size : Number → Result Error ℕ
unfolding assert_safe_integer_in_range
assert_query_page_size n = assert_safe_integer_in_range n 1 max_stream_messages_query_page_size

-- The authorizer is a dependency of the server: any function. It is never asked about a thread,
-- whose origin is looked up first.
abbrev pub Authorizer : Type 0
Authorizer = (actor_id : String) (target : MessageTarget) → Authorization

pub authorize_message_stream_read : Authorizer → String → MessageTarget → Result Error Authorization
unfolding assert_actor_id
authorize_message_stream_read authorize_read actor_id target =
    assert_actor_id actor_id >> ok (authorize_read actor_id target)
