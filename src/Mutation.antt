-- ===== src/Mutation.antt =====
-- packages/realtime-chat-message-mutation: an actor edits or deletes a message that it sent.
-- message-mutation.ts: the tests of arguments, the messages that the calls answer with, and the
-- rows of `messages` with their streams. The authorizer belongs to the caller: a parameter.
pub mod Edit
pub mod Delete
pub mod Outcomes
pub mod Edits
pub mod Tombstones
pub mod Deletes
mod Tests
use wake_surfer.Common.{
  ℕ, suc, String, Bool, true, false, not, ◌||◌, List, [], ◌∷◌, Option, none, some, ltb, str_eq,
  if◌then◌else◌, Result, ok, err, guard, is_empty, trim,
}
use Prim.Native.String.{len}
use wake_surfer.Values.{Value, is_nullish}
use wake_surfer.Contract.{
  MessageTarget, channel, dm, thread, get_canonical_stream_id, get_message_target_id,
}
use wake_surfer.Store.{
  Error, invalid_argument, invalid_lifecycle, unexpected_tombstone, StreamRow, MessageRow, Db,
  find_stream, find_message,
}
use wake_surfer.Send.Content.{max_text_message_utf8_bytes}

pub data MessageMutationCapability : Type 0 where
  edit_own delete_own : MessageMutationCapability

abbrev pub MessageMutationAuthorizer : Type 0
MessageMutationAuthorizer =
    (actor_id : String) (target : MessageTarget) → MessageMutationCapability → Bool

pub record EditedTextMessage : Type 0 where
  pub message_id : String
  pub stream_id : String
  pub sequence : ℕ
  pub sender_actor_id : String
  pub target : MessageTarget
  pub version : ℕ
  pub text : String
  pub created_at : ℕ
  pub edited_at : ℕ

pub record DeletedMessage : Type 0 where
  pub message_id : String
  pub stream_id : String
  pub sequence : ℕ
  pub sender_actor_id : String
  pub target : MessageTarget
  pub version : ℕ
  pub created_at : ℕ
  pub deleted_at : ℕ

-- assertActorId and assertMessageId
unfoldable pub assert_non_blank_string : String → Result Error (Unit {0})
assert_non_blank_string value = guard (not (is_empty (trim value))) invalid_argument

unfoldable pub normalize_edited_message_text : String → Option String
normalize_edited_message_text s =
    let normalized = trim s in
    if is_empty normalized || ltb max_text_message_utf8_bytes (len normalized)
    then none
    else some normalized

-- The type of a target of the database is one of the three.
unfoldable pub parse_message_target : MessageTarget → Result Error MessageTarget
parse_message_target target =
    if is_empty (trim (get_message_target_id target)) then err invalid_argument else ok target

-- A row of `messages` with the target of its stream.
pub record CurrentMessageRow : Type 0 where
  pub row : MessageRow
  pub target : MessageTarget

abbrev pub with_stream : MessageRow → Option StreamRow → Option CurrentMessageRow
with_stream row none = none
with_stream row (some stream) = some (record { row = row; target = stream.target })

abbrev pub with_message : Db → Option MessageRow → Option CurrentMessageRow
with_message db none = none
with_message db (some row) = with_stream row (find_stream row.stream_id db.streams)

-- The query that joins a message and its stream.
unfoldable pub find_current : Db → (message_id : String) → Option CurrentMessageRow
find_current db message_id = with_message db (find_message message_id db.messages)

abbrev pub target_of : Option CurrentMessageRow → Result Error (Option MessageTarget)
target_of none = ok none
target_of (some current) = elim (parse_message_target current.target) [
  | ok target ↦ ok (some target)
  | err e ↦ err e
]

-- findEditMessageTarget and findDeleteMessageTarget
unfoldable pub find_message_target :
    Db → (message_id : String) → Result Error (Option MessageTarget)
unfolding parse_message_target find_current
find_message_target db message_id = target_of (find_current db message_id)

-- The first test of both transactions.
unfoldable pub is_foreign : (actor_id : String) → MessageTarget → MessageRow → Bool
is_foreign actor_id target row =
    not (str_eq row.sender_actor_id actor_id)
    || not (str_eq row.stream_id (get_canonical_stream_id target))

abbrev pub deleted_message_at :
    MessageRow → Result Error MessageTarget → Option ℕ → Result Error DeletedMessage
deleted_message_at row _ none = err unexpected_tombstone
deleted_message_at row (err e) (some at) = err e
deleted_message_at row (ok target) (some at) = ok (record {
  message_id = row.message_id;
  stream_id = row.stream_id;
  sequence = row.sequence;
  sender_actor_id = row.sender_actor_id;
  target = target;
  version = row.version;
  created_at = row.created_at;
  deleted_at = at;
})

unfoldable pub row_to_deleted_message : CurrentMessageRow → Result Error DeletedMessage
unfolding parse_message_target
row_to_deleted_message current =
    if not (is_nullish current.row.content)
    then err unexpected_tombstone
    else deleted_message_at current.row (parse_message_target current.target) current.row.deleted_at

-- update messages … where message_id, sender_actor_id and a deletion time of null: the rows with the
-- one that the ID names written by `f`.
unfoldable pub update_rows :
    (message_id : String) → (MessageRow → MessageRow) → List MessageRow → List MessageRow
update_rows id f [] = []
update_rows id f (row ∷ rows) =
    if str_eq row.message_id id then f row ∷ rows else row ∷ update_rows id f rows
