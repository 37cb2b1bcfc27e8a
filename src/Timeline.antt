-- ===== src/Timeline.antt =====
-- packages/realtime-chat-stream-messages-client/src/timeline-model.ts: the client's model of one
-- message stream. Each method is a function of the model that may throw (`Exec`); what it wrote
-- before a throw stays written. The subscriptions (`Emitter`, `TimelineScope`, `batchChanges`) only
-- tell others of changes and are left out, and so is the freezing of copies (`ownMessage`), since
-- values cannot be shared here. `Date.parse` belongs to the JavaScript engine: it is the parameter
-- `date_parse`, `none` where it answers NaN.
pub mod Insert
pub mod Apply
pub mod Order
pub mod Consistent
pub mod Shown
pub mod Steady
pub mod Kept
pub mod Drain
pub mod Applied
pub mod Runs
pub mod Deleted
pub mod Live
mod Tests
use wake_surfer.Common.{
  ℕ, ◌<◌, String, Bool, true, false, not, ◌&&◌, ◌||◌, List, [], ◌∷◌, Option, none, some, ltb, ◌==◌,
  str_eq, if◌then◌else◌, Result, ok, err,
}
use wake_surfer.Common.Dict.{get, put, remove, has, add, discard, nat_key, text_key}
use wake_surfer.Common.Exec.{Exec, pure, throw}
use wake_surfer.Values.{Number, whole, is_safe_integer}
use wake_surfer.Contract.{
  MessageTarget, channel, dm, thread, PublicMessage, Content, text, deleted,
  get_canonical_stream_id,
}

pub data Error : Type 0 where
  -- StreamMessageProtocolError, by its code
  sync_cursor_mismatch sync_no_progress message_identity_conflict message_target_mismatch : Error
  type_error : Error

pub record Timeline : Type 0 where
  pub target : MessageTarget
  pub records : List (String × PublicMessage)
  pub visible_ids : List String
  pub visible_id_set : List String
  pub accepted_outside_visible : List String
  pub message_id_to_sequence : List (String × ℕ)
  pub sequence_to_message_id : List (ℕ × String)
  pub buffered_by_sequence : List (ℕ × String)
  pub delivery_sync_cursor : Option ℕ
  pub has_more_before : Bool
  pub history_before_cursor : Option ℕ

-- new StreamMessagesTimelineModel(target)
abbrev pub create : MessageTarget → Timeline
create target = record {
  target = target;
  records = [];
  visible_ids = [];
  visible_id_set = [];
  accepted_outside_visible = [];
  message_id_to_sequence = [];
  sequence_to_message_id = [];
  buffered_by_sequence = [];
  delivery_sync_cursor = none;
  has_more_before = false;
  history_before_cursor = none;
}

abbrev pub Method : Type 0 → Type 0
Method A = Exec Timeline Error A

abbrev pub stream_id : Timeline → String
stream_id t = get_canonical_stream_id t.target

-- getMessage
abbrev pub get_message : String → Timeline → Option PublicMessage
get_message id t = get id t.records

-- `messages`; `none` stands for the `undefined` of an ID that has no record
abbrev pub messages_of : List String → Timeline → List (Option PublicMessage)
messages_of [] t = []
messages_of (id ∷ ids) t = get_message id t ∷ messages_of ids t

abbrev pub messages : Timeline → List (Option PublicMessage)
messages t = messages_of t.visible_ids t

-- hasBufferedGap
unfoldable pub has_buffered_gap : Timeline → Bool
has_buffered_gap t = elim t.buffered_by_sequence [ [] ↦ false | e ∷ r ↦ true ]

unfoldable pub restore_cursor : Number → Method (Unit {0})
restore_cursor (whole cursor) t =
    if is_safe_integer (whole cursor)
    then (ok tt, record t { delivery_sync_cursor = some cursor })
    else (err type_error, t)
restore_cursor _ t = (err type_error, t)

-- streamMessagesClientTargetsEqual
unfoldable pub stream_messages_client_targets_equal : MessageTarget → MessageTarget → Bool
stream_messages_client_targets_equal (channel a) (channel b) = str_eq a b
stream_messages_client_targets_equal (channel a) _ = false
stream_messages_client_targets_equal (thread a) (thread b) = str_eq a b
stream_messages_client_targets_equal _ _ = false

unfoldable pub assert_stream : String → Method (Unit {0})
assert_stream sid t =
    if str_eq sid (stream_id t) then (ok tt, t) else (err message_target_mismatch, t)

unfoldable pub assert_message_target : PublicMessage → Method (Unit {0})
unfolding stream_messages_client_targets_equal
assert_message_target m t =
    if not (str_eq m.stream_id (stream_id t))
      || not (stream_messages_client_targets_equal t.target m.target)
    then (err message_target_mismatch, t)
    else (ok tt, t)

-- known !== undefined && known !== id
abbrev pub differs_from : Option String → String → Bool
differs_from none id = false
differs_from (some known) id = not (str_eq known id)

abbrev pub differs : Option ℕ → ℕ → Bool
differs none n = false
differs (some known) n = not (known == n)

unfoldable pub assert_identity : PublicMessage → Method (Unit {0})
assert_identity m t =
    if differs_from (get m.sequence t.sequence_to_message_id) m.message_id
      || differs (get m.message_id t.message_id_to_sequence) m.sequence
    then (err message_identity_conflict, t)
    else (ok tt, t)

-- The new record of `#registerRecord`.
abbrev pub register : PublicMessage → Timeline → Timeline
register m t = record t {
  records = put m.message_id m t.records;
  message_id_to_sequence = put m.message_id m.sequence t.message_id_to_sequence;
  sequence_to_message_id = put m.sequence m.message_id t.sequence_to_message_id;
}

abbrev pub register_unless : Option PublicMessage → PublicMessage → Method PublicMessage
register_unless (some current) m t = (ok current, t)
register_unless none m t = (ok m, register m t)

unfoldable pub register_record : PublicMessage → Method PublicMessage
register_record m t = register_unless (get m.message_id t.records) m t

unfoldable pub remove_buffered : PublicMessage → Method (Unit {0})
remove_buffered m t =
    (ok tt, record t { buffered_by_sequence = remove m.sequence t.buffered_by_sequence })

unfoldable pub set_history : Option ℕ → Bool → Method (Unit {0})
set_history before_cursor has_more t =
    (ok tt, record t { history_before_cursor = before_cursor; has_more_before = has_more })

abbrev opt_eq : Option String → Option String → Bool
opt_eq none none = true
opt_eq (some a) (some b) = str_eq a b
opt_eq _ _ = false

-- The last part of `messagesEqual`. `content.type` has the one value "text".
abbrev pub contents_equal : Content → Content → Bool
contents_equal (deleted a) (deleted b) = str_eq a b
contents_equal (text s e) (text r f) = str_eq s r && opt_eq e f
contents_equal _ _ = false

unfoldable pub messages_equal : PublicMessage → PublicMessage → Bool
messages_equal l r =
    str_eq l.message_id r.message_id
    && (str_eq l.stream_id r.stream_id
        && (l.sequence == r.sequence
            && (str_eq l.sender_actor_id r.sender_actor_id
                && (str_eq l.created_at r.created_at
                    && (opt_eq l.sent_at_client r.sent_at_client
                        && contents_equal l.content r.content)))))

abbrev pub replace_record : Option PublicMessage → PublicMessage → Method (Unit {0})
replace_record none m t = (ok tt, t)
replace_record (some current) m t =
    if messages_equal current m
    then (ok tt, t)
    else (ok tt, record t { records = put m.message_id m t.records })
