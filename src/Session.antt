-- ===== src/Session.antt =====
-- packages/realtime-chat-stream-messages-client/src: cursor-storage.ts, the place where the cursor of
-- a stream is kept between visits. `JSON.stringify` and `JSON.parse` belong to the JavaScript engine:
-- parameters. The cell is the one entry of the key-value storage that the cursor's key names.
pub mod Recovery
pub mod Bootstrap
pub mod Waits
pub mod Ended
pub mod Stored
pub mod Saved
pub mod Ready
mod Tests
use wake_surfer.Common.{
  ℕ, String, Bool, true, false, ◌&&◌, Option, none, some, leb, ◌==◌, if◌then◌else◌, Result, ok, err,
}
use wake_surfer.Common.Exec.{Exec}
use wake_surfer.Timeline
use wake_surfer.Values.{
  Value, null, Number, whole, number, string, object, end, field, is_string, count_fields,
  get_field, has_field, is_safe_integer,
}

-- StreamMessagesTransportErrorCode
pub data TransportErrorCode : Type 0 where
  stream_unavailable invalid_cursor bad_request rate_limited : TransportErrorCode
  stream_messages_unavailable protocol_failure session_not_ready ticket_rejected :
      TransportErrorCode
  socket_closed stale_response timeout cancelled : TransportErrorCode

pub record TransportError : Type 0 where
  pub code : TransportErrorCode
  pub retry_after_ms : Option Number
  pub retryable : Bool

-- What the session throws or what reaches it: a protocol error, an error of the transport, a
-- TypeError, an AbortError, or anything else.
pub data Thrown : Type 0 where
  protocol_error : Timeline.Error → Thrown
  transport_error : TransportError → Thrown
  type_error abort_error unknown_error : Thrown

pub data RecoveryState : Type 0 where
  idle recovery_pending : RecoveryState

pub record StoredCursor : Type 0 where
  pub delivery_sync_cursor : ℕ
  pub through_sequence : Option ℕ
  pub recovery_state : RecoveryState

abbrev pub cursor_of : Value → Option ℕ
cursor_of (number (whole n)) = if is_safe_integer (whole n) then some n else none
cursor_of _ = none

-- A watermark is no smaller than the cursor.
abbrev pub through_of : (cursor : ℕ) → Value → Option (Option ℕ)
through_of cursor null = some none
through_of cursor (number (whole n)) =
    if is_safe_integer (whole n) && leb cursor n then some (some n) else none
through_of cursor _ = none

abbrev pub state_of : Value → Option RecoveryState
state_of v =
    if is_string v "idle"
    then some idle
    else if is_string v "recovery_pending"
    then some recovery_pending
    else none

abbrev pub stored_cursor :
    Option ℕ → (ℕ → Option (Option ℕ)) → Option RecoveryState → Option StoredCursor
stored_cursor none through state = none
stored_cursor (some cursor) through none = none
stored_cursor (some cursor) through (some state) = elim (through cursor) [
  | none ↦ none
  | some t ↦
      some (record { delivery_sync_cursor = cursor; through_sequence = t; recovery_state = state })
]

-- isStoredCursor, with the value that it admits.
unfoldable pub is_stored_cursor : Value → Option StoredCursor
is_stored_cursor (object fs) =
    if (count_fields fs == 3)
      && (has_field "deliverySyncCursor" fs
          && (has_field "recoveryState" fs && has_field "throughSequence" fs))
    then stored_cursor (cursor_of (get_field "deliverySyncCursor" fs))
        (λ cursor. through_of cursor (get_field "throughSequence" fs))
        (state_of (get_field "recoveryState" fs))
    else none
is_stored_cursor _ = none

abbrev pub state_name : RecoveryState → String
state_name idle = "idle"
state_name recovery_pending = "recovery_pending"

abbrev pub nullable : Option ℕ → Value
nullable none = null
nullable (some n) = number (whole n)

-- The object that `save` turns into JSON.
abbrev pub to_value : StoredCursor → Value
to_value c = object (
    field "deliverySyncCursor" (number (whole c.delivery_sync_cursor)) (
      field "throughSequence" (nullable c.through_sequence)
        (field "recoveryState" (string (state_name c.recovery_state)) end)))

-- The text under the key.
abbrev pub Cell : Type 0
Cell = Option String

module _ (stringify : Value → String) (parse : String → Option Value) where
  abbrev pub load_cursor : (raw : String) → Option StoredCursor → Option StoredCursor × Cell
  load_cursor raw none = (none, none)
  load_cursor raw (some c) = (some c, some raw)

  abbrev pub load_parsed : (raw : String) → Option Value → Option StoredCursor × Cell
  load_parsed raw none = (none, none)
  load_parsed raw (some v) = load_cursor raw (is_stored_cursor v)

  -- An entry that cannot be read is removed. `parse` is none where JSON.parse throws.
  unfoldable pub load : Cell → Option StoredCursor × Cell
  load none = (none, none)
  load (some raw) = load_parsed raw (parse raw)

  abbrev pub save_if : StoredCursor → Option StoredCursor → Exec Cell Thrown (Unit {0})
  save_if c none cell = (err type_error, cell)
  save_if c (some valid) cell = (ok tt, some (stringify (to_value c)))

  unfoldable pub save : StoredCursor → Exec Cell Thrown (Unit {0})
  save c cell = save_if c (is_stored_cursor (to_value c)) cell
