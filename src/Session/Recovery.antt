-- ===== src/Session/Recovery.antt =====
-- session-model.ts and recovery-model.ts: a session loads the latest page of its stream, or recovers
-- the messages after its cursor. Every wait brings what happened meanwhile: calls of the timeline
-- model by others, and whether the session was cancelled. A run takes the waits one after the other;
-- when they are used up the session still waits.
use wake_surfer.Common.{
  ℕ, Bool, true, false, ◌&&◌, ◌||◌, List, Option, none, some, ltb, leb, if◌then◌else◌, Result, ok,
  err,
}
use wake_surfer.Common.Exec.{Exec, pure, throw}
use wake_surfer.Values.{Number, whole, is_safe_integer}
use wake_surfer.Contract.Responses.{SyncResponse}
use wake_surfer.Timeline
use wake_surfer.Timeline.{Timeline, has_buffered_gap, sync_cursor_mismatch, sync_no_progress}
use wake_surfer.Timeline.Runs.{Call}
use wake_surfer.Session.{
  TransportErrorCode, TransportError, Thrown, protocol_error, transport_error, RecoveryState, Cell,
}

pub data RecoveryPhase : Type 0 where
  idle loading_latest recovering recovery_pending ready stream_unavailable : RecoveryPhase
  invalid_cursor retryable_failure protocol_failure authentication_failure cancelled : RecoveryPhase

pub record SessionState : Type 0 where
  pub timeline : Timeline
  pub phase : RecoveryPhase
  pub through_sequence : Option ℕ
  pub cell : Cell

-- What the transport answers with.
pub data Reply (R : Type 0) : Type 0 where
  answered : (raw_utf8_byte_length : Number) → R → Reply R
  failed : Thrown → Reply R

-- A wait: the calls of others meanwhile, the answer, and whether the session is cancelled then.
pub record Wait (R : Type 0) : Type 0 where
  pub arrivals : List Call
  pub reply : R
  pub aborted : Bool

-- A round of the recovery: the wait for a page, and the one for a delay or for the event loop, which
-- may throw.
pub record Round : Type 0 where
  pub page : Wait (Reply SyncResponse)
  pub pause : Wait (Option Thrown)

-- A thrown value, and whether the session was cancelled when it was thrown.
pub record Failure : Type 0 where
  pub thrown : Thrown
  pub aborted : Bool

pub record Batch : Type 0 where
  pub pages : ℕ
  pub messages : ℕ
  pub bytes : ℕ

abbrev pub empty_batch : Batch
empty_batch = record { pages = 0; messages = 0; bytes = 0 }

-- Did a run come to its end?
pub data Progress : Type 0 where
  finished waiting : Progress

-- The end of a round: the recovery is complete, or another round follows.
pub data Step : Type 0 where
  complete : Step
  next_round : (aborted : Bool) → Batch → Step

abbrev pub set_phase : {E : Type 0} → RecoveryPhase → Exec SessionState E (Unit {0})
set_phase phase s = (ok tt, record s { phase = phase })

abbrev pub set_through_sequence : {E : Type 0} → Option ℕ → Exec SessionState E (Unit {0})
set_through_sequence through s = (ok tt, record s { through_sequence = through })

abbrev pub cancelled_error : Thrown
cancelled_error =
    transport_error
      (record { code = TransportErrorCode.cancelled; retry_after_ms = none; retryable = false })

abbrev pub assert_not_aborted : (aborted : Bool) → Exec SessionState Failure (Unit {0})
assert_not_aborted true = throw (record { thrown = cancelled_error; aborted = true })
assert_not_aborted false = pure tt

abbrev pub raise : {A : Type 0} → Thrown → (aborted : Bool) → Exec SessionState Failure A
raise e aborted = throw (record { thrown = e; aborted = aborted })

-- The length, which is a safe integer and not negative.
abbrev pub raw_length : Number → Option ℕ
raw_length (whole n) = if is_safe_integer (whole n) then some n else none
raw_length _ = none

abbrev pub positive_delay : Option Number → Bool
positive_delay (some (whole n)) = is_safe_integer (whole n) && ltb 0 n
positive_delay _ = false

abbrev pub is_rate_limited : Thrown → Option TransportError
is_rate_limited (transport_error e) = elim e.code [
  | TransportErrorCode.rate_limited ↦ some e
  | _ ↦ none
]
is_rate_limited _ = none

-- batchPages, batchMessages and batchBytes have reached a limit.
abbrev pub is_full : Batch → Bool
is_full b = leb 10 b.pages || (leb 500 b.messages || leb 524288 b.bytes)

abbrev pub to_stored_recovery_state : RecoveryPhase → RecoveryState
to_stored_recovery_state recovery_pending = RecoveryState.recovery_pending
to_stored_recovery_state _ = RecoveryState.idle

abbrev pub stored_state : RecoveryState → RecoveryPhase → RecoveryState
stored_state RecoveryState.recovery_pending phase = RecoveryState.recovery_pending
stored_state RecoveryState.idle phase = to_stored_recovery_state phase

abbrev pub timeline_result :
    (aborted : Bool)
    → SessionState
    → Result Timeline.Error (Unit {0}) × Timeline
    → Result Failure (Unit {0}) × SessionState
timeline_result aborted s (ok u, t) = (ok tt, record s { timeline = t })
timeline_result aborted s (err e, t) =
    (err (record { thrown = protocol_error e; aborted = aborted }), record s { timeline = t })

-- A method of the timeline in the session.
abbrev pub in_timeline :
    (aborted : Bool)
    → (Timeline → Result Timeline.Error (Unit {0}) × Timeline)
    → Exec SessionState Failure (Unit {0})
in_timeline aborted method s = timeline_result aborted s (method s.timeline)
