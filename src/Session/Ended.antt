-- ===== src/Session/Ended.antt =====
-- session-model.ts: how `#runBootstrap` ends.
use wake_surfer.Common.{
  ℕ, String, Bool, true, false, not, Option, none, ◌≡◌, ◌≢◌, ◌⊎◌, Result, ok, err,
}
use wake_surfer.Values.{Value}
use wake_surfer.Timeline.{has_buffered_gap}
use wake_surfer.Session.{Thrown, TransportErrorCode, transport_error}
use wake_surfer.Session.Recovery.{RecoveryPhase, SessionState, Progress, finished, waiting}
use wake_surfer.Session.Saved.{IsSaved}

-- The phases for errors that the session expects.
abbrev pub is_expected : RecoveryPhase → Bool
is_expected RecoveryPhase.cancelled = true
is_expected RecoveryPhase.stream_unavailable = true
is_expected RecoveryPhase.invalid_cursor = true
is_expected RecoveryPhase.retryable_failure = true
is_expected _ = false

abbrev is_unexpected_code : TransportErrorCode → (retryable : Bool) → Bool
is_unexpected_code TransportErrorCode.stream_unavailable retryable = false
is_unexpected_code TransportErrorCode.invalid_cursor retryable = false
is_unexpected_code code retryable = not retryable

-- Neither an AbortError nor an error of the transport that an expected phase stands for.
abbrev pub is_unexpected : Thrown → Bool
is_unexpected (transport_error e) = is_unexpected_code e.code e.retryable
is_unexpected Thrown.abort_error = false
is_unexpected _ = true

module _ (stringify : Value → String) (parse : String → Option Value)
    (date_parse : String → Option ℕ) where
  -- The session is ready, and a cursor that it began with has led over every gap.
  abbrev pub HasCompleted : (cursor : Option ℕ) → SessionState → Type 0
  HasCompleted cursor t =
      (t.phase ≡ RecoveryPhase.ready)
      × (t.through_sequence ≡ none)
      × IsSaved stringify parse date_parse t
      × ((cursor ≡ none) ⊎ (has_buffered_gap t.timeline ≡ false))

  abbrev pub HasEnded : (cursor : Option ℕ) → Result Thrown Progress × SessionState → Type 0
  HasEnded cursor (ok finished, t) = HasCompleted cursor t ⊎ (is_expected t.phase ≡ true)
  HasEnded cursor (ok waiting, t) = (cursor ≢ none) × (t.phase ≡ RecoveryPhase.recovering)
  HasEnded cursor (err e, t) = (t.phase ≡ RecoveryPhase.protocol_failure) × (is_unexpected e ≡ true)

  -- What the part before the `catch` leaves.
  abbrev Leaves : (cursor : Option ℕ) → Progress → SessionState → Type 0
  Leaves cursor finished t = HasCompleted cursor t
  Leaves cursor waiting t = (cursor ≢ none) × (t.phase ≡ RecoveryPhase.recovering)
