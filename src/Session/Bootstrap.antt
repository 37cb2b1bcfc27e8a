-- ===== src/Session/Bootstrap.antt =====
-- session-model.ts: #recoverAfterCursor, #persistCursor and #runBootstrap.
use wake_surfer.Common.{
  ℕ, suc, ◌+◌, String, Bool, true, false, List, [], ◌∷◌, Option, none, some, ◌==◌, if◌then◌else◌,
  Result, ok, err, length,
}
use wake_surfer.Common.Exec.{Exec, pure, ◌>>=◌, ◌>>◌}
use wake_surfer.Values.{Value}
use wake_surfer.Contract.Responses.{LatestResponse, SyncResponse}
use wake_surfer.Timeline.{has_buffered_gap, sync_cursor_mismatch, sync_no_progress}
use wake_surfer.Timeline.Apply.{apply_latest, apply_sync}
use wake_surfer.Timeline.Runs.{run}
use wake_surfer.Session.{
  TransportErrorCode, TransportError, Thrown, protocol_error, transport_error, type_error,
  abort_error, RecoveryState, Cell, save,
}
use wake_surfer.Session.Recovery.{
  RecoveryPhase, SessionState, Reply, answered, failed, Wait, Round, Failure, Batch, empty_batch,
  Progress, finished, waiting, Step, complete, next_round, set_phase, set_through_sequence,
  assert_not_aborted, raise, raw_length, positive_delay, is_rate_limited, is_full, stored_state,
  in_timeline,
}

module _ (stringify : Value → String) (parse : String → Option Value)
    (date_parse : String → Option ℕ) where
  -- What happens in a wait: calls of the timeline, and `cancel`, which sets the phase.
  abbrev pub suspend : {R : Type 0} → Wait R → Exec SessionState Failure (Unit {0})
  suspend wait s = (
    ok tt,
    record s {
      timeline = run date_parse wait.arrivals s.timeline;
      phase = if wait.aborted then RecoveryPhase.cancelled else s.phase;
    },
  )

  abbrev pub persist_result :
      (aborted : Bool)
      → SessionState
      → Result Thrown (Unit {0}) × Cell
      → Result Failure (Unit {0}) × SessionState
  persist_result aborted s (ok u, cell) = (ok tt, record s { cell = cell })
  persist_result aborted s (err e, cell) =
      (err (record { thrown = e; aborted = aborted }), record s { cell = cell })

  abbrev pub persist_at :
      (aborted : Bool) → RecoveryState → Option ℕ → Exec SessionState Failure (Unit {0})
  persist_at aborted state none s = (ok tt, s)
  persist_at aborted state (some cursor) s = persist_result aborted s (
      save stringify parse
        (record {
          delivery_sync_cursor = cursor;
          through_sequence = s.through_sequence;
          recovery_state = stored_state state s.phase;
        })
        s.cell)

  unfoldable pub persist_cursor :
      (aborted : Bool) → RecoveryState → Exec SessionState Failure (Unit {0})
  persist_cursor aborted state s = persist_at aborted state s.timeline.delivery_sync_cursor s

  abbrev pub pause_result : Option Thrown → (aborted : Bool) → Exec SessionState Failure (Unit {0})
  pause_result none aborted = pure tt
  pause_result (some e) aborted = raise e aborted

  -- A delay, or the turn of the event loop.
  abbrev pub pause : (aborted : Bool) → Round → Exec SessionState Failure (Unit {0})
  pause aborted round = do
    set_phase RecoveryPhase.recovery_pending
    persist_cursor aborted RecoveryState.recovery_pending
    suspend round.pause
    pause_result round.pause.reply round.pause.aborted

  abbrev pub retry_at : Round → Batch → Bool → Exec SessionState Failure Step
  retry_at round batch false = raise (protocol_error sync_no_progress) round.page.aborted
  retry_at round batch true = do
    pause round.page.aborted round
    set_phase RecoveryPhase.recovering
    pure (next_round round.pause.aborted batch)

  -- The transport has thrown.
  abbrev pub retry : Round → Batch → Thrown → Option TransportError → Exec SessionState Failure Step
  retry round batch e none = raise e round.page.aborted
  retry round batch e (some limited) = retry_at round batch (positive_delay limited.retry_after_ms)

  -- The watermark of the page: kept, if there is none yet.
  abbrev pub check_through : (aborted : Bool) → ℕ → Option ℕ → Exec SessionState Failure (Unit {0})
  check_through aborted through none = set_through_sequence (some through)
  check_through aborted through (some known) =
      if known == through then pure tt else raise (protocol_error sync_cursor_mismatch) aborted

  abbrev pub check_through_sequence : (aborted : Bool) → ℕ → Exec SessionState Failure (Unit {0})
  check_through_sequence aborted through s = check_through aborted through s.through_sequence s

  abbrev pub ready_unless : (aborted : Bool) → (gap : Bool) → Exec SessionState Failure Step
  ready_unless aborted true = pure (next_round aborted empty_batch)
  ready_unless aborted false = set_phase RecoveryPhase.ready >> pure complete

  abbrev pub end_unless_gap : (aborted : Bool) → Exec SessionState Failure Step
  end_unless_gap aborted s = ready_unless aborted (has_buffered_gap s.timeline) s

  abbrev pub pause_if_full : Round → Batch → Bool → Exec SessionState Failure Step
  pause_if_full round batch false = pure (next_round round.page.aborted batch)
  pause_if_full round batch true = do
    pause round.page.aborted round
    assert_not_aborted round.pause.aborted
    set_phase RecoveryPhase.recovering
    pure (next_round round.pause.aborted empty_batch)

  -- The end of a round: with `hasMoreAfter`, and without.
  abbrev pub end_round : Round → Batch → (has_more : Bool) → Exec SessionState Failure Step
  end_round round batch false = do
    set_through_sequence none
    persist_cursor round.page.aborted RecoveryState.idle
    end_unless_gap round.page.aborted
  end_round round batch true = do
    persist_cursor round.page.aborted RecoveryState.idle
    pause_if_full round batch (is_full batch)

  abbrev pub add_page : Batch → SyncResponse → (bytes : ℕ) → Batch
  add_page batch response bytes = record {
    pages = suc batch.pages;
    messages = batch.messages + length response.messages;
    bytes = batch.bytes + bytes;
  }

  unfoldable pub apply_page :
      Round → Batch → SyncResponse → Option ℕ → Exec SessionState Failure Step
  unfolding persist_cursor
  apply_page round batch response none = raise type_error round.page.aborted
  apply_page round batch response (some bytes) = do
    check_through_sequence round.page.aborted response.through_sequence
    in_timeline round.page.aborted (apply_sync date_parse response)
    end_round round (add_page batch response bytes) response.has_more_after

  abbrev pub take_reply : Round → Batch → Reply SyncResponse → Exec SessionState Failure Step
  take_reply round batch (failed e) = retry round batch e (is_rate_limited e)
  take_reply round batch (answered bytes response) =
      assert_not_aborted round.page.aborted >> apply_page round batch response (raw_length bytes)

  -- A round of the loop of #recoverAfterCursor.
  unfoldable pub recover_round : (aborted : Bool) → Batch → Round → Exec SessionState Failure Step
  unfolding apply_page
  recover_round aborted batch round = do
    assert_not_aborted aborted
    suspend round.page
    take_reply round batch round.page.reply

  unfoldable pub recover_rounds :
      (aborted : Bool) → Batch → List Round → Exec SessionState Failure Progress
  unfolding recover_round
  recover_rounds aborted batch [] = assert_not_aborted aborted >> pure waiting
  recover_rounds aborted batch (round ∷ rounds) = recover_round aborted batch round >>= λ step.
      elim step [
        | complete ↦ pure finished
        | next_round aborted next ↦ recover_rounds aborted next rounds
      ]

  unfoldable pub recover_after_cursor : List Round → Exec SessionState Failure Progress
  unfolding recover_rounds
  recover_after_cursor rounds =
      set_phase RecoveryPhase.recovering >> recover_rounds false empty_batch rounds

  abbrev pub apply_latest_page :
      (aborted : Bool) → LatestResponse → Option ℕ → Exec SessionState Failure Progress
  apply_latest_page aborted response none = raise type_error aborted
  apply_latest_page aborted response (some bytes) = do
    in_timeline aborted (apply_latest date_parse response)
    set_through_sequence none
    persist_cursor aborted RecoveryState.idle
    set_phase RecoveryPhase.ready
    pure finished

  abbrev pub take_latest :
      (aborted : Bool) → Reply LatestResponse → Exec SessionState Failure Progress
  take_latest aborted (failed e) = raise e aborted
  take_latest aborted (answered bytes response) =
      assert_not_aborted aborted >> apply_latest_page aborted response (raw_length bytes)

  -- The wait for the latest page, or none while the session still waits.
  abbrev pub load_latest : Option (Wait (Reply LatestResponse)) → Exec SessionState Failure Progress
  load_latest none = set_phase RecoveryPhase.loading_latest >> pure waiting
  load_latest (some wait) = do
    set_phase RecoveryPhase.loading_latest
    suspend wait
    take_latest wait.aborted wait.reply

  abbrev pub start :
      Option (Wait (Reply LatestResponse))
      → List Round
      → Option ℕ
      → Exec SessionState Failure Progress
  start latest rounds none = load_latest latest
  start latest rounds (some cursor) = recover_after_cursor rounds

  -- The phase for an error of the transport, or none where it is thrown on.
  abbrev pub transport_phase : TransportErrorCode → (retryable : Bool) → Option RecoveryPhase
  transport_phase TransportErrorCode.stream_unavailable retryable =
      some RecoveryPhase.stream_unavailable
  transport_phase TransportErrorCode.invalid_cursor retryable = some RecoveryPhase.invalid_cursor
  transport_phase code true = some RecoveryPhase.retryable_failure
  transport_phase code false = none

  abbrev pub failure_phase : Thrown → Option RecoveryPhase
  failure_phase abort_error = some RecoveryPhase.cancelled
  failure_phase (transport_error e) = transport_phase e.code e.retryable
  failure_phase _ = none

  abbrev pub end_in : Thrown → Option RecoveryPhase → Exec SessionState Thrown Progress
  end_in e none s = (err e, record s { phase = RecoveryPhase.protocol_failure })
  end_in e (some phase) s = (ok finished, record s { phase = phase })

  -- The `catch` of #runBootstrap.
  abbrev pub catch_failure :
      Result Failure Progress × SessionState → Result Thrown Progress × SessionState
  catch_failure (ok progress, s) = (ok progress, s)
  catch_failure (err f, s) =
      end_in f.thrown (if f.aborted then some RecoveryPhase.cancelled else failure_phase f.thrown) s

  unfoldable pub run_bootstrap :
      Option (Wait (Reply LatestResponse)) → List Round → Exec SessionState Thrown Progress
  unfolding recover_after_cursor persist_cursor
  run_bootstrap latest rounds s =
      catch_failure (start latest rounds s.timeline.delivery_sync_cursor s)
