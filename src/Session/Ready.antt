-- ===== src/Session/Ready.antt =====
-- A recovery that is complete.
use wake_surfer.Common.{
  ℕ, String, Bool, true, false, List, [], ◌∷◌, Option, none, some, ◌≡◌, refl, Result, ok, err,
}
use wake_surfer.Common.Exec.{Exec, Yields, continue-Yields, continue, pure}
use wake_surfer.Values.{Value}
use wake_surfer.Contract.Responses.{SyncResponse}
use wake_surfer.Timeline.Apply.{apply_sync}
use wake_surfer.Session.{TransportError, RecoveryState}
use wake_surfer.Session.Recovery.{
  SessionState, Reply, answered, failed, Round, Failure, Batch, Progress, finished, waiting, Step,
  complete, next_round, assert_not_aborted, raw_length, positive_delay, is_rate_limited, is_full,
  in_timeline,
}
use wake_surfer.Session.Bootstrap.{
  persist_cursor, pause, retry_at, retry, check_through_sequence, end_unless_gap, pause_if_full,
  end_round, add_page, apply_page, take_reply, recover_round, recover_rounds,
}
use wake_surfer.Session.Saved.{IsSaved, IsReady, ReadyWhen, persist-IsSaved, end_unless_gap-Ready}

module _ (stringify : Value → String) (parse : String → Option Value)
    (date_parse : String → Option ℕ) where
  pub any-Yields : {A : Type 0} (p : Result Failure A × SessionState) → Yields (λ _ _. Unit {0}) p
  any-Yields (ok a, s) = tt
  any-Yields (err f, s) = tt

  -- Whatever comes before, the last part of a round decides.
  after-Ready :
      {A : Type 0} (p : Result Failure A × SessionState) (f : A → Exec SessionState Failure Step)
      → ((a : A) (s : SessionState) → Yields (ReadyWhen stringify parse date_parse) (f a s))
      → Yields (ReadyWhen stringify parse date_parse) (continue p.0 f p.1)
  after-Ready p f h =
      continue-Yields (λ _ _. Unit {0}) (ReadyWhen stringify parse date_parse) p f (any-Yields p)
        (λ a s _. h a s)

  end_round-Ready :
      (round : Round) (batch : Batch) (more : Bool) (s : SessionState)
      → Yields
          (ReadyWhen stringify parse date_parse)
          (end_round stringify parse date_parse round batch more s)
  end_round-Ready round batch false s =
      continue-Yields (λ _ t. IsSaved stringify parse date_parse t × (t.through_sequence ≡ none))
        (ReadyWhen stringify parse date_parse)
        (persist_cursor stringify parse date_parse round.page.aborted RecoveryState.idle
          (record s { through_sequence = none }))
        (λ _. end_unless_gap stringify parse date_parse round.page.aborted)
        (persist-IsSaved stringify parse date_parse round.page.aborted RecoveryState.idle
          (record s { through_sequence = none }) refl)
        (λ _ t r. end_unless_gap-Ready stringify parse date_parse round.page.aborted t r.0 r.1)
  end_round-Ready round batch true s =
      after-Ready
        (persist_cursor stringify parse date_parse round.page.aborted RecoveryState.idle s) _
        (λ _ t. full (is_full batch) t)
    where
      full :
          (b : Bool) (t : SessionState)
          → Yields
              (ReadyWhen stringify parse date_parse)
              (pause_if_full stringify parse date_parse round batch b t)
      full false t = tt
      full true t =
          after-Ready (pause stringify parse date_parse round.page.aborted round t) _
            (λ _ u. after-Ready (assert_not_aborted round.pause.aborted u) _ (λ _ v. tt))

  take_reply-Ready :
      (round : Round) (batch : Batch) (reply : Reply SyncResponse) (s : SessionState)
      → Yields
          (ReadyWhen stringify parse date_parse)
          (take_reply stringify parse date_parse round batch reply s)
  unfolding apply_page
  take_reply-Ready round batch (failed e) s = limited (is_rate_limited e)
    where
      delayed :
          (good : Bool)
          → Yields
              (ReadyWhen stringify parse date_parse)
              (retry_at stringify parse date_parse round batch good s)
      delayed false = tt
      delayed true =
          after-Ready (pause stringify parse date_parse round.page.aborted round s) _ (λ _ t. tt)

      limited :
          (found : Option TransportError)
          → Yields
              (ReadyWhen stringify parse date_parse)
              (retry stringify parse date_parse round batch e found s)
      limited none = tt
      limited (some t) = delayed (positive_delay t.retry_after_ms)
  take_reply-Ready round batch (answered bytes response) s =
      after-Ready (assert_not_aborted round.page.aborted s) _ (λ _ t. page (raw_length bytes) t)
    where
      page :
          (length : Option ℕ) (t : SessionState)
          → Yields
              (ReadyWhen stringify parse date_parse)
              (apply_page stringify parse date_parse round batch response length t)
      page none t = tt
      page (some n) t =
          after-Ready
            (check_through_sequence stringify parse date_parse round.page.aborted
              response.through_sequence t)
            _
            (λ _ u.
              after-Ready (in_timeline round.page.aborted (apply_sync date_parse response) u) _
                (λ _ v.
                  end_round-Ready round (add_page stringify parse date_parse batch response n)
                    response.has_more_after v))

  recover_round-Ready :
      (aborted : Bool) (batch : Batch) (round : Round) (s : SessionState)
      → Yields
          (ReadyWhen stringify parse date_parse)
          (recover_round stringify parse date_parse aborted batch round s)
  unfolding recover_round
  recover_round-Ready aborted batch round s =
      after-Ready (assert_not_aborted aborted s) _
        (λ _ t. take_reply-Ready round batch round.page.reply _)

  -- A recovery after the cursor comes to its end, in any number of rounds with any answers, waits and
  -- arrivals, only where the session is ready: its phase is `ready`, the timeline has no buffered
  -- message beyond a gap, no watermark is left, and where the timeline has a cursor the storage holds
  -- it, without a watermark.
  pub recover_rounds-IsReady :
      (aborted : Bool) (batch : Batch) (rounds : List Round) (s : SessionState)
      → (recover_rounds stringify parse date_parse aborted batch rounds s).0 ≡ ok finished
      → IsReady stringify parse date_parse
          (recover_rounds stringify parse date_parse aborted batch rounds s).1
  unfolding recover_rounds
  recover_rounds-IsReady aborted batch [] s h = no_rounds aborted h
    where
      no_rounds :
          (b : Bool)
          → (continue (assert_not_aborted b s).0 (λ _. pure waiting) (assert_not_aborted b s).1).0
            ≡ ok finished
          → IsReady stringify parse date_parse
              (continue {E = Failure}
                (assert_not_aborted b s).0
                (λ _. pure waiting)
                (assert_not_aborted b s).1).1
      no_rounds true e = absurd cc
      no_rounds false e = absurd cc
  recover_rounds-IsReady aborted batch (round ∷ rounds) s h =
      at (recover_round stringify parse date_parse aborted batch round s)
        (recover_round-Ready aborted batch round s) h
        (λ b next t. recover_rounds-IsReady b next rounds t)
    where
      rest : Step → Exec SessionState Failure Progress
      rest step = elim step [
        | complete ↦ pure finished
        | next_round b next ↦ recover_rounds stringify parse date_parse b next rounds
      ]

      at :
          (p : Result Failure Step × SessionState)
          → Yields (ReadyWhen stringify parse date_parse) p
          → (continue p.0 rest p.1).0 ≡ ok finished
          → ((b : Bool) (next : Batch) (t : SessionState)
              → (recover_rounds stringify parse date_parse b next rounds t).0 ≡ ok finished
              → IsReady stringify parse date_parse
                  (recover_rounds stringify parse date_parse b next rounds t).1)
          → IsReady stringify parse date_parse (continue p.0 rest p.1).1
      at (err f, t) r e ih = absurd cc
      at (ok complete, t) r e ih = r
      at (ok (next_round b next), t) r e ih = ih b next t e
