-- ===== src/Session/Waits.antt =====
-- session-model.ts: the phase in which a recovery waits for its next page.
use wake_surfer.Common.{
  ℕ, String, Bool, true, false, List, [], ◌∷◌, Option, none, some, ◌≡◌, refl, ◌∙◌, inl, inr, Result,
  ok, err, Bool-cases, ◌==◌,
}
use wake_surfer.Common.Exec.{Exec, Yields, continue-Yields, continue, pure}
use wake_surfer.Values.{Value}
use wake_surfer.Contract.Responses.{SyncResponse}
use wake_surfer.Timeline
use wake_surfer.Timeline.{Timeline, has_buffered_gap}
use wake_surfer.Timeline.Apply.{apply_sync}
use wake_surfer.Session.{Thrown, TransportError, RecoveryState, Cell, save}
use wake_surfer.Session.Recovery.{
  RecoveryPhase, SessionState, Reply, answered, failed, Round, Failure, Batch, Progress, finished,
  waiting, Step, complete, next_round, assert_not_aborted, raw_length, positive_delay,
  is_rate_limited, is_full, in_timeline, timeline_result,
}
use wake_surfer.Session.Bootstrap.{
  persist_result, persist_at, persist_cursor, pause, retry_at, retry, check_through,
  check_through_sequence, ready_unless, pause_if_full, end_round, add_page, apply_page, take_reply,
  recover_round, recover_rounds,
}
use wake_surfer.Session.Ready.{any-Yields}

-- The phase is the one before.
abbrev SamePhase : {A : Type 0} → SessionState → A → SessionState → Type 0
SamePhase s a t = t.phase ≡ s.phase

-- Another round begins in the phase `recovering`.
abbrev RecoversWhen : Step → SessionState → Type 0
RecoversWhen complete t = Unit
RecoversWhen (next_round aborted batch) t = t.phase ≡ RecoveryPhase.recovering

assert_not_aborted-passes :
    (aborted : Bool) (s : SessionState)
    → Yields (λ _ t. (aborted ≡ false) × (t.phase ≡ s.phase)) (assert_not_aborted aborted s)
assert_not_aborted-passes true s = tt
assert_not_aborted-passes false s = (refl, refl)

in_timeline-SamePhase :
    (aborted : Bool) (method : Timeline → Result Timeline.Error (Unit {0}) × Timeline)
    (s : SessionState)
    → Yields (SamePhase s) (in_timeline aborted method s)
in_timeline-SamePhase aborted method s = at (method s.timeline)
  where
    at :
        (p : Result Timeline.Error (Unit {0}) × Timeline)
        → Yields (SamePhase s) (timeline_result aborted s p)
    at (ok u, t) = refl
    at (err e, t) = tt

module _ (stringify : Value → String) (parse : String → Option Value)
    (date_parse : String → Option ℕ) where
  persist-SamePhase :
      (aborted : Bool) (state : RecoveryState) (s : SessionState)
      → Yields (SamePhase s) (persist_cursor stringify parse date_parse aborted state s)
  unfolding persist_cursor
  persist-SamePhase aborted state s = at s.timeline.delivery_sync_cursor
    where
      result :
          (p : Result Thrown (Unit {0}) × Cell)
          → Yields (SamePhase s) (persist_result stringify parse date_parse aborted s p)
      result (ok u, cell) = refl
      result (err e, cell) = tt

      at :
          (cursor : Option ℕ)
          → Yields (SamePhase s) (persist_at stringify parse date_parse aborted state cursor s)
      at none = refl
      at (some cursor) = result (save stringify parse _ s.cell)

  check_through-SamePhase :
      (aborted : Bool) (through : ℕ) (known : Option ℕ) (s : SessionState)
      → Yields (SamePhase s) (check_through stringify parse date_parse aborted through known s)
  check_through-SamePhase aborted through none s = refl
  check_through-SamePhase aborted through (some known) s = elim (Bool-cases (known == through)) [
    | inl same ↦ rw same refl
    | inr differs ↦ rw differs tt
  ]

  -- Whatever comes before, the last part decides.
  after :
      {A : Type 0} (p : Result Failure A × SessionState) (f : A → Exec SessionState Failure Step)
      → ((a : A) (s : SessionState) → Yields RecoversWhen (f a s))
      → Yields RecoversWhen (continue p.0 f p.1)
  after p f h =
      continue-Yields (λ _ _. Unit {0}) RecoversWhen p f (any-Yields stringify parse date_parse p)
        (λ a s _. h a s)

  -- What comes before keeps the phase, which is `recovering`.
  after_same :
      {A : Type 0} (s : SessionState) (p : Result Failure A × SessionState)
      (f : A → Exec SessionState Failure Step)
      → s.phase ≡ RecoveryPhase.recovering
      → Yields (SamePhase s) p
      → ((a : A) (t : SessionState)
          → t.phase ≡ RecoveryPhase.recovering
          → Yields RecoversWhen (f a t))
      → Yields RecoversWhen (continue p.0 f p.1)
  after_same s p f e same h =
      continue-Yields (SamePhase s) RecoversWhen p f same (λ a t k. h a t (k ∙ e))

  end_round-Recovers :
      (round : Round) (batch : Batch) (more : Bool) (s : SessionState)
      → s.phase ≡ RecoveryPhase.recovering
      → Yields RecoversWhen (end_round stringify parse date_parse round batch more s)
  end_round-Recovers round batch false s e =
      after_same (record s { through_sequence = none })
        (persist_cursor stringify parse date_parse round.page.aborted RecoveryState.idle
          (record s { through_sequence = none }))
        _ e
        (persist-SamePhase round.page.aborted RecoveryState.idle
          (record s { through_sequence = none }))
        (λ _ t k. gap (has_buffered_gap t.timeline) t k)
    where
      gap :
          (b : Bool) (t : SessionState)
          → t.phase ≡ RecoveryPhase.recovering
          → Yields RecoversWhen (ready_unless stringify parse date_parse round.page.aborted b t)
      gap true t k = k
      gap false t k = tt
  end_round-Recovers round batch true s e =
      after_same s
        (persist_cursor stringify parse date_parse round.page.aborted RecoveryState.idle s) _ e
        (persist-SamePhase round.page.aborted RecoveryState.idle s)
        (λ _ t k. full (is_full batch) t k)
    where
      full :
          (b : Bool) (t : SessionState)
          → t.phase ≡ RecoveryPhase.recovering
          → Yields RecoversWhen (pause_if_full stringify parse date_parse round batch b t)
      full false t k = k
      full true t k =
          after (pause stringify parse date_parse round.page.aborted round t) _
            (λ _ u. after (assert_not_aborted round.pause.aborted u) _ (λ _ v. refl))

  apply_page-Recovers :
      (round : Round) (batch : Batch) (response : SyncResponse) (length : Option ℕ)
      (s : SessionState)
      → s.phase ≡ RecoveryPhase.recovering
      → Yields RecoversWhen (apply_page stringify parse date_parse round batch response length s)
  unfolding apply_page
  apply_page-Recovers round batch response none s e = tt
  apply_page-Recovers round batch response (some n) s e =
      after_same s
        (check_through_sequence stringify parse date_parse round.page.aborted
          response.through_sequence s)
        _ e
        (check_through-SamePhase round.page.aborted response.through_sequence s.through_sequence s)
        (λ _ t k.
          after_same t (in_timeline round.page.aborted (apply_sync date_parse response) t) _ k
            (in_timeline-SamePhase round.page.aborted (apply_sync date_parse response) t)
            (λ _ u l.
              end_round-Recovers round (add_page stringify parse date_parse batch response n)
                response.has_more_after u l))

  take_reply-Recovers :
      (round : Round) (batch : Batch) (reply : Reply SyncResponse) (s : SessionState)
      → (round.page.aborted ≡ false → s.phase ≡ RecoveryPhase.recovering)
      → Yields RecoversWhen (take_reply stringify parse date_parse round batch reply s)
  take_reply-Recovers round batch (answered bytes response) s e =
      continue-Yields (λ _ t. (round.page.aborted ≡ false) × (t.phase ≡ s.phase)) RecoversWhen
        (assert_not_aborted round.page.aborted s) _ (assert_not_aborted-passes round.page.aborted s)
        (λ _ t k. apply_page-Recovers round batch response (raw_length bytes) t (k.1 ∙ e (k.0)))
  take_reply-Recovers round batch (failed x) s e = limited (is_rate_limited x)
    where
      delayed :
          (good : Bool)
          → Yields RecoversWhen (retry_at stringify parse date_parse round batch good s)
      delayed false = tt
      delayed true =
          after (pause stringify parse date_parse round.page.aborted round s) _ (λ _ t. refl)

      limited :
          (found : Option TransportError)
          → Yields RecoversWhen (retry stringify parse date_parse round batch x found s)
      limited none = tt
      limited (some t) = delayed (positive_delay t.retry_after_ms)

  recover_round-Recovers :
      (aborted : Bool) (batch : Batch) (round : Round) (s : SessionState)
      → s.phase ≡ RecoveryPhase.recovering
      → Yields RecoversWhen (recover_round stringify parse date_parse aborted batch round s)
  unfolding recover_round
  recover_round-Recovers aborted batch round s e =
      continue-Yields (λ _ t. (aborted ≡ false) × (t.phase ≡ s.phase)) RecoversWhen
        (assert_not_aborted aborted s) _ (assert_not_aborted-passes aborted s)
        (λ _ t k. take_reply-Recovers round batch round.page.reply _ (λ h. rw h (k.1 ∙ e)))

  pub recover_rounds-waits :
      (aborted : Bool) (batch : Batch) (rounds : List Round) (s : SessionState)
      → s.phase ≡ RecoveryPhase.recovering
      → Yields
          (λ progress t. progress ≡ waiting → t.phase ≡ RecoveryPhase.recovering)
          (recover_rounds stringify parse date_parse aborted batch rounds s)
  unfolding recover_rounds
  recover_rounds-waits aborted batch [] s e =
      continue-Yields (λ _ t. (aborted ≡ false) × (t.phase ≡ s.phase)) _
        (assert_not_aborted aborted s) _ (assert_not_aborted-passes aborted s) (λ _ t k h. k.1 ∙ e)
  recover_rounds-waits aborted batch (round ∷ rounds) s e =
      continue-Yields RecoversWhen _
        (recover_round stringify parse date_parse aborted batch round s) _
        (recover_round-Recovers aborted batch round s e)
        (λ step t k. at step t k (λ b next. recover_rounds-waits b next rounds t))
    where
      rest : Step → Exec SessionState Failure Progress
      rest step = elim step [
        | complete ↦ pure finished
        | next_round b next ↦ recover_rounds stringify parse date_parse b next rounds
      ]

      at :
          (step : Step) (t : SessionState)
          → RecoversWhen step t
          → ((b : Bool) (next : Batch)
              → t.phase ≡ RecoveryPhase.recovering
              → Yields
                  (λ progress u. progress ≡ waiting → u.phase ≡ RecoveryPhase.recovering)
                  (recover_rounds stringify parse date_parse b next rounds t))
          → Yields
              (λ progress u. progress ≡ waiting → u.phase ≡ RecoveryPhase.recovering)
              (rest step t)
      at complete t k ih = λ h. cc
      at (next_round b next) t k ih = ih b next k
