-- ===== src/Session/Saved.antt =====
-- What a session has stored when a round of its recovery ends.
use wake_surfer.Common.{
  ℕ, String, Bool, true, false, Option, none, some, ◌≡◌, refl, ap, ◌∙◌, Result, ok, err,
}
use wake_surfer.Common.Exec.{Yields}
use wake_surfer.Values.{Value}
use wake_surfer.Timeline.{has_buffered_gap}
use wake_surfer.Session.{
  Thrown, RecoveryState, StoredCursor, is_stored_cursor, to_value, Cell, save, save_if,
}
use wake_surfer.Session.Recovery.{
  RecoveryPhase, SessionState, Step, complete, next_round, stored_state,
}
use wake_surfer.Session.Bootstrap.{
  persist_result, persist_at, persist_cursor, ready_unless, end_unless_gap,
}

module _ (stringify : Value → String) (parse : String → Option Value)
    (date_parse : String → Option ℕ) where
  -- The cursor of the timeline is what the storage holds, without a watermark.
  abbrev pub IsSaved : SessionState → Type 0
  IsSaved s =
      (cursor : ℕ)
      → s.timeline.delivery_sync_cursor ≡ some cursor
      → (state : RecoveryState) × (s.cell
          ≡ some (
              stringify (
                to_value (record {
                  delivery_sync_cursor = cursor;
                  through_sequence = none;
                  recovery_state = state;
                }))))

  pub record IsReady (s : SessionState) : Type 0 where
    pub phase : s.phase ≡ RecoveryPhase.ready
    pub no_gap : has_buffered_gap s.timeline ≡ false
    pub no_watermark : s.through_sequence ≡ none
    pub saved : IsSaved s

  -- Where a round says that the recovery is complete, the session is ready.
  abbrev pub ReadyWhen : Step → SessionState → Type 0
  ReadyWhen complete s = IsReady s
  ReadyWhen (next_round aborted batch) s = Unit

  save-Yields :
      (c : StoredCursor) (cell : Cell)
      → Yields (λ _ after. after ≡ some (stringify (to_value c))) (save stringify parse c cell)
  unfolding save
  save-Yields c cell = at (is_stored_cursor (to_value c))
    where
      at :
          (valid : Option StoredCursor)
          → Yields
              (λ _ after. after ≡ some (stringify (to_value c)))
              (save_if stringify parse c valid cell)
      at none = tt
      at (some v) = refl

  pub persist-IsSaved :
      (aborted : Bool) (state : RecoveryState) (s : SessionState)
      → s.through_sequence ≡ none
      → Yields
          (λ _ t. IsSaved t × (t.through_sequence ≡ none))
          (persist_cursor stringify parse date_parse aborted state s)
  unfolding persist_cursor
  persist-IsSaved aborted state s none_yet = at s.timeline.delivery_sync_cursor refl
    where
      saved :
          (cursor : ℕ)
          → s.timeline.delivery_sync_cursor ≡ some cursor
          → (p : Result Thrown (Unit {0}) × Cell)
          → Yields
              (λ _ after.
                after
                ≡ some (
                    stringify (
                      to_value (record {
                        delivery_sync_cursor = cursor;
                        through_sequence = s.through_sequence;
                        recovery_state = stored_state state s.phase;
                      }))))
              p
          → Yields
              (λ _ t. IsSaved t × (t.through_sequence ≡ none))
              (persist_result stringify parse date_parse aborted s p)
      saved cursor e (err x, cell) h = tt
      saved cursor e (ok u, cell) h = (
        λ other f.
            let same : cursor ≡ other = cc in
            (
              stored_state state s.phase,
              h
                  ∙ ap
                      (λ (w : Option ℕ). some (
                        stringify (
                          to_value (record {
                            delivery_sync_cursor = cursor;
                            through_sequence = w;
                            recovery_state = stored_state state s.phase;
                          }))))
                      none_yet
                  ∙ ap
                      (λ (c : ℕ). some (
                        stringify (
                          to_value (record {
                            delivery_sync_cursor = c;
                            through_sequence = none;
                            recovery_state = stored_state state s.phase;
                          }))))
                      same,
            ),
        none_yet,
      )

      at :
          (cursor : Option ℕ)
          → s.timeline.delivery_sync_cursor ≡ cursor
          → Yields
              (λ _ t. IsSaved t × (t.through_sequence ≡ none))
              (persist_at stringify parse date_parse aborted state cursor s)
      at none e = (λ cursor f. absurd cc, none_yet)
      at (some cursor) e =
          saved cursor e
            (save stringify parse
              (record {
                delivery_sync_cursor = cursor;
                through_sequence = s.through_sequence;
                recovery_state = stored_state state s.phase;
              })
              s.cell)
            (save-Yields _ s.cell)

  pub end_unless_gap-Ready :
      (aborted : Bool) (s : SessionState)
      → IsSaved s
      → s.through_sequence ≡ none
      → Yields ReadyWhen (end_unless_gap stringify parse date_parse aborted s)
  end_unless_gap-Ready aborted s saved no_watermark = at (has_buffered_gap s.timeline) refl
    where
      at :
          (gap : Bool)
          → has_buffered_gap s.timeline ≡ gap
          → Yields ReadyWhen (ready_unless stringify parse date_parse aborted gap s)
      at true e = tt
      at false e = record { phase = refl; no_gap = e; no_watermark = no_watermark; saved = saved }
