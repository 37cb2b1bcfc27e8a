-- ===== src/Timeline/Live.antt =====
-- `applyLive` on a model that calls of the public methods have made.
use wake_surfer.Common.{
  ℕ, zero, suc, ◌+◌, ◌-◌, ◌≤◌, ◌<◌, ◌≡◌, ◌≢◌, inl, inr, refl, ap, sym, ◌∙◌, subst, String, true,
  false, List, Option, none, some, arith, ok, Bool-cases, ◌||◌, All, range_from, leb, ◌==◌,
  if◌then◌else◌,
}
use wake_surfer.Common.Dict.{get, put, has, text_key, nat_key}
use wake_surfer.Contract.{MessageTarget, PublicMessage}
use wake_surfer.Timeline.{Timeline}
use wake_surfer.Timeline.Insert.{insert_loaded_message, buffer_message, keep_aside}
use wake_surfer.Timeline.Apply.{deliver, apply_live}
use wake_surfer.Timeline.Consistent.{IsOurs, IsConsistent}
use wake_surfer.Timeline.Consistent.Steps.{IsAgreed}
use wake_surfer.Timeline.Shown.{
  register_record_lem, show_record_lem, assert_message_target-passes, assert_identity-passes,
}
use wake_surfer.Timeline.Drain.{IsShownAt, next_or_later, drain_contiguous_buffer-Drained}
use wake_surfer.Timeline.Runs.{Call, reached, run-IsConsistent}

-- A message of the stream that contradicts nothing that the model knows: its number is not known for
-- another message, and its ID not under another number.
abbrev pub IsWelcome : Timeline → PublicMessage → Type 0
IsWelcome t m = IsOurs t.target m × IsAgreed t m

-- The cursor has moved on, only over numbers whose messages are shown, and the message that follows
-- it has not come.
abbrev pub HasCaughtUp : ℕ → Timeline → Type 0
HasCaughtUp cursor u =
    (last : ℕ) × (u.delivery_sync_cursor ≡ some last)
    × (cursor < last)
    × All (IsShownAt u) (range_from (suc cursor) (last - cursor))
    × (get (suc last) u.buffered_by_sequence ≡ none)

-- The buffer, with a message that is ahead of the cursor and not shown.
abbrev pub kept_aside : ℕ → PublicMessage → Timeline → List (ℕ × String)
kept_aside cursor m t =
    if leb m.sequence cursor || has m.message_id t.visible_id_set
    then t.buffered_by_sequence
    else put m.sequence m.message_id t.buffered_by_sequence

All-range :
    (P : ℕ → Type 0) (a k : ℕ) → ((n : ℕ) → a ≤ n → n < a + k → P n) → All P (range_from a k)
All-range P a zero h = tt
All-range P a (suc k) h = (
  h a (omega arith) (omega arith),
  All-range P (suc a) k (λ n above below. h n (omega arith) (omega arith)),
)

module _ (t : Timeline) (c : IsConsistent t) (m : PublicMessage) (ours : IsOurs t.target m)
    (agreed : IsAgreed t m) where
  insert_welcome :
      (r : PublicMessage) × (v : Timeline) × (insert_loaded_message m t ≡ (ok tt, v))
      × IsConsistent v
      × (get r.message_id v.records ≡ some r)
      × (r.sequence ≡ m.sequence)
      × (has r.message_id v.visible_ids ≡ true)
  unfolding insert_loaded_message
  insert_welcome =
      let (r, u, registers, reg) = register_record_lem t c m ours agreed in
      let (v, shows, sh) = show_record_lem u reg.consistent r reg.known in
      (
        r,
        v,
        rw (assert_message_target-passes m t ours, assert_identity-passes m t agreed, registers)
            shows,
        sh.consistent,
        rw sh.same_records reg.known,
        reg.same_sequence,
        sh.shown,
      )

  deliver_next :
      (cursor : ℕ)
      → m.sequence ≡ cursor + 1
      → (u : Timeline) × (deliver (some cursor) m t ≡ (ok tt, u)) × HasCaughtUp cursor u
  deliver_next cursor next =
      let (r, v, inserts, consistent, known, number, shown) = insert_welcome in
      let at_next : Timeline = record v { delivery_sync_cursor = some m.sequence } in
      let (u, drains, d) = drain_contiguous_buffer-Drained m.sequence at_next consistent refl in
      let not_old : leb m.sequence cursor ≡ false = ground arith in
      let adjacent : (m.sequence == cursor + 1) ≡ true = ground arith in
      (
        u,
        rw (not_old, adjacent, inserts) drains,
        (
          d.last,
          d.at_last,
          omega (arith, d.forth),
          All-range (IsShownAt u) (suc cursor) (d.last - cursor) (λ n above below.
              elim (next_or_later cursor n (omega arith)) [
                | inl is_next ↦ (
                  r,
                  subst (λ s. get r.message_id s ≡ some r) (sym d.same_records) known,
                  omega arith,
                  d.kept r.message_id shown,
                )
                | inr later ↦ d.shown n (omega arith) (omega (arith, d.forth))
              ]),
          d.gap,
        ),
      )

  -- `m` is not the next message: it is old, or kept aside.
  deliver_other :
      (cursor : ℕ)
      → m.sequence ≢ cursor + 1
      → (u : Timeline) × (deliver (some cursor) m t ≡ (ok tt, u))
        × (u.visible_ids ≡ t.visible_ids)
        × (u.delivery_sync_cursor ≡ t.delivery_sync_cursor)
        × (u.buffered_by_sequence ≡ kept_aside cursor m t)
  unfolding buffer_message keep_aside
  deliver_other cursor gap =
      let apart : (m.sequence == cursor + 1) ≡ false = ground arith in
      elim (Bool-cases (leb m.sequence cursor)) [
        | inl old ↦ (t, rw old, refl, refl, rw old)
        | inr new ↦ elim (Bool-cases (has m.message_id t.visible_id_set)) [
          | inl shown ↦ (
            t,
            rw (new, apart, assert_identity-passes m t agreed, shown),
            refl,
            refl,
            rw (new, shown),
          )
          | inr hidden ↦
              let (r, u, registers, reg) = register_record_lem t c m ours agreed in
              (
                record u {
                  buffered_by_sequence = put m.sequence m.message_id u.buffered_by_sequence;
                },
                rw (new, apart, assert_identity-passes m t agreed, hidden, registers),
                reg.same_ids,
                reg.same_cursor,
                rw (new, hidden, reg.same_buffer),
              )
        ]
      ]

-- A message of the stream, next after the cursor, is applied live to a model that any calls of the
-- public methods have made and that has a cursor, where the model knows neither the message's ID
-- under another sequence number nor its sequence number for another message: `applyLive` returns
-- without a throw, and the cursor moves to the message or past it; all that the cursor has moved over
-- is shown, the message itself included; and no message is left in the buffer at the number that
-- follows the cursor.
pub apply_live-HasCaughtUp :
    (date_parse : String → Option ℕ) (target : MessageTarget) (calls : List Call) (cursor : ℕ)
    (m : PublicMessage)
    → (reached date_parse target calls).delivery_sync_cursor ≡ some cursor
    → IsWelcome (reached date_parse target calls) m
    → m.sequence ≡ cursor + 1
    → (u : Timeline) × (apply_live m (reached date_parse target calls) ≡ (ok tt, u))
      × HasCaughtUp cursor u
unfolding apply_live
apply_live-HasCaughtUp date_parse target calls cursor m at (ours, agreed) next =
    let t = reached date_parse target calls in
    let (u, delivers, caught_up) =
      deliver_next t (run-IsConsistent date_parse target calls) m ours agreed cursor next in
    (
      u,
      rw (assert_message_target-passes m t ours, assert_identity-passes m t agreed)
          (ap (λ o. deliver o m t) at ∙ delivers),
      caught_up,
    )

-- A message of the stream that is not next after the cursor is applied live to a model that any
-- calls of the public methods have made and that has a cursor, where the model knows neither the
-- message's ID under another sequence number nor its sequence number for another message:
-- `applyLive` returns without a throw, and leaves the cursor and what is shown as they were. A
-- message that is ahead of the cursor and not shown is put in the buffer under its sequence number;
-- any other leaves the buffer as it was.
pub apply_live-keeps_gap :
    (date_parse : String → Option ℕ) (target : MessageTarget) (calls : List Call) (cursor : ℕ)
    (m : PublicMessage)
    → (reached date_parse target calls).delivery_sync_cursor ≡ some cursor
    → IsWelcome (reached date_parse target calls) m
    → m.sequence ≢ cursor + 1
    → (u : Timeline) × (apply_live m (reached date_parse target calls) ≡ (ok tt, u))
      × (u.visible_ids ≡ (reached date_parse target calls).visible_ids)
      × (u.delivery_sync_cursor ≡ (reached date_parse target calls).delivery_sync_cursor)
      × (u.buffered_by_sequence ≡ kept_aside cursor m (reached date_parse target calls))
unfolding apply_live
apply_live-keeps_gap date_parse target calls cursor m at (ours, agreed) gap =
    let t = reached date_parse target calls in
    let (u, delivers, shown, cursor_kept, waits) =
      deliver_other t (run-IsConsistent date_parse target calls) m ours agreed cursor gap in
    (
      u,
      rw (assert_message_target-passes m t ours, assert_identity-passes m t agreed)
          (ap (λ o. deliver o m t) at ∙ delivers),
      shown,
      cursor_kept,
      waits,
    )
