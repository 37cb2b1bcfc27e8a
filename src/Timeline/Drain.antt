-- ===== src/Timeline/Drain.antt =====
-- timeline-model.ts: `#drainContiguousBuffer` on a consistent model.
use wake_surfer.Common.{
  ℕ, zero, suc, ◌≤◌, ◌<◌, ◌≡◌, ◌⊎◌, inl, inr, refl, ap, sym, ◌∙◌, subst, String, true, none, some,
  arith, ok, length, Option-cases, Bool-cases, ◌==◌,
}
use wake_surfer.Common.Dict.{get, has, length-remove-lt, nat_key, text_key}
use wake_surfer.Contract.{PublicMessage}
use wake_surfer.Timeline.{Timeline}
use wake_surfer.Timeline.Insert.{drain_loop, drain_from, drain_contiguous_buffer}
use wake_surfer.Timeline.Consistent.{IsConsistent}
use wake_surfer.Timeline.Shown.{insert_loaded_message_lem}

-- The message with this number is shown.
abbrev pub IsShownAt : Timeline → ℕ → Type 0
IsShownAt t n =
    (m : PublicMessage) × (get m.message_id t.records ≡ some m)
    × (m.sequence ≡ n)
    × (has m.message_id t.visible_ids ≡ true)

pub record Drained (cursor : ℕ) (t u : Timeline) : Type 0 where
  pub last : ℕ
  pub at_last : u.delivery_sync_cursor ≡ some last
  pub forth : cursor ≤ last
  pub gap : get (suc last) u.buffered_by_sequence ≡ none
  pub consistent : IsConsistent u
  pub shown : (n : ℕ) → cursor < n → n ≤ last → IsShownAt u n
  pub kept : (id : String) → has id t.visible_ids ≡ true → has id u.visible_ids ≡ true
  pub same_records : u.records ≡ t.records

-- What is buffered under a number has a record with that number.
waiting_record :
    (t : Timeline) (c : IsConsistent t) (id : String) (n : ℕ)
    → get n t.buffered_by_sequence ≡ some id
    → (m : PublicMessage) × (get id t.records ≡ some m) × (m.message_id ≡ id) × (m.sequence ≡ n)
waiting_record t c id n waits =
    let (named, hidden) = c.waiting id n waits in
    let number = c.backward id n named in
    let (m, known) = c.known_ids id n number in
    let (is_id, m_number, ours) = c.record_keys id m known in (m, known, is_id, ground arith)

pub next_or_later : (a n : ℕ) → a < n → (n ≡ suc a) ⊎ (suc a < n)
next_or_later a n h = elim (Bool-cases (n == suc a)) [
  | inl same ↦ inl (ground arith)
  | inr apart ↦ inr (ground arith)
]

drain_loop_lem :
    (fuel cursor : ℕ) (t : Timeline)
    → IsConsistent t
    → t.delivery_sync_cursor ≡ some cursor
    → length t.buffered_by_sequence < fuel
    → (u : Timeline) × (drain_loop fuel cursor t ≡ (ok tt, u)) × Drained cursor t u
unfolding drain_loop
drain_loop_lem zero cursor t c at enough = elim enough [ ]
drain_loop_lem (suc fuel) cursor t c at enough =
    elim (Option-cases (get (suc cursor) t.buffered_by_sequence)) [
      | inl gap ↦ (
        t,
        rw (drain_loop, gap),
        record {
          last = cursor;
          at_last = at;
          forth = omega arith;
          gap = gap;
          consistent = c;
          shown = λ n above below. elim (none_between n above below) [ ];
          kept = λ id h. h;
          same_records = refl;
        },
      )
      | inr (id, waits) ↦
          let (m, known, is_id, number) = waiting_record t c id (suc cursor) waits in
          let recorded : get m.message_id t.records ≡ some m =
            subst (λ i. get i t.records ≡ some m) (sym is_id) known in
          let (v, shows, sh) = insert_loaded_message_lem t c m recorded in
          let v_next : Timeline = record v { delivery_sync_cursor = some (suc cursor) } in
          let less = length-remove-lt (suc cursor) id t.buffered_by_sequence waits in
          let enough_left : length v.buffered_by_sequence < fuel =
            rw (sh.taken, number) (omega arith) in
          let (u, rest, d) =
            drain_loop_lem fuel (suc cursor) v_next sh.consistent refl enough_left in
          (
            u,
            rw (drain_loop, waits, known, shows) rest,
            record {
              last = d.last;
              at_last = d.at_last;
              forth = omega (arith, d.forth);
              gap = d.gap;
              consistent = d.consistent;
              shown = λ n above below. elim (next_or_later cursor n above) [
                | inl next ↦ (
                  m,
                  subst (λ r. get m.message_id r ≡ some m) (sym (d.same_records ∙ sh.same_records))
                      recorded,
                  number ∙ sym next,
                  d.kept m.message_id sh.shown,
                )
                | inr later ↦ d.shown n later below
              ];
              kept = λ i h. d.kept i (sh.kept i h);
              same_records = d.same_records ∙ sh.same_records;
            },
          )
    ]
  where
    none_between : (n : ℕ) → cursor < n → n ≤ cursor → ⊥
    none_between n above below = omega arith

-- On a consistent model with a cursor, `#drainContiguousBuffer` returns without a throw: the rounds
-- are enough to end the loop. The model stays consistent, the cursor has not gone back, every number
-- that it moved over has a message that is shown, what was shown still is, and no message is left
-- in the buffer at the number that follows the cursor.
pub drain_contiguous_buffer-Drained :
    (cursor : ℕ) (t : Timeline)
    → IsConsistent t
    → t.delivery_sync_cursor ≡ some cursor
    → (u : Timeline) × (drain_contiguous_buffer t ≡ (ok tt, u)) × Drained cursor t u
unfolding drain_contiguous_buffer
drain_contiguous_buffer-Drained cursor t c at =
    let (u, drains, d) =
      drain_loop_lem (suc (length t.buffered_by_sequence)) cursor t c at (omega arith) in
    (u, ap (λ o. drain_from o t) at ∙ drains, d)
