-- ===== src/Timeline/Steady.antt =====
-- The loops of the model keep a predicate that its single steps keep.
use wake_surfer.Common.{
  Bool, ℕ, zero, suc, inl, inr, String, List, [], ◌∷◌, Option, none, some, leb, ok, length,
  Option-cases, Bool-cases,
}
use wake_surfer.Common.Dict.{get, has, nat_key, text_key}
use wake_surfer.Common.Exec.{Keeps, >>=-Keeps}
use wake_surfer.Contract.{PublicMessage}
use wake_surfer.Timeline.{Timeline, register_record, remove_buffered}
use wake_surfer.Timeline.Insert.{
  insert_loaded_message, buffer_message, insert_known, drain_one, drain_loop, drain_from,
  drain_contiguous_buffer, discard_known, discard_each, discard_to,
  discard_buffered_at_or_before_cursor,
}
use wake_surfer.Timeline.Consistent.{IsOurs}
use wake_surfer.Timeline.Consistent.Steps.{IsAgreed}
use wake_surfer.Timeline.Apply.{refresh, remember_accepted}

-- What a predicate of the model must survive to survive every method but `replaceKnown`.
pub record IsSteady (P : Timeline → Type 0) : Type 0 where
  pub inserts : (m : PublicMessage) → Keeps P (insert_loaded_message m)
  pub registers :
      (m : PublicMessage) (t : Timeline)
      → P t
      → IsOurs t.target m
      → IsAgreed t m
      → P (register_record m t).1
  pub buffers :
      (m : PublicMessage) (t : Timeline) → P t → IsOurs t.target m → P (buffer_message m t).1
  pub unbuffers : (m : PublicMessage) → Keeps P (remove_buffered m)
  pub refreshes :
      (date_parse : String → Option ℕ) (m : PublicMessage) (t : Timeline)
      → P t
      → P (refresh date_parse (get m.message_id t.records) m t).1
  pub remembers : (m : PublicMessage) → Keeps P (remember_accepted m)
  pub moves :
      (cursor : Option ℕ) (t : Timeline) → P t → P (record t { delivery_sync_cursor = cursor })
  pub pages :
      (before : Option ℕ) (more : Bool) (t : Timeline)
      → P t
      → P (record t { history_before_cursor = before; has_more_before = more })

module _ (P : Timeline → Type 0) (k : IsSteady P) where
  pub insert_known-Keeps : (r : Option PublicMessage) → Keeps P (insert_known r)
  insert_known-Keeps none t f = f
  insert_known-Keeps (some r) t f = k.inserts r t f

  pub drain_loop-Keeps : (fuel cursor : ℕ) → Keeps P (drain_loop fuel cursor)
  unfolding drain_loop
  drain_loop-Keeps zero cursor t f = f
  drain_loop-Keeps (suc fuel) cursor t f =
      elim (Option-cases (get (suc cursor) t.buffered_by_sequence)) [
        | inl gap ↦ rw (drain_loop, gap) f
        | inr (id, waits) ↦
            rw (drain_loop, waits)
              (>>=-Keeps P (drain_one (suc cursor) id) (λ _. drain_loop fuel (suc cursor))
                (>>=-Keeps P (λ s. insert_known (get id s.records) s)
                  (λ _ s. (ok tt, record s { delivery_sync_cursor = some (suc cursor) }))
                  (λ s q. insert_known-Keeps (get id s.records) s q)
                  (λ _ s q. k.moves (some (suc cursor)) s q))
                (λ _. drain_loop-Keeps fuel (suc cursor)) t f)
      ]

  pub drain_contiguous_buffer-Keeps : Keeps P drain_contiguous_buffer
  unfolding drain_contiguous_buffer
  drain_contiguous_buffer-Keeps t f = from t.delivery_sync_cursor
    where
      from : (cursor : Option ℕ) → P (drain_from cursor t).1
      from none = f
      from (some cursor) = drain_loop-Keeps (suc (length t.buffered_by_sequence)) cursor t f

  discard_known-Keeps : (id : String) (r : Option PublicMessage) → Keeps P (discard_known id r)
  discard_known-Keeps id none t f = f
  discard_known-Keeps id (some r) t f = elim (Bool-cases (has id t.accepted_outside_visible)) [
    | inl accepted ↦ rw accepted (k.inserts r t f)
    | inr other ↦ rw other (k.unbuffers r t f)
  ]

  discard_each-Keeps :
      (cursor : ℕ) (entries : List (ℕ × String)) → Keeps P (discard_each cursor entries)
  unfolding discard_each
  discard_each-Keeps cursor [] t f = f
  discard_each-Keeps cursor ((n, id) ∷ entries) t f = elim (Bool-cases (leb n cursor)) [
    | inl reached ↦ rw reached (
        >>=-Keeps P (λ s. discard_known id (get id s.records) s) (λ _. discard_each cursor entries)
          (λ s q. discard_known-Keeps id (get id s.records) s q)
          (λ _. discard_each-Keeps cursor entries) t f)
    | inr ahead ↦ rw ahead (discard_each-Keeps cursor entries t f)
  ]

  pub discard_buffered_at_or_before_cursor-Keeps : Keeps P discard_buffered_at_or_before_cursor
  unfolding discard_buffered_at_or_before_cursor
  discard_buffered_at_or_before_cursor-Keeps t f = to t.delivery_sync_cursor
    where
      to : (cursor : Option ℕ) → P (discard_to cursor t).1
      to none = f
      to (some cursor) = discard_each-Keeps cursor t.buffered_by_sequence t f
