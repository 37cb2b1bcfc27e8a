-- ===== src/Timeline/Consistent/Show.antt =====
-- How a message that is shown keeps the invariant, and its place in the list.
use wake_surfer.Common.{
  ℕ, zero, suc, ◌≡◌, ◌≢◌, refl, sym, ◌∙◌, String, false, List, [], ◌∷◌, ◌++◌, Option, none, some,
  arith, map, length, take, drop, All, All-append, All-take, All-drop, map-take, map-drop,
  length-map, eq_iff, ==_iff,
}
use wake_surfer.Common.Dict.{get, has, add, discard, remove, has-add, get-remove, nat_key, text_key}
use wake_surfer.Contract.{PublicMessage}
use wake_surfer.Timeline.{Timeline}
use wake_surfer.Timeline.Insert.{get_elem?, sequence_at, insertion_index}
use wake_surfer.Timeline.Order.{insertion_index-Ascending, has-insert}
use wake_surfer.Timeline.Consistent.{IsKnown, sequence_in, IsConsistent}

map-append : {A B : Type 0} (f : A → B) (xs ys : List A) → map f (xs ++ ys) ≡ map f xs ++ map f ys
map-append f [] ys = refl
map-append f (x ∷ xs) ys = cc (map-append f xs ys)

map-insert :
    {A B : Type 0} (f : A → B) (k : ℕ) (x : A) (xs : List A)
    → map f (take k xs ++ x ∷ drop k xs) ≡ take k (map f xs) ++ f x ∷ drop k (map f xs)
map-insert f k x xs =
    rw (map-append f (take k xs) (x ∷ drop k xs), map-take f k xs, map-drop f k xs)

-- `sequence_at` over any list of known IDs.
abbrev at_index : List (String × PublicMessage) → List String → ℕ → Option ℕ
at_index records ids i = elim (get_elem? ids i) [
  | none ↦ none
  | some id ↦ elim (get id records) [ none ↦ none | some r ↦ some r.sequence ]
]

at_index_lem :
    (records : List (String × PublicMessage)) (ids : List String) (i : ℕ)
    → All (IsKnown records) ids
    → at_index records ids i ≡ get_elem? (map (sequence_in records) ids) i
at_index_lem records [] i h = refl
at_index_lem records (id ∷ ids) zero ((r, k), h) = ground arith
at_index_lem records (id ∷ ids) (suc i) (k, h) = at_index_lem records ids i h

module _ (t : Timeline) (c : IsConsistent t) where
  sequence_at_lem :
      (i : ℕ) → sequence_at t i ≡ get_elem? (map (sequence_in t.records) t.visible_ids) i
  sequence_at_lem i = at_index_lem t.records t.visible_ids i c.all_known

  module _ (m : PublicMessage) (known : get m.message_id t.records ≡ some m) where
    -- No message that is shown has the number of one that is not.
    apart :
        (ids : List String)
        → All (IsKnown t.records) ids
        → has m.message_id ids ≡ false
        → All (λ s. s ≢ m.sequence) (map (sequence_in t.records) ids)
    unfolding has
    apart [] h hidden = tt
    apart (id ∷ ids) ((r, k), h) hidden = (
      (λ same.
          let (is_id, number, ours) = c.record_keys id r k in
          let (m_id, m_number, m_ours) = c.record_keys m.message_id m known in
          let named = c.forward id r.sequence number in
          let m_named = c.forward m.message_id m.sequence m_number in
          ground (arith, eq_iff id m.message_id)),
      apart ids h (ground arith),
    )

    pub show_at-IsConsistent :
        has m.message_id t.visible_id_set ≡ false
        → (k : ℕ) × (insertion_index t m.sequence (length t.visible_ids) ≡ some k)
          × IsConsistent (record t {
            visible_ids = take k t.visible_ids ++ (m.message_id ∷ drop k t.visible_ids);
            visible_id_set = add m.message_id t.visible_id_set;
            accepted_outside_visible = discard m.message_id t.accepted_outside_visible;
            buffered_by_sequence = remove m.sequence t.buffered_by_sequence;
          })
    show_at-IsConsistent hidden =
        let xs = map (sequence_in t.records) t.visible_ids in
        let fresh = apart t.visible_ids c.all_known (sym (c.same_set m.message_id) ∙ hidden) in
        let (k, found, asc) =
          insertion_index-Ascending t xs sequence_at_lem m.sequence c.ascending fresh in
        let number : sequence_in t.records m.message_id ≡ m.sequence = rw known in
        (
          k,
          rw (sym (length-map (sequence_in t.records) t.visible_ids)) found,
          record {
            record_keys = c.record_keys;
            known_ids = c.known_ids;
            forward = c.forward;
            backward = c.backward;
            all_known =
                All-append (IsKnown t.records) (take k t.visible_ids)
                  (m.message_id ∷ drop k t.visible_ids)
                  (All-take (IsKnown t.records) k t.visible_ids c.all_known)
                  ((m, known), All-drop (IsKnown t.records) k t.visible_ids c.all_known);
            same_set = λ id. ground (
              arith,
              has-add m.message_id id t.visible_id_set,
              c.same_set id,
              has-insert k m.message_id id t.visible_ids,
            );
            ascending =
                rw (map-insert (sequence_in t.records) k m.message_id t.visible_ids, number) asc;
            waiting = λ id n h.
                let old = c.waiting id n in
                let (is_id, m_number, ours) = c.record_keys m.message_id m known in
                let back = c.backward id n in
                ground (
                  arith,
                  get-remove m.sequence n t.buffered_by_sequence,
                  eq_iff m.message_id id,
                  has-insert k m.message_id id t.visible_ids,
                  ==_iff m.sequence n,
                );
          },
        )
