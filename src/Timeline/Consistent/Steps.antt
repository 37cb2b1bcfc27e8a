-- ===== src/Timeline/Consistent/Steps.antt =====
-- How the writes of the model keep its invariant.
use wake_surfer.Common.{
  ◌≡◌, inl, inr, refl, subst, String, false, List, [], ◌∷◌, Option, none, some, arith, map, All,
  Option-cases, Bool-cases, eq_iff, str_eq, ==_iff,
}
use wake_surfer.Common.Dict.{get, put, remove, has, get-put, get-remove, nat_key, text_key}
use wake_surfer.Contract.{PublicMessage}
use wake_surfer.Timeline.{Timeline, register, differs_from, differs}
use wake_surfer.Timeline.Order.{Ascending}
use wake_surfer.Timeline.Consistent.{IsOurs, IsKnown, sequence_in, IsConsistent}

-- What `#assertIdentity` lets pass.
abbrev pub IsAgreed : Timeline → PublicMessage → Type 0
IsAgreed t m =
    (differs_from (get m.sequence t.sequence_to_message_id) m.message_id ≡ false)
    × (differs (get m.message_id t.message_id_to_sequence) m.sequence ≡ false)

All-map :
    {A : Type 0} (P Q : A → Type 0) → ((a : A) → P a → Q a) → (xs : List A) → All P xs → All Q xs
All-map P Q f [] h = tt
All-map P Q f (x ∷ xs) (p, h) = (f x p, All-map P Q f xs h)

map-All : {A B : Type 0} (f g : A → B) (xs : List A) → All (λ a. f a ≡ g a) xs → map f xs ≡ map g xs
map-All f g [] h = refl
map-All f g (x ∷ xs) (p, h) = cc (p, map-All f g xs h)

-- A record that is written changes no sequence number, and forgets no record.
abbrev IsSafePut : PublicMessage → Option PublicMessage → Type 0
IsSafePut m none = Unit
IsSafePut m (some old) = old.sequence ≡ m.sequence

module _ (m : PublicMessage) (records : List (String × PublicMessage))
    (safe : IsSafePut m (get m.message_id records)) where
  IsKnown-put : (id : String) → IsKnown records id → IsKnown (put m.message_id m records) id
  IsKnown-put id (r, h) = elim (Bool-cases (str_eq m.message_id id)) [
    | inl same ↦ (m, rw (get-put m.message_id id m records, same))
    | inr other ↦ (r, ground (arith, get-put m.message_id id m records))
  ]

  sequence_in-put :
      (id : String)
      → IsKnown records id
      → sequence_in records id ≡ sequence_in (put m.message_id m records) id
  sequence_in-put id (r, h) = elim (Bool-cases (str_eq m.message_id id)) [
    | inl same ↦
        let is_id = (eq_iff m.message_id id).0 same in
        let old : get m.message_id records ≡ some r = cc in
        let safe_old : r.sequence ≡ m.sequence = subst (IsSafePut m) old safe in
        rw (get-put m.message_id id m records, same, h, safe_old)
    | inr other ↦ rw (get-put m.message_id id m records, other)
  ]

  sequences-put :
      (ids : List String)
      → All (IsKnown records) ids
      → map (sequence_in records) ids ≡ map (sequence_in (put m.message_id m records)) ids
  sequences-put ids h =
      map-All (sequence_in records) (sequence_in (put m.message_id m records)) ids (
        All-map (IsKnown records)
          (λ id. sequence_in records id ≡ sequence_in (put m.message_id m records) id)
          sequence_in-put ids h)

module _ (t : Timeline) (c : IsConsistent t) (m : PublicMessage) where
  -- A message that has no record has no number and its number has no message.
  unregistered :
      IsAgreed t m
      → get m.message_id t.records ≡ none
      → (get m.message_id t.message_id_to_sequence ≡ none)
        × (get m.sequence t.sequence_to_message_id ≡ none)
  unregistered (a, b) new =
      let no_number : get m.message_id t.message_id_to_sequence ≡ none =
        elim (Option-cases (get m.message_id t.message_id_to_sequence)) [
          | inl h ↦ h
          | inr (n, h) ↦ let (r, k) = c.known_ids m.message_id n h in cc
        ] in
      (
        no_number,
        elim (Option-cases (get m.sequence t.sequence_to_message_id)) [
          | inl h ↦ h
          | inr (id, h) ↦
              let back = c.backward id m.sequence h in
              let same : id ≡ m.message_id = ground (arith, eq_iff id m.message_id) in cc
        ],
      )

  pub register-IsConsistent :
      IsOurs t.target m
      → IsAgreed t m
      → get m.message_id t.records ≡ none
      → IsConsistent (register m t)
  register-IsConsistent ours agreed new =
      let (no_number, no_id) = unregistered agreed new in
      let safe : IsSafePut m (get m.message_id t.records) = rw new tt in
      record {
        record_keys = λ id r h.
            let other = c.record_keys id r in
            ground (
              arith,
              get-put m.message_id id m t.records,
              get-put m.message_id id m.sequence t.message_id_to_sequence,
              eq_iff m.message_id id,
            );
        known_ids = λ id n h. elim (Bool-cases (str_eq m.message_id id)) [
          | inl same ↦ (m, rw (get-put m.message_id id m t.records, same))
          | inr other ↦ IsKnown-put m t.records safe id (
              c.known_ids id n
                (ground (arith, get-put m.message_id id m.sequence t.message_id_to_sequence)))
        ];
        forward = λ id n h.
            let old = c.forward id n in
            ground (
              arith,
              get-put m.sequence n m.message_id t.sequence_to_message_id,
              get-put m.message_id id m.sequence t.message_id_to_sequence,
              eq_iff m.message_id id,
            );
        backward = λ id n h.
            let old = c.backward id n in
            ground (
              arith,
              get-put m.sequence n m.message_id t.sequence_to_message_id,
              get-put m.message_id id m.sequence t.message_id_to_sequence,
              eq_iff m.message_id id,
            );
        all_known =
            All-map (IsKnown t.records) (IsKnown (put m.message_id m t.records))
              (IsKnown-put m t.records safe) t.visible_ids c.all_known;
        same_set = c.same_set;
        ascending =
            subst Ascending (sequences-put m t.records safe t.visible_ids c.all_known) c.ascending;
        waiting = λ id n h.
            let old = c.waiting id n h in
            ground (arith, get-put m.sequence n m.message_id t.sequence_to_message_id);
      }

  -- A record that is replaced keeps its sequence number.
  pub replace-IsConsistent :
      (old : PublicMessage)
      → IsOurs t.target m
      → IsAgreed t m
      → get m.message_id t.records ≡ some old
      → IsConsistent (record t { records = put m.message_id m t.records })
  replace-IsConsistent old ours agreed known =
      let (is_id, number, was_ours) = c.record_keys m.message_id old known in
      let same : old.sequence ≡ m.sequence = ground arith in
      let safe : IsSafePut m (get m.message_id t.records) = rw known same in
      record {
        record_keys = λ id r h.
            let other = c.record_keys id r in
            ground (arith, get-put m.message_id id m t.records, eq_iff m.message_id id);
        known_ids = λ id n h. IsKnown-put m t.records safe id (c.known_ids id n h);
        forward = c.forward;
        backward = c.backward;
        all_known =
            All-map (IsKnown t.records) (IsKnown (put m.message_id m t.records))
              (IsKnown-put m t.records safe) t.visible_ids c.all_known;
        same_set = c.same_set;
        ascending =
            subst Ascending (sequences-put m t.records safe t.visible_ids c.all_known) c.ascending;
        waiting = c.waiting;
      }

  pub remove_buffered-IsConsistent :
      IsConsistent (record t { buffered_by_sequence = remove m.sequence t.buffered_by_sequence })
  remove_buffered-IsConsistent = record {
    record_keys = c.record_keys;
    known_ids = c.known_ids;
    forward = c.forward;
    backward = c.backward;
    all_known = c.all_known;
    same_set = c.same_set;
    ascending = c.ascending;
    waiting = λ id n h.
        let old = c.waiting id n in ground (arith, get-remove m.sequence n t.buffered_by_sequence);
  }

  pub keep_aside-IsConsistent :
      get m.message_id t.records ≡ some m
      → has m.message_id t.visible_id_set ≡ false
      → IsConsistent
          (record t { buffered_by_sequence = put m.sequence m.message_id t.buffered_by_sequence })
  keep_aside-IsConsistent known hidden =
      let (is_id, number, ours) = c.record_keys m.message_id m known in
      let named = c.forward m.message_id m.sequence number in
      record {
        record_keys = c.record_keys;
        known_ids = c.known_ids;
        forward = c.forward;
        backward = c.backward;
        all_known = c.all_known;
        same_set = c.same_set;
        ascending = c.ascending;
        waiting = λ id n h.
            let old = c.waiting id n in
            let in_ids = c.same_set m.message_id in
            ground (
              arith,
              get-put m.sequence n m.message_id t.buffered_by_sequence,
              ==_iff m.sequence n,
            );
      }
