-- ===== src/Timeline/Shown.antt =====
-- What the private methods that show a message do to a consistent model.
use wake_surfer.Common.{
  ◌≡◌, ◌⊎◌, inl, inr, refl, sym, ◌∙◌, subst, String, true, ◌∷◌, ◌++◌, some, arith, ok, err, take,
  drop, Option-cases, Bool-cases, eq_iff, eq_refl,
}
use wake_surfer.Common.Dict.{get, remove, has, add, discard, get_self, nat_key, text_key}
use wake_surfer.Common.Exec.{◌>>◌}
use wake_surfer.Contract.{PublicMessage, get_canonical_stream_id}
use wake_surfer.Timeline.{
  Timeline, message_target_mismatch, message_identity_conflict, Method, register,
  assert_message_target, assert_identity, register_record, remove_buffered,
}
use wake_surfer.Timeline.Insert.{insertion_index, show_record, insert_loaded_message}
use wake_surfer.Timeline.Order.{has-insert}
use wake_surfer.Timeline.Consistent.{IsOurs, IsConsistent}
use wake_surfer.Timeline.Consistent.Steps.{
  IsAgreed, register-IsConsistent, remove_buffered-IsConsistent,
}
use wake_surfer.Timeline.Consistent.Show.{show_at-IsConsistent}

module _ (m : PublicMessage) (t : Timeline) where
  pub assert_message_target-cases :
      (IsOurs t.target m × (assert_message_target m t ≡ (ok tt, t)))
      ⊎ (assert_message_target m t ≡ (err message_target_mismatch, t))
  unfolding assert_message_target
  assert_message_target-cases =
      ground (arith, eq_iff m.stream_id (get_canonical_stream_id t.target))

  pub assert_identity-cases :
      (IsAgreed t m × (assert_identity m t ≡ (ok tt, t)))
      ⊎ (assert_identity m t ≡ (err message_identity_conflict, t))
  unfolding assert_identity
  assert_identity-cases = ground arith

  pub assert_message_target-passes : IsOurs t.target m → assert_message_target m t ≡ (ok tt, t)
  unfolding assert_message_target
  assert_message_target-passes (same_stream, same_target) =
      ground (arith, eq_iff m.stream_id (get_canonical_stream_id t.target))

  pub assert_identity-passes : IsAgreed t m → assert_identity m t ≡ (ok tt, t)
  unfolding assert_identity
  assert_identity-passes agreed = ground arith

  -- A method that begins with the two checks.
  pub checked :
      {A : Type 0} (P : Timeline → Type 0) (n : Method A)
      → P t
      → (IsOurs t.target m → IsAgreed t m → P (n t).1)
      → P ((assert_message_target m >> (assert_identity m >> n)) t).1
  checked P n p next = elim assert_message_target-cases [
    | inr refused ↦ rw refused p
    | inl (ours, passed) ↦ elim assert_identity-cases [
      | inr refused ↦ rw (passed, refused) p
      | inl (agreed, passed_too) ↦ rw (passed, passed_too) (next ours agreed)
    ]
  ]

-- The record that `#registerRecord` returns.
pub record Registered (m r : PublicMessage) (t u : Timeline) : Type 0 where
  pub consistent : IsConsistent u
  pub known : get r.message_id u.records ≡ some r
  pub same_id : r.message_id ≡ m.message_id
  pub same_sequence : r.sequence ≡ m.sequence
  pub same_target : u.target ≡ t.target
  pub same_ids : u.visible_ids ≡ t.visible_ids
  pub same_set : u.visible_id_set ≡ t.visible_id_set
  pub same_buffer : u.buffered_by_sequence ≡ t.buffered_by_sequence
  pub same_cursor : u.delivery_sync_cursor ≡ t.delivery_sync_cursor

module _ (t : Timeline) (c : IsConsistent t) where
  pub register_record_lem :
      (m : PublicMessage)
      → IsOurs t.target m
      → IsAgreed t m
      → (r : PublicMessage) × (u : Timeline) × (register_record m t ≡ (ok r, u))
        × Registered m r t u
  unfolding register_record
  register_record_lem m ours agreed = elim (Option-cases (get m.message_id t.records)) [
    | inl new ↦ (
      m,
      register m t,
      rw new,
      record {
        consistent = register-IsConsistent t c m ours agreed new;
        known = get_self m.message_id m t.records;
        same_id = refl;
        same_sequence = refl;
        same_target = refl;
        same_ids = refl;
        same_set = refl;
        same_buffer = refl;
        same_cursor = refl;
      },
    )
    | inr (r, old) ↦
        let (is_id, number, was_ours) = c.record_keys m.message_id r old in
        (
          r,
          t,
          rw old,
          record {
            consistent = c;
            known = subst (λ i. get i t.records ≡ some r) (sym is_id) old;
            same_id = is_id;
            same_sequence = ground arith;
            same_target = refl;
            same_ids = refl;
            same_set = refl;
            same_buffer = refl;
            same_cursor = refl;
          },
        )
  ]

-- What has become of the model when a record is shown.
pub record Shown (r : PublicMessage) (t u : Timeline) : Type 0 where
  pub consistent : IsConsistent u
  pub shown : has r.message_id u.visible_ids ≡ true
  pub kept : (id : String) → has id t.visible_ids ≡ true → has id u.visible_ids ≡ true
  pub same_target : u.target ≡ t.target
  pub same_records : u.records ≡ t.records
  pub taken : u.buffered_by_sequence ≡ remove r.sequence t.buffered_by_sequence
  pub same_cursor : u.delivery_sync_cursor ≡ t.delivery_sync_cursor

module _ (t : Timeline) (c : IsConsistent t) (r : PublicMessage)
    (known : get r.message_id t.records ≡ some r) where
  pub show_record_lem : (u : Timeline) × (show_record r t ≡ (ok tt, u)) × Shown r t u
  unfolding show_record remove_buffered insertion_index
  show_record_lem = elim (Bool-cases (has r.message_id t.visible_id_set)) [
    | inl already ↦ (
      record t { buffered_by_sequence = remove r.sequence t.buffered_by_sequence },
      rw already,
      record {
        consistent = remove_buffered-IsConsistent t c r;
        shown = sym (c.same_set r.message_id) ∙ already;
        kept = λ id h. h;
        same_target = refl;
        same_records = refl;
        taken = refl;
        same_cursor = refl;
      },
    )
    | inr hidden ↦
        let (k, found, consistent) = show_at-IsConsistent t c r known hidden in
        (
          record t {
            visible_ids = take k t.visible_ids ++ (r.message_id ∷ drop k t.visible_ids);
            visible_id_set = add r.message_id t.visible_id_set;
            accepted_outside_visible = discard r.message_id t.accepted_outside_visible;
            buffered_by_sequence = remove r.sequence t.buffered_by_sequence;
          },
          rw (hidden, found),
          record {
            consistent = consistent;
            shown = rw (has-insert k r.message_id r.message_id t.visible_ids, eq_refl r.message_id);
            kept = λ id h. ground (arith, has-insert k r.message_id id t.visible_ids);
            same_target = refl;
            same_records = refl;
            taken = refl;
            same_cursor = refl;
          },
        )
  ]

  -- The record of a message is one of the stream, and agrees with the maps.
  pub insert_loaded_message_lem :
      (u : Timeline) × (insert_loaded_message r t ≡ (ok tt, u)) × Shown r t u
  unfolding insert_loaded_message register_record assert_message_target assert_identity
  insert_loaded_message_lem =
      let (is_id, number, ours) = c.record_keys r.message_id r known in
      let named = c.forward r.message_id r.sequence number in
      let (u, shows, shown) = show_record_lem in
      (u, ground (arith, eq_refl (get_canonical_stream_id t.target), eq_refl r.message_id), shown)
