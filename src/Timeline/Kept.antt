-- ===== src/Timeline/Kept.antt =====
-- The steps of the model keep its invariant and what is shown, also when they throw.
use wake_surfer.Common.{
  not, ◌&&◌, ℕ, ◌≡◌, inl, inr, ◌∙◌, String, true, false, Option, none, some, Option-cases,
  Bool-cases,
}
use wake_surfer.Common.Dict.{get, has, nat_key, text_key}
use wake_surfer.Common.Exec.{◌>>=◌, Keeps}
use wake_surfer.Contract.{PublicMessage}
use wake_surfer.Timeline.{
  Timeline, register_record, remove_buffered, replace_record, messages_equal,
}
use wake_surfer.Timeline.Insert.{
  insert_loaded_message, show_record, buffer_message, keep_aside, replace_known,
}
use wake_surfer.Timeline.Consistent.{IsOurs, IsConsistent}
use wake_surfer.Timeline.Consistent.Steps.{
  IsAgreed, remove_buffered-IsConsistent, keep_aside-IsConsistent, replace-IsConsistent,
}
use wake_surfer.Timeline.Shown.{
  checked, register_record_lem, show_record_lem, assert_identity-cases,
}
use wake_surfer.Timeline.Apply.{refresh, remember_accepted, has_newer_edit, is_text}
use wake_surfer.Timeline.Steady.{IsSteady}

-- A consistent model of the same stream, that shows all that `o` shows.
abbrev pub Follows : Timeline → Timeline → Type 0
Follows o t =
    IsConsistent t
    × (t.target ≡ o.target)
    × ((id : String) → has id o.visible_ids ≡ true → has id t.visible_ids ≡ true)

module _ (o : Timeline) where
  pub insert_loaded_message-Keeps :
      (m : PublicMessage) → Keeps (Follows o) (insert_loaded_message m)
  unfolding insert_loaded_message
  insert_loaded_message-Keeps m t (c, same, kept) =
      checked m t (Follows o) (register_record m >>= show_record) (c, same, kept)
        (λ ours agreed.
          let (r, u, registers, reg) = register_record_lem t c m ours agreed in
          let (v, shows, sh) = show_record_lem u reg.consistent r reg.known in
          rw (registers, shows)
            (
              sh.consistent,
              sh.same_target ∙ reg.same_target ∙ same,
              λ id h. sh.kept id (rw (reg.same_ids) (kept id h)),
            ))

  pub buffer_message-Follows :
      (m : PublicMessage) (t : Timeline)
      → Follows o t
      → IsOurs t.target m
      → Follows o (buffer_message m t).1
  unfolding buffer_message keep_aside
  buffer_message-Follows m t (c, same, kept) ours = elim (assert_identity-cases m t) [
    | inr refused ↦ rw refused (c, same, kept)
    | inl (agreed, passed) ↦ elim (Bool-cases (has m.message_id t.visible_id_set)) [
      | inl shown ↦ rw (passed, shown) (c, same, kept)
      | inr hidden ↦
          let (r, u, registers, reg) = register_record_lem t c m ours agreed in
          let still : has r.message_id u.visible_id_set ≡ false =
            rw (reg.same_set, reg.same_id) hidden in
          let aside = keep_aside-IsConsistent u reg.consistent r reg.known still in
          rw (passed, hidden, registers)
            (
              rw (reg.same_sequence, reg.same_id) at aside,
              reg.same_target ∙ same,
              λ id h. rw reg.same_ids (kept id h),
            )
    ]
  ]

  pub replace_known-Keeps : (m : PublicMessage) → Keeps (Follows o) (replace_known m)
  unfolding replace_known
  replace_known-Keeps m t (c, same, kept) =
      checked m t (Follows o) (λ s. replace_record (get m.message_id s.records) m s) (c, same, kept)
        (λ ours agreed. elim (Option-cases (get m.message_id t.records)) [
          | inl unknown ↦ rw unknown (c, same, kept)
          | inr (old, known) ↦ elim (Bool-cases (messages_equal old m)) [
            | inl equal ↦ rw (known, equal) (c, same, kept)
            | inr changed ↦
                rw (known, changed) (replace-IsConsistent t c m old ours agreed known, same, kept)
          ]
        ])

  refresh-Keeps :
      (date_parse : String → Option ℕ) (r : Option PublicMessage) (m : PublicMessage)
      → Keeps (Follows o) (refresh date_parse r m)
  refresh-Keeps date_parse none m t f = f
  refresh-Keeps date_parse (some r) m t f =
      elim (Bool-cases
        (is_text date_parse r.content && not (has_newer_edit date_parse r.content m.content))) [
          | inl fresh ↦ rw fresh (replace_known-Keeps m t f)
          | inr stale ↦ rw stale f
        ]

  register_record-Keeps :
      (m : PublicMessage) (t : Timeline)
      → Follows o t
      → IsOurs t.target m
      → IsAgreed t m
      → Follows o (register_record m t).1
  register_record-Keeps m t (c, same, kept) ours agreed =
      let (r, u, registers, reg) = register_record_lem t c m ours agreed in
      rw registers (reg.consistent, reg.same_target ∙ same, λ id h. rw reg.same_ids (kept id h))

  remember_accepted-Keeps : (r : PublicMessage) → Keeps (Follows o) (remember_accepted r)
  remember_accepted-Keeps r s f = elim (Bool-cases (has r.message_id s.visible_id_set)) [
    | inl shown ↦ rw shown f
    | inr hidden ↦ rw hidden f
  ]

  remove_buffered-Keeps : (m : PublicMessage) → Keeps (Follows o) (remove_buffered m)
  unfolding remove_buffered
  remove_buffered-Keeps m t (c, same, kept) = (remove_buffered-IsConsistent t c m, same, kept)

  pub Follows-IsSteady : IsSteady (Follows o)
  Follows-IsSteady = record {
    inserts = insert_loaded_message-Keeps;
    registers = register_record-Keeps;
    buffers = buffer_message-Follows;
    unbuffers = remove_buffered-Keeps;
    refreshes = λ date_parse m t f. refresh-Keeps date_parse (get m.message_id t.records) m t f;
    remembers = remember_accepted-Keeps;
    moves = λ cursor t f. f;
    pages = λ before more t f. f;
  }
