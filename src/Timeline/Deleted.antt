-- ===== src/Timeline/Deleted.antt =====
-- timeline-model.ts: deleted messages in runs of the model.
use wake_surfer.Common.{
  ℕ, ◌≡◌, inl, inr, String, Bool, ok, true, false, not, ◌&&◌, List, [], ◌∷◌, Option, some, arith,
  All, length, Bool-cases, Option-cases, eq_iff, str_eq,
}
use wake_surfer.Common.Dict.{get, put, has, get-put, nat_key, text_key}
use wake_surfer.Common.Exec.{◌>>=◌, Keeps, >>=-Keeps}
use wake_surfer.Contract.{PublicMessage, is_deleted_public_message}
use wake_surfer.Timeline.{
  Timeline, register_record, remove_buffered, replace_record, messages_equal,
}
use wake_surfer.Timeline.Insert.{
  insertion_index, show_record, insert_loaded_message, keep_aside, buffer_message, replace_known,
}
use wake_surfer.Timeline.Apply.{refresh, remember_accepted, has_newer_edit, is_text}
use wake_surfer.Timeline.Shown.{checked, assert_identity-cases}
use wake_surfer.Timeline.Steady.{IsSteady}
use wake_surfer.Timeline.Applied.{
  apply_live-Keeps, apply_accepted-Keeps, restore_cursor-Keeps, apply_latest-Keeps,
  apply_older-Keeps, apply_sync-Keeps,
}
use wake_surfer.Timeline.Runs.{
  Call, restore, live, accepted, replace, latest, older, sync, method_of, run,
}

module _ (id : String) (m : PublicMessage) (is_deleted : is_deleted_public_message m ≡ true) where
  abbrev Stays : Timeline → Type 0
  Stays t = get id t.records ≡ some m

  register_record-Stays : (r : PublicMessage) → Keeps Stays (register_record r)
  unfolding register_record
  register_record-Stays r t stays = elim (Option-cases (get r.message_id t.records)) [
    | inl new ↦ rw new (ground (arith, get-put r.message_id id r t.records, eq_iff r.message_id id))
    | inr (old, known) ↦ rw known stays
  ]

  show_record-Stays : (r : PublicMessage) → Keeps Stays (show_record r)
  unfolding show_record remove_buffered
  show_record-Stays r t stays = elim (Bool-cases (has r.message_id t.visible_id_set)) [
    | inl shown ↦ rw shown stays
    | inr hidden ↦ elim (Option-cases (insertion_index t r.sequence (length t.visible_ids))) [
      | inl fails ↦ rw (hidden, fails) stays
      | inr (k, found) ↦ rw (hidden, found) stays
    ]
  ]

  insert_loaded_message-Stays : (r : PublicMessage) → Keeps Stays (insert_loaded_message r)
  unfolding insert_loaded_message
  insert_loaded_message-Stays r t stays =
      checked r t Stays (register_record r >>= show_record) stays (λ ours agreed.
        >>=-Keeps Stays (register_record r) show_record (register_record-Stays r) show_record-Stays
          t stays)

  keep_aside-Stays : (r : PublicMessage) → Keeps Stays (keep_aside r)
  unfolding keep_aside
  keep_aside-Stays r =
      >>=-Keeps Stays (register_record r)
        (λ u t. (
          ok tt,
          record t { buffered_by_sequence = put r.sequence r.message_id t.buffered_by_sequence },
        ))
        (register_record-Stays r) (λ u t stays. stays)

  buffer_message-Stays : (r : PublicMessage) → Keeps Stays (buffer_message r)
  unfolding buffer_message
  buffer_message-Stays r t stays = elim (assert_identity-cases r t) [
    | inr refused ↦ rw refused stays
    | inl (agreed, passed) ↦ elim (Bool-cases (has r.message_id t.visible_id_set)) [
      | inl shown ↦ rw (passed, shown) stays
      | inr hidden ↦ rw (passed, hidden) (keep_aside-Stays r t stays)
    ]
  ]

  remember_accepted-Stays : (r : PublicMessage) → Keeps Stays (remember_accepted r)
  remember_accepted-Stays r t stays = elim (Bool-cases (has r.message_id t.visible_id_set)) [
    | inl shown ↦ rw shown stays
    | inr hidden ↦ rw hidden stays
  ]

  remove_buffered-Stays : (r : PublicMessage) → Keeps Stays (remove_buffered r)
  unfolding remove_buffered
  remove_buffered-Stays r t stays = stays

  -- What replaces a record has that record's ID, and a deleted one is left alone.
  refresh-Stays :
      (date_parse : String → Option ℕ) (r : PublicMessage) (t : Timeline)
      → Stays t
      → Stays (refresh date_parse (get r.message_id t.records) r t).1
  unfolding replace_known is_deleted_public_message
  refresh-Stays date_parse r t stays = elim (Option-cases (get r.message_id t.records)) [
    | inl unknown ↦ rw unknown stays
    | inr (old, known) ↦
        elim (Bool-cases (
          is_text date_parse old.content
          && not (has_newer_edit date_parse old.content r.content))) [
            | inr kept ↦ rw (known, kept) stays
            | inl fresh ↦
                rw (known, fresh)
                  (checked r t Stays (λ s. replace_record (get r.message_id s.records) r s) stays
                    (λ ours agreed. elim (Bool-cases (messages_equal old r)) [
                      | inl equal ↦ rw (known, equal) stays
                      | inr changed ↦
                          rw (known, changed)
                            (elim (Bool-cases (str_eq r.message_id id)) [
                              | inr another ↦
                                  rw (get-put r.message_id id r t.records, another) stays
                              | inl same ↦
                                  let is_id = (eq_iff r.message_id id).0 same in
                                  let is_old : old ≡ m = ground arith in
                                  let gone : is_deleted_public_message old ≡ true =
                                    rw is_old is_deleted in
                                  ground arith
                            ])
                    ]))
          ]
  ]

  Stays-IsSteady : IsSteady Stays
  Stays-IsSteady = record {
    inserts = insert_loaded_message-Stays;
    registers = λ r t stays ours agreed. register_record-Stays r t stays;
    buffers = λ r t stays ours. buffer_message-Stays r t stays;
    unbuffers = remove_buffered-Stays;
    refreshes = refresh-Stays;
    remembers = remember_accepted-Stays;
    moves = λ cursor t stays. stays;
    pages = λ before more t stays. stays;
  }

-- A call of `replaceKnown`, by which an edit or a deletion is applied.
abbrev pub is_replacement : Call → Bool
is_replacement (replace m) = true
is_replacement _ = false

module _ (date_parse : String → Option ℕ) (id : String) (m : PublicMessage)
    (is_deleted : is_deleted_public_message m ≡ true) where
  method_of-Stays :
      (call : Call)
      → is_replacement call ≡ false
      → Keeps (Stays id m is_deleted) (method_of date_parse call)
  method_of-Stays (restore n) h =
      restore_cursor-Keeps (Stays id m is_deleted) (Stays-IsSteady id m is_deleted) n
  method_of-Stays (live r) h =
      apply_live-Keeps (Stays id m is_deleted) (Stays-IsSteady id m is_deleted) r
  method_of-Stays (accepted r) h =
      apply_accepted-Keeps (Stays id m is_deleted) (Stays-IsSteady id m is_deleted) r
  method_of-Stays (replace r) h = cc
  method_of-Stays (latest r) h =
      apply_latest-Keeps (Stays id m is_deleted) (Stays-IsSteady id m is_deleted) date_parse r
  method_of-Stays (older r) h =
      apply_older-Keeps (Stays id m is_deleted) (Stays-IsSteady id m is_deleted) date_parse r
  method_of-Stays (sync r) h =
      apply_sync-Keeps (Stays id m is_deleted) (Stays-IsSteady id m is_deleted) date_parse r

-- A record that is a deletion stays the record of its ID, unchanged, through any calls of the public
-- methods but `replaceKnown`, throwing calls included: no page, notification or acceptance with an
-- older state of the message brings its text back.
pub run-keeps_deleted :
    (date_parse : String → Option ℕ) (id : String) (m : PublicMessage) (t : Timeline)
    (calls : List Call)
    → is_deleted_public_message m ≡ true
    → get id t.records ≡ some m
    → All (λ call. is_replacement call ≡ false) calls
    → get id (run date_parse calls t).records ≡ some m
unfolding run
run-keeps_deleted date_parse id m t [] is_deleted stays others = stays
run-keeps_deleted date_parse id m t (call ∷ calls) is_deleted stays (other, others) =
    run-keeps_deleted date_parse id m (method_of date_parse call t).1 calls is_deleted
      (method_of-Stays date_parse id m is_deleted call other t stays) others
