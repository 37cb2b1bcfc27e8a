-- ===== src/Timeline/Insert.antt =====
-- timeline-model.ts: the private methods that show a message, keep it aside, or drain what was kept.
use wake_surfer.Common.{
  ℕ, zero, suc, String, List, [], ◌∷◌, ◌++◌, Option, none, some, ltb, leb, length, take, drop,
  if◌then◌else◌, ok, err,
}
use wake_surfer.Common.Dict.{get, put, has, add, discard, nat_key, text_key}
use wake_surfer.Common.Exec.{◌>>=◌, ◌>>◌}
use wake_surfer.Contract.{PublicMessage}
use wake_surfer.Timeline.{
  Timeline, type_error, Method, assert_message_target, assert_identity, register_record,
  remove_buffered, replace_record,
}

-- replaceKnown
unfoldable pub replace_known : PublicMessage → Method (Unit {0})
replace_known m = do
  assert_message_target m
  assert_identity m
  (λ t. replace_record (get m.message_id t.records) m t)

abbrev pub get_elem? {ℓ} : {A : Type ℓ} → List A → ℕ → Option A
get_elem? [] i = none
get_elem? (x ∷ xs) zero = some x
get_elem? (x ∷ xs) (suc i) = get_elem? xs i

-- this.#records.get(this.#visibleIds[index]!)!.sequence, `none` where that throws
abbrev pub sequence_at : Timeline → ℕ → Option ℕ
sequence_at t i = elim (get_elem? t.visible_ids i) [
  | none ↦ none
  | some id ↦ elim (get id t.records) [ none ↦ none | some r ↦ some r.sequence ]
]

-- The loop that looks for the place of a sequence number, from the end.
unfoldable pub insertion_index : Timeline → (sequence index : ℕ) → Option ℕ
insertion_index t sequence zero = some 0
insertion_index t sequence (suc i) =
    let rest = insertion_index t sequence i in
    elim (sequence_at t i) [ none ↦ none | some s ↦ if ltb sequence s then rest else some (suc i) ]

-- splice(index, 0, id), and the bookkeeping that follows
abbrev pub show_at : Option ℕ → PublicMessage → Method (Unit {0})
show_at none m t = (err type_error, t)
show_at (some i) m t = (
  ok tt,
  record t {
    visible_ids = take i t.visible_ids ++ (m.message_id ∷ drop i t.visible_ids);
    visible_id_set = add m.message_id t.visible_id_set;
    accepted_outside_visible = discard m.message_id t.accepted_outside_visible;
  },
)

-- The end of `#insertLoadedMessage`, for the record that is registered.
unfoldable pub show_record : PublicMessage → Method (Unit {0})
unfolding insertion_index
show_record m t =
    if has m.message_id t.visible_id_set
    then remove_buffered m t
    else (show_at (insertion_index t m.sequence (length t.visible_ids)) m >> remove_buffered m) t

unfoldable pub insert_loaded_message : PublicMessage → Method (Unit {0})
insert_loaded_message m = do
  assert_message_target m
  assert_identity m
  r ← register_record m
  show_record r

-- The end of `#bufferMessage`, for a message that is not shown.
unfoldable pub keep_aside : PublicMessage → Method (Unit {0})
keep_aside m = do
  r ← register_record m
  (λ t. (
    ok tt,
    record t { buffered_by_sequence = put m.sequence m.message_id t.buffered_by_sequence },
  ))

unfoldable pub buffer_message : PublicMessage → Method (Unit {0})
buffer_message m = do
  assert_identity m
  (λ t. if has m.message_id t.visible_id_set then (ok tt, t) else keep_aside m t)

-- The record of a message that is buffered; `throw` where the source reads `undefined`.
abbrev pub insert_known : Option PublicMessage → Method (Unit {0})
insert_known none t = (err type_error, t)
insert_known (some r) t = insert_loaded_message r t

-- One round of `#drainContiguousBuffer`: the message right after the cursor is shown, and the
-- cursor moves to it.
abbrev pub drain_one : (next : ℕ) → String → Method (Unit {0})
drain_one next id = do
  (λ t. insert_known (get id t.records) t)
  (λ t. (ok tt, record t { delivery_sync_cursor = some next }))

-- The loop, with fuel for the rounds. Each round takes an entry out of the buffer, so the number of
-- the buffered entries is enough.
unfoldable pub drain_loop : (fuel cursor : ℕ) → Method (Unit {0})
drain_loop zero cursor t = (ok tt, t)
drain_loop (suc fuel) cursor t =
    let next = suc cursor in
    elim (get next t.buffered_by_sequence) [
      | none ↦ (ok tt, t)
      | some id ↦ (drain_one next id >> drain_loop fuel next) t
    ]

abbrev pub drain_from : Option ℕ → Method (Unit {0})
drain_from none t = (ok tt, t)
drain_from (some cursor) t = drain_loop (suc (length t.buffered_by_sequence)) cursor t

unfoldable pub drain_contiguous_buffer : Method (Unit {0})
unfolding drain_loop
drain_contiguous_buffer t = drain_from t.delivery_sync_cursor t

-- An accepted message stays shown, any other is dropped.
abbrev pub discard_known : String → Option PublicMessage → Method (Unit {0})
discard_known id none t = (err type_error, t)
discard_known id (some r) t =
    if has id t.accepted_outside_visible then insert_loaded_message r t else remove_buffered r t

-- `for (const [sequence, messageId] of this.#bufferedBySequence)`, over the entries that the map
-- held when the loop began: a round takes out no entry but its own.
unfoldable pub discard_each : (cursor : ℕ) → List (ℕ × String) → Method (Unit {0})
discard_each cursor [] t = (ok tt, t)
discard_each cursor ((sequence, id) ∷ entries) t =
    let rest = discard_each cursor entries in
    if leb sequence cursor then ((λ t. discard_known id (get id t.records) t) >> rest) t else rest t

abbrev pub discard_to : Option ℕ → Method (Unit {0})
discard_to none t = (ok tt, t)
discard_to (some cursor) t = discard_each cursor t.buffered_by_sequence t

unfoldable pub discard_buffered_at_or_before_cursor : Method (Unit {0})
unfolding discard_each
discard_buffered_at_or_before_cursor t = discard_to t.delivery_sync_cursor t
