-- ===== src/Timeline/Apply.antt =====
-- timeline-model.ts: the public methods that apply a response or a notification of the server.
use wake_surfer.Common.{
  ℕ, ◌+◌, String, Bool, true, false, not, ◌&&◌, List, [], ◌∷◌, Option, none, some, ltb, leb, ◌==◌,
  if◌then◌else◌, ok, err,
}
use wake_surfer.Common.Dict.{get, has, add, text_key}
use wake_surfer.Common.Exec.{pure, ◌>>=◌, ◌>>◌}
use wake_surfer.Contract.{PublicMessage, Content, text, deleted}
use wake_surfer.Contract.Responses.{LatestResponse, OlderResponse, SyncResponse}
use wake_surfer.Timeline.{
  sync_cursor_mismatch, sync_no_progress, Method, assert_stream, assert_message_target,
  assert_identity, register_record, set_history,
}
use wake_surfer.Timeline.Insert.{
  replace_known, insert_loaded_message, buffer_message, drain_contiguous_buffer,
  discard_buffered_at_or_before_cursor,
}

-- Date.parse(a) > Date.parse(b), false where one of them is NaN
abbrev pub later : Option ℕ → Option ℕ → Bool
later (some a) (some b) = ltb b a
later _ _ = false

unfoldable pub set_cursor : ℕ → Method (Unit {0})
set_cursor n t = (ok tt, record t { delivery_sync_cursor = some n })

-- The public method `applyLive`, for a cursor that is read first.
abbrev pub deliver : Option ℕ → PublicMessage → Method (Unit {0})
deliver none m = buffer_message m
deliver (some cursor) m =
    if leb m.sequence cursor
    then pure tt
    else if m.sequence == cursor + 1
    then (do
      insert_loaded_message m
      (λ t. (ok tt, record t { delivery_sync_cursor = some m.sequence }))
      drain_contiguous_buffer)
    else buffer_message m

unfoldable pub apply_live : PublicMessage → Method (Unit {0})
apply_live m = do
  assert_message_target m
  assert_identity m
  (λ t. deliver t.delivery_sync_cursor m t)

-- The set of messages whose acceptance is remembered until they are shown.
abbrev pub remember_accepted : PublicMessage → Method (Unit {0})
remember_accepted r t = (
  ok tt,
  if has r.message_id t.visible_id_set
      then t
      else record t { accepted_outside_visible = add r.message_id t.accepted_outside_visible },
)

-- cursor !== null && sequence <= cursor
abbrev pub is_covered : Option ℕ → ℕ → Bool
is_covered none sequence = false
is_covered (some cursor) sequence = leb sequence cursor

unfoldable pub apply_accepted : PublicMessage → Method (Unit {0})
unfolding apply_live
apply_accepted m = do
  assert_message_target m
  assert_identity m
  r ← register_record m
  remember_accepted r
  (λ t.
      if is_covered t.delivery_sync_cursor r.sequence
      then insert_loaded_message r t
      else apply_live r t)

-- deliverySyncCursor !== afterSequence
abbrev pub is_cursor : Option ℕ → ℕ → Bool
is_cursor none after = false
is_cursor (some cursor) after = cursor == after

abbrev pub check_sync : SyncResponse → Method (Unit {0})
check_sync r t =
    if not (is_cursor t.delivery_sync_cursor r.after_sequence)
    then (err sync_cursor_mismatch, t)
    else if r.has_more_after && leb r.next_after_sequence r.after_sequence
    then (err sync_no_progress, t)
    else (ok tt, t)

module _ (date_parse : String → Option ℕ) where
  -- The text of the record was edited after the message was read.
  abbrev pub has_newer_edit : Content → Content → Bool
  has_newer_edit (text s (some edited)) (text r none) = true
  has_newer_edit (text s (some edited)) (text r (some read)) =
      later (date_parse edited) (date_parse read)
  has_newer_edit _ _ = false

  abbrev pub is_text : Content → Bool
  is_text (text s e) = true
  is_text (deleted d) = false

  -- A deletion is not undone, nor a newer edit.
  abbrev pub refresh : Option PublicMessage → PublicMessage → Method (Unit {0})
  refresh none m = pure tt
  refresh (some current) m =
      if is_text current.content && not (has_newer_edit current.content m.content)
      then replace_known m
      else pure tt

  -- this.#records.get(id) ?? message
  abbrev pub record_or : Option PublicMessage → PublicMessage → PublicMessage
  record_or none m = m
  record_or (some current) m = current

  unfoldable pub insert_history_message : PublicMessage → Method (Unit {0})
  insert_history_message m = do
    assert_message_target m
    assert_identity m
    (λ t. refresh (get m.message_id t.records) m t)
    (λ t. insert_loaded_message (record_or (get m.message_id t.records) m) t)

  unfoldable pub insert_history_messages : List PublicMessage → Method (Unit {0})
  insert_history_messages [] = pure tt
  insert_history_messages (m ∷ ms) = insert_history_message m >> insert_history_messages ms

  unfoldable pub apply_latest : LatestResponse → Method (Unit {0})
  unfolding set_cursor
  apply_latest r = do
    assert_stream r.stream
    insert_history_messages r.messages
    set_cursor r.through_sequence
    set_history r.next_before_sequence r.has_more_before
    discard_buffered_at_or_before_cursor
    drain_contiguous_buffer

  unfoldable pub apply_older : OlderResponse → Method (Unit {0})
  apply_older r = do
    assert_stream r.stream
    insert_history_messages r.messages
    set_history r.next_before_sequence r.has_more_before

  unfoldable pub apply_sync : SyncResponse → Method (Unit {0})
  unfolding set_cursor
  apply_sync r = do
    assert_stream r.stream
    check_sync r
    insert_history_messages r.messages
    set_cursor r.next_after_sequence
    discard_buffered_at_or_before_cursor
    (if r.has_more_after then pure tt else drain_contiguous_buffer)
