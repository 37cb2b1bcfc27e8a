-- ===== src/Timeline/Applied.antt =====
-- The public methods of the model keep a predicate that its single steps keep.
use wake_surfer.Common.{
  ℕ, ◌+◌, inl, inr, String, Bool, true, false, not, ◌&&◌, List, [], ◌∷◌, Option, none, some, leb,
  ◌==◌, ok, All, Bool-cases, str_eq, if◌then◌else◌,
}
use wake_surfer.Common.Dict.{get, nat_key, text_key}
use wake_surfer.Common.Exec.{◌>>=◌, ◌>>◌, pure, Keeps, continue-Keeps, >>=-Keeps}
use wake_surfer.Values.{Number, whole, is_safe_integer}
use wake_surfer.Contract.{PublicMessage}
use wake_surfer.Contract.Responses.{LatestResponse, OlderResponse, SyncResponse}
use wake_surfer.Timeline.{
  Timeline, Method, restore_cursor, assert_stream, stream_id, register_record, set_history,
}
use wake_surfer.Timeline.Insert.{
  insert_loaded_message, drain_contiguous_buffer, discard_buffered_at_or_before_cursor,
}
use wake_surfer.Timeline.Apply.{
  set_cursor, deliver, apply_live, remember_accepted, is_covered, apply_accepted, is_cursor,
  check_sync, refresh, record_or, insert_history_message, insert_history_messages, apply_latest,
  apply_older, apply_sync,
}
use wake_surfer.Timeline.Consistent.{IsOurs}
use wake_surfer.Timeline.Shown.{checked}
use wake_surfer.Timeline.Steady.{
  IsSteady, drain_contiguous_buffer-Keeps, discard_buffered_at_or_before_cursor-Keeps,
}

abbrev move : PublicMessage → Method (Unit {0})
move m t = (ok tt, record t { delivery_sync_cursor = some m.sequence })

-- Steps that follow each other.
abbrev steps : Method (Unit {0}) → List (Method (Unit {0})) → Method (Unit {0})
steps first [] = first
steps first (next ∷ rest) = first >> steps next rest

module _ (P : Timeline → Type 0) (k : IsSteady P) where
  deliver-Keeps :
      (cursor : Option ℕ) (m : PublicMessage) (t : Timeline)
      → P t
      → IsOurs t.target m
      → P (deliver cursor m t).1
  deliver-Keeps none m t f ours = k.buffers m t f ours
  deliver-Keeps (some cursor) m t f ours = elim (Bool-cases (leb m.sequence cursor)) [
    | inl old ↦ rw old f
    | inr new ↦ elim (Bool-cases (m.sequence == cursor + 1)) [
      | inl adjacent ↦
          rw (new, adjacent)
            (>>=-Keeps P (insert_loaded_message m) (λ _. move m >> drain_contiguous_buffer)
              (k.inserts m)
              (λ _ s q.
                drain_contiguous_buffer-Keeps P k (move m s).1 (k.moves (some m.sequence) s q))
              t f)
      | inr gap ↦ rw (new, gap) (k.buffers m t f ours)
    ]
  ]

  pub apply_live-Keeps : (m : PublicMessage) → Keeps P (apply_live m)
  unfolding apply_live
  apply_live-Keeps m t f =
      checked m t P (λ s. deliver s.delivery_sync_cursor m s) f
        (λ ours agreed. deliver-Keeps t.delivery_sync_cursor m t f ours)

  -- What `applyAccepted` does once the record is there.
  accept :
      (r : PublicMessage)
      → Keeps P (λ s.
        if is_covered s.delivery_sync_cursor r.sequence
        then insert_loaded_message r s
        else apply_live r s)
  accept r s f = elim (Bool-cases (is_covered s.delivery_sync_cursor r.sequence)) [
    | inl covered ↦ rw covered (k.inserts r s f)
    | inr ahead ↦ rw ahead (apply_live-Keeps r s f)
  ]

  pub apply_accepted-Keeps : (m : PublicMessage) → Keeps P (apply_accepted m)
  unfolding apply_accepted
  apply_accepted-Keeps m t f =
      checked m t P (register_record m >>= λ r. remember_accepted r >> rest r) f (λ ours agreed.
        continue-Keeps P (register_record m t).0 (λ r. remember_accepted r >> rest r)
          (λ r. >>=-Keeps P (remember_accepted r) (λ _. rest r) (k.remembers r) (λ _. accept r))
          (register_record m t).1 (k.registers m t f ours agreed))
    where
      rest : PublicMessage → Method (Unit {0})
      rest r s =
          if is_covered s.delivery_sync_cursor r.sequence
          then insert_loaded_message r s
          else apply_live r s

  assert_stream-Keeps : (sid : String) → Keeps P (assert_stream sid)
  unfolding assert_stream
  assert_stream-Keeps sid t f = elim (Bool-cases (str_eq sid (stream_id t))) [
    | inl same ↦ rw same f
    | inr another ↦ rw another f
  ]

  check_sync-Keeps : (r : SyncResponse) → Keeps P (check_sync r)
  check_sync-Keeps r t f =
      elim (Bool-cases (not (is_cursor t.delivery_sync_cursor r.after_sequence))) [
        | inl mismatch ↦ rw mismatch f
        | inr at ↦
            elim (Bool-cases (r.has_more_after && leb r.next_after_sequence r.after_sequence)) [
              | inl stuck ↦ rw (at, stuck) f
              | inr moves ↦ rw (at, moves) f
            ]
      ]

  set_cursor-Keeps : (n : ℕ) → Keeps P (set_cursor n)
  unfolding set_cursor
  set_cursor-Keeps n t f = k.moves (some n) t f

  set_history-Keeps : (before : Option ℕ) (more : Bool) → Keeps P (set_history before more)
  unfolding set_history
  set_history-Keeps before more t f = k.pages before more t f

  pub restore_cursor-Keeps : (n : Number) → Keeps P (restore_cursor n)
  unfolding restore_cursor
  restore_cursor-Keeps (whole n) t f = elim (Bool-cases (is_safe_integer (whole n))) [
    | inl safe ↦ rw safe (k.moves (some n) t f)
    | inr large ↦ rw large f
  ]
  restore_cursor-Keeps _ t f = f

  steps-Keeps :
      (first : Method (Unit {0})) (rest : List (Method (Unit {0})))
      → Keeps P first
      → All (Keeps P) rest
      → Keeps P (steps first rest)
  steps-Keeps first [] k ks = k
  steps-Keeps first (next ∷ rest) k (kn, ks) =
      >>=-Keeps P first (λ _. steps next rest) k (λ _. steps-Keeps next rest kn ks)

  -- Two steps, one after the other.
  then-Keeps : (m n : Method (Unit {0})) → Keeps P m → Keeps P n → Keeps P (m >> n)
  then-Keeps m n km kn = >>=-Keeps P m (λ _. n) km (λ _. kn)

  module _ (date_parse : String → Option ℕ) where
    insert_history_message-Keeps :
        (m : PublicMessage) → Keeps P (insert_history_message date_parse m)
    unfolding insert_history_message
    insert_history_message-Keeps m t f = checked m t P (renew >> show) f (λ ours agreed.
        then-Keeps renew show (λ s. k.refreshes date_parse m s)
          (λ s. k.inserts (record_or date_parse (get m.message_id s.records) m) s) t f)
      where
        renew : Method (Unit {0})
        renew s = refresh date_parse (get m.message_id s.records) m s

        show : Method (Unit {0})
        show s = insert_loaded_message (record_or date_parse (get m.message_id s.records) m) s

    insert_history_messages-Keeps :
        (ms : List PublicMessage) → Keeps P (insert_history_messages date_parse ms)
    unfolding insert_history_messages
    insert_history_messages-Keeps [] t f = f
    insert_history_messages-Keeps (m ∷ ms) t f =
        then-Keeps (insert_history_message date_parse m) (insert_history_messages date_parse ms)
          (insert_history_message-Keeps m) (insert_history_messages-Keeps ms) t f

    pub apply_latest-Keeps : (r : LatestResponse) → Keeps P (apply_latest date_parse r)
    unfolding apply_latest
    apply_latest-Keeps r =
        steps-Keeps (assert_stream r.stream)
          (insert_history_messages date_parse r.messages
            ∷ set_cursor r.through_sequence
            ∷ set_history r.next_before_sequence r.has_more_before
            ∷ discard_buffered_at_or_before_cursor
            ∷ drain_contiguous_buffer
            ∷ [])
          (assert_stream-Keeps r.stream)
          (
            insert_history_messages-Keeps r.messages,
            (
              set_cursor-Keeps r.through_sequence,
              (
                set_history-Keeps r.next_before_sequence r.has_more_before,
                (
                  discard_buffered_at_or_before_cursor-Keeps P k,
                  (drain_contiguous_buffer-Keeps P k, tt),
                ),
              ),
            ),
          )

    pub apply_older-Keeps : (r : OlderResponse) → Keeps P (apply_older date_parse r)
    unfolding apply_older
    apply_older-Keeps r =
        steps-Keeps (assert_stream r.stream)
          (insert_history_messages date_parse r.messages
            ∷ set_history r.next_before_sequence r.has_more_before
            ∷ [])
          (assert_stream-Keeps r.stream)
          (
            insert_history_messages-Keeps r.messages,
            (set_history-Keeps r.next_before_sequence r.has_more_before, tt),
          )

    last_drain : (more : Bool) → Keeps P (if more then pure tt else drain_contiguous_buffer)
    last_drain true t f = f
    last_drain false t f = drain_contiguous_buffer-Keeps P k t f

    pub apply_sync-Keeps : (r : SyncResponse) → Keeps P (apply_sync date_parse r)
    unfolding apply_sync
    apply_sync-Keeps r =
        steps-Keeps (assert_stream r.stream)
          (check_sync r
            ∷ insert_history_messages date_parse r.messages
            ∷ set_cursor r.next_after_sequence
            ∷ discard_buffered_at_or_before_cursor
            ∷ (if r.has_more_after then pure tt else drain_contiguous_buffer)
            ∷ [])
          (assert_stream-Keeps r.stream)
          (
            check_sync-Keeps r,
            (
              insert_history_messages-Keeps r.messages,
              (
                set_cursor-Keeps r.next_after_sequence,
                (discard_buffered_at_or_before_cursor-Keeps P k, (last_drain r.has_more_after, tt)),
              ),
            ),
          )
