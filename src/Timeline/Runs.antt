-- ===== src/Timeline/Runs.antt =====
-- Runs of the model: any sequence of calls of its public methods, each of which may throw.
use wake_surfer.Common.{subst, ℕ, ◌≡◌, refl, String, true, List, [], ◌∷◌, Option, some, map, All}
use wake_surfer.Common.Dict.{has, nat_key, text_key}
use wake_surfer.Common.Exec.{Keeps}
use wake_surfer.Values.{Number}
use wake_surfer.Contract.{MessageTarget, PublicMessage}
use wake_surfer.Contract.Responses.{LatestResponse, OlderResponse, SyncResponse}
use wake_surfer.Timeline.{Timeline, Method, create, messages, messages_of, restore_cursor}
use wake_surfer.Timeline.Insert.{replace_known}
use wake_surfer.Timeline.Apply.{apply_live, apply_accepted, apply_latest, apply_older, apply_sync}
use wake_surfer.Timeline.Consistent.{
  IsOurs, IsKnown, sequence_in, IsConsistent, create-IsConsistent,
}
use wake_surfer.Timeline.Order.{Ascending}
use wake_surfer.Timeline.Applied.{
  apply_live-Keeps, apply_accepted-Keeps, restore_cursor-Keeps, apply_latest-Keeps,
  apply_older-Keeps, apply_sync-Keeps,
}
use wake_surfer.Timeline.Kept.{Follows, Follows-IsSteady, replace_known-Keeps}

-- A call of a public method.
pub data Call : Type 0 where
  restore : Number → Call
  live accepted replace : PublicMessage → Call
  latest : LatestResponse → Call
  older : OlderResponse → Call
  sync : SyncResponse → Call

module _ (date_parse : String → Option ℕ) where
  abbrev pub method_of : Call → Method (Unit {0})
  method_of (restore n) = restore_cursor n
  method_of (live m) = apply_live m
  method_of (accepted m) = apply_accepted m
  method_of (replace m) = replace_known m
  method_of (latest r) = apply_latest date_parse r
  method_of (older r) = apply_older date_parse r
  method_of (sync r) = apply_sync date_parse r

  -- The model after the calls. A call that throws leaves what it wrote.
  unfoldable pub run : List Call → Timeline → Timeline
  run [] t = t
  run (call ∷ calls) t = run calls (method_of call t).1

  method_of-Keeps : (o : Timeline) (call : Call) → Keeps (Follows o) (method_of call)
  method_of-Keeps o (restore n) = restore_cursor-Keeps (Follows o) (Follows-IsSteady o) n
  method_of-Keeps o (live m) = apply_live-Keeps (Follows o) (Follows-IsSteady o) m
  method_of-Keeps o (accepted m) = apply_accepted-Keeps (Follows o) (Follows-IsSteady o) m
  method_of-Keeps o (replace m) = replace_known-Keeps o m
  method_of-Keeps o (latest r) = apply_latest-Keeps (Follows o) (Follows-IsSteady o) date_parse r
  method_of-Keeps o (older r) = apply_older-Keeps (Follows o) (Follows-IsSteady o) date_parse r
  method_of-Keeps o (sync r) = apply_sync-Keeps (Follows o) (Follows-IsSteady o) date_parse r

  run-Follows :
      (o : Timeline) (calls : List Call) (t : Timeline) → Follows o t → Follows o (run calls t)
  unfolding run
  run-Follows o [] t f = f
  run-Follows o (call ∷ calls) t f =
      run-Follows o calls (method_of call t).1 (method_of-Keeps o call t f)

  -- The model that the calls make of a new one.
  abbrev pub reached : MessageTarget → List Call → Timeline
  reached target calls = run calls (create target)

  pub run-IsConsistent :
      (target : MessageTarget) (calls : List Call) → IsConsistent (reached target calls)
  run-IsConsistent target calls =
      (run-Follows (create target) calls (create target)
        (create-IsConsistent target, refl, λ id h. h)).0

  run-target : (target : MessageTarget) (calls : List Call) → (reached target calls).target ≡ target
  run-target target calls =
      (run-Follows (create target) calls (create target)
        (create-IsConsistent target, refl, λ id h. h)).1

  known_messages :
      (t : Timeline) (c : IsConsistent t) (ids : List String)
      → All (IsKnown t.records) ids
      → (ms : List PublicMessage) × (messages_of ids t ≡ map some ms)
        × (map PublicMessage.sequence ms ≡ map (sequence_in t.records) ids)
        × (map PublicMessage.message_id ms ≡ ids)
        × All (IsOurs t.target) ms
  known_messages t c [] h = ([], refl, refl, refl, tt)
  known_messages t c (id ∷ ids) ((m, known), h) =
      let (ms, are, sequences, named, ours) = known_messages t c ids h in
      let (is_id, number, is_ours) = c.record_keys id m known in
      (m ∷ ms, cc, cc, cc, (is_ours, ours))

  -- After any calls of the public methods, throwing ones included, on a new model of a stream: every
  -- ID that `visibleIds` holds has a record under that ID, so that `messages` holds no `undefined`;
  -- all the messages are of this stream and target; and they stand in strictly ascending order of
  -- their sequence numbers.
  pub run-messages :
      (target : MessageTarget) (calls : List Call)
      → (ms : List PublicMessage) × (messages (reached target calls) ≡ map some ms)
        × (map PublicMessage.message_id ms ≡ (reached target calls).visible_ids)
        × Ascending (map PublicMessage.sequence ms)
        × All (IsOurs target) ms
  run-messages target calls =
      let t = reached target calls in
      let c = run-IsConsistent target calls in
      let (ms, are, sequences, named, ours) = known_messages t c t.visible_ids c.all_known in
      (
        ms,
        are,
        named,
        rw sequences c.ascending,
        subst (λ g. All (IsOurs g) ms) (run-target target calls) ours,
      )

  -- A message that is shown after some calls on a new model is still shown after any further calls.
  pub run-keeps_shown :
      (target : MessageTarget) (calls more : List Call) (id : String)
      → has id (reached target calls).visible_ids ≡ true
      → has id (run more (reached target calls)).visible_ids ≡ true
  run-keeps_shown target calls more id shown =
      (run-Follows (reached target calls) more (reached target calls)
          (run-IsConsistent target calls, refl, λ id h. h)).2
        id shown
