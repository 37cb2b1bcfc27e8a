-- ===== src/Timeline/Consistent.antt =====
-- The invariant of the model of a stream.
pub mod Steps
pub mod Show
use wake_surfer.Common.{
  ℕ, ◌≡◌, String, Bool, true, false, List, [], ◌∷◌, Option, none, some, map, All, refl,
}
use wake_surfer.Common.Dict.{get, has, nat_key, text_key}
use wake_surfer.Contract.{MessageTarget, PublicMessage, get_canonical_stream_id}
use wake_surfer.Timeline.{Timeline, create, stream_messages_client_targets_equal}
use wake_surfer.Timeline.Order.{Ascending}

-- A message of the stream with this target.
abbrev pub IsOurs : MessageTarget → PublicMessage → Type 0
IsOurs target m =
    (m.stream_id ≡ get_canonical_stream_id target)
    × (stream_messages_client_targets_equal target m.target ≡ true)

abbrev pub IsKnown : List (String × PublicMessage) → String → Type 0
IsKnown records id = (m : PublicMessage) × (get id records ≡ some m)

abbrev pub sequence_of : Option PublicMessage → ℕ
sequence_of none = 0
sequence_of (some m) = m.sequence

abbrev pub sequence_in : List (String × PublicMessage) → String → ℕ
sequence_in records id = sequence_of (get id records)

pub record Core (target : MessageTarget) (records : List (String × PublicMessage))
    (ids shown : List String) (m2s : List (String × ℕ)) (s2m buffered : List (ℕ × String))
    : Type 0 where
  -- A record stands under its own ID, is one of this stream, and its number is the registered one.
  pub record_keys :
      (id : String) (m : PublicMessage)
      → get id records ≡ some m
      → (m.message_id ≡ id) × (get id m2s ≡ some m.sequence) × IsOurs target m
  pub known_ids : (id : String) (n : ℕ) → get id m2s ≡ some n → IsKnown records id
  -- The two maps between IDs and sequence numbers are inverse to each other.
  pub forward : (id : String) (n : ℕ) → get id m2s ≡ some n → get n s2m ≡ some id
  pub backward : (id : String) (n : ℕ) → get n s2m ≡ some id → get id m2s ≡ some n
  pub all_known : All (IsKnown records) ids
  pub same_set : (id : String) → has id shown ≡ has id ids
  pub ascending : Ascending (map (sequence_in records) ids)
  -- What is buffered is registered under that number and not shown.
  pub waiting :
      (id : String) (n : ℕ)
      → get n buffered ≡ some id
      → (get n s2m ≡ some id) × (has id ids ≡ false)

abbrev pub IsConsistent : Timeline → Type 0
IsConsistent t =
    Core t.target t.records t.visible_ids t.visible_id_set t.message_id_to_sequence
      t.sequence_to_message_id t.buffered_by_sequence

pub create-IsConsistent : (target : MessageTarget) → IsConsistent (create target)
unfolding get has
create-IsConsistent target = record {
  record_keys = λ id m h. cc;
  known_ids = λ id n h. cc;
  forward = λ id n h. cc;
  backward = λ id n h. cc;
  all_known = tt;
  same_set = λ id. refl;
  ascending = tt;
  waiting = λ id n h. cc;
}
