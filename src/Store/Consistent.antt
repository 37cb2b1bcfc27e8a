-- ===== src/Store/Consistent.antt =====
-- The sequence numbers of a stream: what the statements on `message_streams` do to the last one, and
-- which numbers the messages have.
use wake_surfer.Common.{
  ℕ, zero, suc, ◌<◌, String, true, false, List, [], ◌∷◌, ◌++◌, Option, none, some, ◌≡◌, ◌≢◌, inl,
  inr, refl, subst, arith, str_eq, eq_iff, eq_refl, if◌then◌else◌, Bool-cases, Option-cases,
}
use wake_surfer.Contract.{
  MessageTarget, get_canonical_stream_id, get_message_target_type, get_message_target_id,
}
use wake_surfer.Contract.Identity.{get_canonical_stream_id-injective}
use wake_surfer.Store.{
  StreamRow, MessageRow, Db, stream_id_of, same_target, find_stream, has_sequence, insert_stream,
  advance_rows,
}

-- The numbers of a stream's messages, the last one first.
unfoldable pub sequences_of : (stream_id : String) → List MessageRow → List ℕ
sequences_of id [] = []
sequences_of id (row ∷ rows) =
    let rest = sequences_of id rows in if str_eq row.stream_id id then row.sequence ∷ rest else rest

abbrev pub last_in : Option StreamRow → ℕ
last_in none = 0
last_in (some row) = row.last_sequence

-- The stream's last number, 0 for a stream that does not exist.
abbrev pub last_of : (stream_id : String) → List StreamRow → ℕ
last_of id rows = last_in (find_stream id rows)

abbrev pub down_from : ℕ → List ℕ
down_from zero = []
down_from (suc n) = suc n ∷ down_from n

-- The messages of every stream have the numbers from 1 to the stream's last one, each of them once
-- and in the order in which they were inserted.
abbrev pub GapFree : Db → Type 0
GapFree db = (id : String) → sequences_of id db.messages ≡ down_from (last_of id db.streams)

pub same_target_refl : (a : MessageTarget) → same_target a a ≡ true
same_target_refl a =
    rw (eq_refl (get_message_target_type a), eq_refl (get_message_target_id a)) refl

same_target_sound :
    (a b : MessageTarget)
    → same_target a b ≡ true
    → get_canonical_stream_id a ≡ get_canonical_stream_id b
unfolding get_canonical_stream_id
same_target_sound a b h =
    let types = eq_iff (get_message_target_type a) (get_message_target_type b) in
    let ids = eq_iff (get_message_target_id a) (get_message_target_id b) in ground arith

pub same_target-eq :
    (a b : MessageTarget)
    → same_target a b ≡ str_eq (get_canonical_stream_id a) (get_canonical_stream_id b)
same_target-eq a b =
    elim (Bool-cases (str_eq (get_canonical_stream_id a) (get_canonical_stream_id b))) [
      | inl same ↦
          let ids = (eq_iff (get_canonical_stream_id a) (get_canonical_stream_id b)).0 same in
          rw (same, get_canonical_stream_id-injective a b ids) (same_target_refl b)
      | inr apart ↦ elim (Bool-cases (same_target a b)) [
        | inl same ↦
            let ids =
              (eq_iff (get_canonical_stream_id a) (get_canonical_stream_id b)).1
                (same_target_sound a b same) in
            cc
        | inr other ↦ rw (apart, other) refl
      ]
    ]

-- What advancing a stream does to the last numbers.
pub record Advanced (id : String) (target : MessageTarget) (n : ℕ) (before after : List StreamRow)
    : Type 0 where
  pub canonical : id ≡ get_canonical_stream_id target
  pub next : n ≡ suc (last_of id before)
  pub now_last : last_of id after ≡ n
  pub others : (other : String) → other ≢ id → last_of other after ≡ last_of other before

-- Only the stream of the target is advanced.
advance_rows-canonical :
    (id : String) (target : MessageTarget) (rows : List StreamRow) {p : ℕ × List StreamRow}
    → advance_rows id target rows ≡ some p
    → id ≡ get_canonical_stream_id target
unfolding advance_rows
advance_rows-canonical id target [] h = cc
advance_rows-canonical id target (row ∷ rows) h =
    elim (Option-cases (advance_rows id target rows)) [
      | inr (p, found) ↦ advance_rows-canonical id target rows found
      | inl nothing ↦
          let named = eq_iff (stream_id_of row) id in
          let same = same_target_sound row.target target in ground arith
    ]

pub advance_rows-Advanced :
    (id : String) (target : MessageTarget) (rows : List StreamRow) {n : ℕ} {after : List StreamRow}
    → advance_rows id target rows ≡ some (n, after)
    → Advanced id target n rows after
unfolding advance_rows find_stream
advance_rows-Advanced id target [] h = cc
advance_rows-Advanced id target (row ∷ rows) {n} {after} h =
    let canonical = advance_rows-canonical id target (row ∷ rows) h in
    let same = same_target-eq row.target target in
    elim (Bool-cases (str_eq (stream_id_of row) id)) [
      | inl named ↦
          let hit : str_eq (stream_id_of row) (get_canonical_stream_id target) ≡ true =
            subst (λ s. str_eq (stream_id_of row) s ≡ true) canonical named in
          record {
            canonical = canonical;
            next = ground arith;
            now_last = ground arith;
            others = λ other apart.
                let e = eq_iff (stream_id_of row) other in
                let f = eq_iff (stream_id_of row) id in ground arith;
          }
      | inr apart ↦ elim (Option-cases (advance_rows id target rows)) [
        | inl nothing ↦ ground arith
        | inr ((m, rest), found) ↦
            let inner = advance_rows-Advanced id target rows found in
            record {
              canonical = canonical;
              next = ground (arith, inner.next);
              now_last = ground (arith, inner.now_last);
              others = λ other differs. ground (arith, inner.others other differs);
            }
      ]
    ]

find_stream-append :
    (id : String) (rows : List StreamRow) (new : StreamRow)
    → new.last_sequence ≡ 0
    → last_of id (rows ++ (new ∷ [])) ≡ last_of id rows
unfolding find_stream
find_stream-append id [] new h = ground arith
find_stream-append id (row ∷ rows) new h = ground (arith, find_stream-append id rows new h)

-- A new stream has no message yet: it changes no last number.
pub last_of-insert_stream :
    (target : MessageTarget) (db : Db) (id : String)
    → last_of id (insert_stream target db).1.streams ≡ last_of id db.streams
unfolding insert_stream
last_of-insert_stream target db id =
    let new =
      find_stream-append id db.streams (record { target = target; last_sequence = 0 }) refl in
    ground arith

pub messages-insert_stream :
    (target : MessageTarget) (db : Db) → (insert_stream target db).1.messages ≡ db.messages
unfolding insert_stream
messages-insert_stream target db = ground arith

pub receipts-insert_stream :
    (target : MessageTarget) (db : Db) → (insert_stream target db).1.receipts ≡ db.receipts
unfolding insert_stream
receipts-insert_stream target db = ground arith

-- A stream has a message of each number up to its last one, so the next number is free.
has_sequence-beyond :
    (id : String) (n m : ℕ) (rows : List MessageRow)
    → sequences_of id rows ≡ down_from n
    → n < m
    → has_sequence id m rows ≡ false
unfolding has_sequence sequences_of
has_sequence-beyond id n m [] h lt = refl
has_sequence-beyond id zero m (row ∷ rows) h lt = ground (arith, has_sequence-beyond id zero m rows)
has_sequence-beyond id (suc n) m (row ∷ rows) h lt =
    ground (arith, has_sequence-beyond id n m rows, has_sequence-beyond id (suc n) m rows)

pub has_sequence-next :
    (id : String) (db : Db)
    → GapFree db
    → has_sequence id (suc (last_of id db.streams)) db.messages ≡ false
has_sequence-next id db h = has_sequence-beyond id _ _ db.messages (h id) (omega arith)
