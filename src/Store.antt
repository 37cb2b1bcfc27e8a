-- ===== src/Store.antt =====
-- packages/realtime-chat-database/migrations and the *-table.ts files of the message packages: the
-- tables `message_streams`, `messages` and `send_message_receipts`, as lists of rows, and the
-- statements on them that the packages share. `stream_id` is generated from the target. A
-- transaction that throws is rolled back; transactions run one after the other, which is what
-- their locks achieve. A timestamp is a count of milliseconds. Columns that no code of the
-- repository writes are left out, and so are the checks of the shape of contents and the foreign
-- keys: the packages write only contents that their schema has passed, in rows that they have found.
-- A text with U+0000 is refused where it is written; a `select` for one, which the database refuses
-- too, finds no row here.
pub mod Consistent
use wake_surfer.Common.{
  has_nul, ℕ, suc, ◌+◌, String, Bool, true, false, ◌&&◌, ◌||◌, List, [], ◌∷◌, ◌++◌, Option, none,
  some, ltb, ◌==◌, str_eq, if◌then◌else◌, Result, ok, err, is_empty,
}
use wake_surfer.Common.Exec.{Exec}
use wake_surfer.Values.{Value, value_has_nul}
use wake_surfer.Contract.{
  MessageTarget, get_canonical_stream_id, get_message_target_type, get_message_target_id,
}

pub data Error : Type 0 where
  -- thrown by the packages
  invalid_argument invalid_content unsupported_fingerprint invalid_lifecycle : Error
  stream_target_mismatch unexpected_tombstone no_result : Error
  -- thrown by the database
  constraint_violation integer_out_of_range invalid_text : Error

pub record SendRequestFingerprint : Type 0 where
  pub canonicalization_version : ℕ
  pub algorithm : String
  pub key_id : Option String
  -- the bytes
  pub value : List ℕ

pub record StreamRow : Type 0 where
  pub target : MessageTarget
  pub last_sequence : ℕ

pub record MessageRow : Type 0 where
  pub message_id : String
  pub stream_id : String
  pub sequence : ℕ
  pub sender_actor_id : String
  pub version : ℕ
  -- `null` for none
  pub content : Value
  pub created_at : ℕ
  pub edited_at : Option ℕ
  pub deleted_at : Option ℕ

pub record ReceiptRow : Type 0 where
  pub sender_actor_id : String
  pub idempotency_key : String
  pub fingerprint : SendRequestFingerprint
  pub result_message_id : String

pub record Db : Type 0 where
  pub streams : List StreamRow
  -- the last one inserted stands first
  pub messages : List MessageRow
  pub receipts : List ReceiptRow

abbrev pub empty_db : Db
empty_db = record { streams = []; messages = []; receipts = [] }

-- db.transaction().execute
abbrev pub commit : {A : Type 0} → Db → Result Error A × Db → Result Error A × Db
commit before (ok a, written) = (ok a, written)
commit before (err e, written) = (err e, before)

abbrev pub transaction : {A : Type 0} → Exec Db Error A → Exec Db Error A
transaction body db = commit db (body db)

-- An expression that may throw, with the database left alone.
abbrev pub lift : {A : Type 0} → Result Error A → Exec Db Error A
lift r db = (r, db)

-- The generated column.
abbrev pub stream_id_of : StreamRow → String
stream_id_of row = get_canonical_stream_id row.target

-- target_type = … and target_id = …
abbrev pub same_target : MessageTarget → MessageTarget → Bool
same_target a b =
    str_eq (get_message_target_type a) (get_message_target_type b)
    && str_eq (get_message_target_id a) (get_message_target_id b)

unfoldable pub find_stream : (stream_id : String) → List StreamRow → Option StreamRow
find_stream id [] = none
find_stream id (row ∷ rows) = if str_eq (stream_id_of row) id then some row else find_stream id rows

unfoldable pub find_stream_of_target : MessageTarget → List StreamRow → Option StreamRow
find_stream_of_target target [] = none
find_stream_of_target target (row ∷ rows) =
    if same_target row.target target then some row else find_stream_of_target target rows

unfoldable pub find_message : (message_id : String) → List MessageRow → Option MessageRow
find_message id [] = none
find_message id (row ∷ rows) = if str_eq row.message_id id then some row else find_message id rows

-- Is the pair of stream and sequence number taken?
unfoldable pub has_sequence : (stream_id : String) (sequence : ℕ) → List MessageRow → Bool
has_sequence id n [] = false
has_sequence id n (row ∷ rows) =
    (str_eq row.stream_id id && (row.sequence == n)) || has_sequence id n rows

unfoldable pub find_receipt :
    (sender_actor_id idempotency_key : String) → List ReceiptRow → Option ReceiptRow
find_receipt sender key [] = none
find_receipt sender key (row ∷ rows) =
    if str_eq row.sender_actor_id sender && str_eq row.idempotency_key key
    then some row
    else find_receipt sender key rows

unfoldable pub has_result : (message_id : String) → List ReceiptRow → Bool
has_result id [] = false
has_result id (row ∷ rows) = str_eq row.result_message_id id || has_result id rows

-- insertInto("message_streams") … onConflict(target_type, target_id) doNothing
unfoldable pub insert_stream : MessageTarget → Exec Db Error (Unit {0})
insert_stream target db =
    if is_empty (get_message_target_id target)
    then (err constraint_violation, db)
    else if has_nul (get_message_target_id target)
    then (err invalid_text, db)
    else (
      ok tt,
      elim (find_stream_of_target target db.streams) [
        | some row ↦ db
        | none ↦ record db {
          streams = db.streams ++ (record { target = target; last_sequence = 0 } ∷ []);
        }
      ],
    )

-- The largest value of the type `integer`.
abbrev pub max_integer : ℕ
max_integer = 2147483647

-- update message_streams set last_sequence = last_sequence + 1 where stream_id, target_type and
-- target_id are those given, returning last_sequence; the stream ID is the primary key.
unfoldable pub advance_rows :
    (stream_id : String) → MessageTarget → List StreamRow → Option (ℕ × List StreamRow)
advance_rows id target [] = none
advance_rows id target (row ∷ rows) =
    if str_eq (stream_id_of row) id && same_target row.target target
    then some (suc row.last_sequence, record row { last_sequence = suc row.last_sequence } ∷ rows)
    else elim (advance_rows id target rows) [ none ↦ none | some (n, rest) ↦ some (n, row ∷ rest) ]

-- The texts of a row with U+0000, which neither `text` nor `jsonb` can hold.
abbrev pub message_has_nul : MessageRow → Bool
message_has_nul row =
    has_nul row.message_id || (has_nul row.sender_actor_id || value_has_nul row.content)

abbrev pub receipt_has_nul : ReceiptRow → Bool
receipt_has_nul row =
    has_nul row.sender_actor_id || (has_nul row.idempotency_key || has_nul row.result_message_id)

-- insertInto("messages"), with the keys of the table.
unfoldable pub insert_message : MessageRow → Exec Db Error (Unit {0})
insert_message row db = elim (find_message row.message_id db.messages) [
  | some taken ↦ (err constraint_violation, db)
  | none ↦
      if has_sequence row.stream_id row.sequence db.messages
      then (err constraint_violation, db)
      else if message_has_nul row
      then (err invalid_text, db)
      else (ok tt, record db { messages = row ∷ db.messages })
]

abbrev pub no_bytes : List ℕ → Bool
no_bytes [] = true
no_bytes (b ∷ bs) = false

-- insertInto("send_message_receipts"), with the keys of the table and its test of the fingerprint.
unfoldable pub insert_receipt : ReceiptRow → Exec Db Error (Unit {0})
insert_receipt row db = elim (find_receipt row.sender_actor_id row.idempotency_key db.receipts) [
  | some taken ↦ (err constraint_violation, db)
  | none ↦
      if has_result row.result_message_id db.receipts || no_bytes row.fingerprint.value
      then (err constraint_violation, db)
      else if receipt_has_nul row
      then (err invalid_text, db)
      else (ok tt, record db { receipts = row ∷ db.receipts })
]
