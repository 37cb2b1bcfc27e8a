-- ===== src/Mutation/Outcomes.antt =====
-- What an edit and a deletion have done when they answer.
use wake_surfer.Common.{
  ℕ, suc, String, true, Option, none, some, ◌≡◌, ◌≢◌, refl, arith, eq_iff, ltb, is_empty, trim, ◌⊎◌,
  inl, inr, Result, ok, err, List, [], ◌∷◌, Bool-cases,
}
use wake_surfer.Values.{Value, value_has_nul}
use wake_surfer.Contract.{MessageTarget, get_canonical_stream_id, get_message_target_id}
use wake_surfer.Store.{
  Error, invalid_argument, integer_out_of_range, invalid_text, constraint_violation, StreamRow,
  MessageRow, Db, commit, find_stream, find_message, max_integer,
}
use wake_surfer.Send.Content.{is_text, persisted_content}
use wake_surfer.Send.Stored.{create-eq, parse-persisted_content}
use wake_surfer.Mutation.{
  EditedTextMessage, MessageMutationAuthorizer, MessageMutationCapability, CurrentMessageRow,
  with_stream, with_message, find_current, parse_message_target, update_rows,
}
use wake_surfer.Mutation.Edit.{
  Edited, edited_text, row_to_edited_text_message, edited_row, write_edit, edit_current,
}

-- An actor's own message, not deleted, that the authorizer lets it change, was written by `f`.
pub record IsUpdated (authorize : MessageMutationAuthorizer)
    (capability : MessageMutationCapability) (message_id actor_id : String)
    (f : MessageRow → MessageRow) (before after : Db) : Type 0 where
  pub row : MessageRow
  pub target : MessageTarget
  pub found : find_message message_id before.messages ≡ some row
  pub own : row.sender_actor_id ≡ actor_id
  pub in_stream : row.stream_id ≡ get_canonical_stream_id target
  pub allowed : authorize actor_id target capability ≡ true
  pub alive : row.deleted_at ≡ none
  pub updated : after ≡ record before { messages = update_rows message_id f before.messages }

-- A message is found under its ID.
pub find_message-id :
    (id : String) (rows : List MessageRow) (row : MessageRow)
    → find_message id rows ≡ some row
    → row.message_id ≡ id
unfolding find_message
find_message-id id [] row h = cc
find_message-id id (first ∷ rows) row h =
    let named = eq_iff first.message_id id in ground (arith, find_message-id id rows row)

pub find_current-found :
    (db : Db) (id : String) (current : CurrentMessageRow)
    → find_current db id ≡ some current
    → find_message id db.messages ≡ some current.row
unfolding find_current
find_current-found db id current h = by_row (find_message id db.messages) h
  where
    by_stream :
        (row : MessageRow) (found : Option StreamRow)
        → with_stream row found ≡ some current
        → ◌≡◌ {A = Option MessageRow} (some row) (some current.row)
    by_stream row none h = cc
    by_stream row (some stream) h = cc

    by_row :
        (found : Option MessageRow)
        → with_message db found ≡ some current
        → found ≡ some current.row
    by_row none h = cc
    by_row (some row) h = by_stream row (find_stream row.stream_id db.streams) h

-- The message in the answer to an edit.
abbrev pub edited_answer :
    MessageRow → MessageTarget → (text : String) → (now : ℕ) → EditedTextMessage
edited_answer row target text now = record {
  message_id = row.message_id;
  stream_id = row.stream_id;
  sequence = row.sequence;
  sender_actor_id = row.sender_actor_id;
  target = target;
  version = suc row.version;
  text = text;
  created_at = row.created_at;
  edited_at = now;
}

-- The database with a message written by `f`.
abbrev pub updated_db : (message_id : String) → (MessageRow → MessageRow) → Db → Db
updated_db id f db = record db { messages = update_rows id f db.messages }

write_edit-eq :
    (row : MessageRow) (content : Value) (now : ℕ) (db : Db)
    → ((e : Error) × (write_edit row content now db ≡ (err e, db)))
      ⊎ (write_edit row content now db
          ≡ (ok tt, updated_db row.message_id (edited_row content now) db))
unfolding write_edit
write_edit-eq row content now db = elim (Bool-cases (ltb max_integer (suc row.version))) [
  | inl large ↦ inl (integer_out_of_range, ground arith)
  | inr fits ↦ elim (Bool-cases (ltb now row.created_at)) [
    | inl early ↦ inl (constraint_violation, ground arith)
    | inr later ↦ elim (Bool-cases (value_has_nul content)) [
      | inl unfit ↦ inl (invalid_text, ground arith)
      | inr plain ↦ inr (ground arith)
    ]
  ]
]

-- What the transaction of an edit leaves behind.
abbrev pub EditOutcome :
    MessageRow → MessageTarget → String → ℕ → Db → Result Error (Option Edited) × Db → Type 0
EditOutcome row target text now db p =
    ((p.1 ≡ db) × ((m : EditedTextMessage) → p.0 ≢ ok (some (edited_text m))))
    ⊎ ((is_text text ≡ true)
        × (p.0 ≡ ok (some (edited_text (edited_answer row target text now))))
        × (p.1 ≡ updated_db row.message_id (edited_row (persisted_content text) now) db))

pub parse_message_target-cases :
    (target : MessageTarget)
    → (parse_message_target target ≡ err invalid_argument)
      ⊎ (parse_message_target target ≡ ok target)
unfolding parse_message_target
parse_message_target-cases target =
    elim (Bool-cases (is_empty (trim (get_message_target_id target)))) [
      | inl blank ↦ inl (rw blank refl)
      | inr named ↦ inr (rw named refl)
    ]

row_to_edited-eq :
    (row : MessageRow) (target : MessageTarget) (text : String) (now : ℕ)
    → is_text text ≡ true
    → row.deleted_at ≡ none
    → ((e : Error) × (row_to_edited_text_message
            (record { row = edited_row (persisted_content text) now row; target = target })
          ≡ err e))
      ⊎ (row_to_edited_text_message
            (record { row = edited_row (persisted_content text) now row; target = target })
          ≡ ok (edited_answer row target text now))
unfolding row_to_edited_text_message
row_to_edited-eq row target text now fits alive =
    rw (parse-persisted_content text, fits, alive)
      (elim (parse_message_target-cases target) [
        | inl blank ↦ rw blank (inl (invalid_argument, refl))
        | inr good ↦ rw good (inr refl)
      ])

pub edit_current-Outcome :
    (row : MessageRow) (target : MessageTarget) (text : String) (now : ℕ) (db : Db)
    → row.deleted_at ≡ none
    → EditOutcome row target text now db
        (commit db (edit_current (record { row = row; target = target }) text now db))
unfolding edit_current
edit_current-Outcome row target text now db alive = elim (Bool-cases (is_text text)) [
  | inr unfit ↦ rw (create-eq text, unfit) (inl (refl, λ m h. cc))
  | inl fits ↦
      rw (create-eq text, fits)
        (elim (write_edit-eq row (persisted_content text) now db) [
          | inl (e, refused) ↦ rw refused (inl (refl, λ m h. cc))
          | inr done ↦ rw done (elim (row_to_edited-eq row target text now fits alive) [
            | inl (e, blank) ↦ rw blank (inl (refl, λ m h. cc))
            | inr good ↦ rw good (inr (refl, refl, refl))
          ])
        ])
]
