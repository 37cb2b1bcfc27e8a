-- ===== src/Mutation/Edits.antt =====
-- The outcomes of an edit.
use wake_surfer.Common.{
  ℕ, String, true, false, Option, none, some, ◌≡◌, ◌≢◌, refl, ap, ◌∙◌, arith, eq_iff, ◌⊎◌, inl, inr,
  Result, ok, err, Bool-cases,
}
use wake_surfer.Common.Exec.{pure, continue, continue-elim}
use wake_surfer.Values.{is_nullish}
use wake_surfer.Contract.{MessageTarget, get_canonical_stream_id}
use wake_surfer.Store.{Error, MessageRow, Db, commit, find_message}
use wake_surfer.Send.Content.{is_text, persisted_content}
use wake_surfer.Mutation.{
  EditedTextMessage, DeletedMessage, MessageMutationAuthorizer, edit_own, CurrentMessageRow,
  find_current, find_message_target, is_foreign, row_to_deleted_message,
  normalize_edited_message_text, assert_non_blank_string,
}
use wake_surfer.Mutation.Edit.{
  Edited, edited_text, was_deleted, EditMessageResult, edit_accepted, edit_forbidden, edited_row,
  was_deleted_of, edit_unless_deleted, edit_found, edit_own_message, edit_result, edit_target,
  edit_text, execute_edit_message,
}
use wake_surfer.Mutation.Outcomes.{
  IsUpdated, updated_db, edited_answer, edit_current-Outcome, find_message-id, find_current-found,
}

-- The transaction has changed nothing, or it has written the text to the actor's own message.
record IsOwnEdit (message_id actor_id : String) (target : MessageTarget) (text : String) (now : ℕ)
    (before : Db) (p : Result Error (Option Edited) × Db) : Type 0 where
  pub row : MessageRow
  pub stream_target : MessageTarget
  pub found : find_message message_id before.messages ≡ some row
  pub own : row.sender_actor_id ≡ actor_id
  pub in_stream : row.stream_id ≡ get_canonical_stream_id target
  pub alive : row.deleted_at ≡ none
  pub fits : is_text text ≡ true
  pub answered : p.0 ≡ ok (some (edited_text (edited_answer row stream_target text now)))
  pub updated : p.1 ≡ updated_db message_id (edited_row (persisted_content text) now) before

abbrev IsIdle : Db → Result Error (Option Edited) × Db → Type 0
IsIdle before p = (p.1 ≡ before) × ((m : EditedTextMessage) → p.0 ≢ ok (some (edited_text m)))

pub is_foreign-false :
    (actor_id : String) (target : MessageTarget) (row : MessageRow)
    → is_foreign actor_id target row ≡ false
    → (row.sender_actor_id ≡ actor_id) × (row.stream_id ≡ get_canonical_stream_id target)
unfolding is_foreign
is_foreign-false actor_id target row h =
    let sender = eq_iff row.sender_actor_id actor_id in
    let stream = eq_iff row.stream_id (get_canonical_stream_id target) in
    (ground arith, ground arith)

edit_own_message-Outcome :
    (message_id actor_id : String) (target : MessageTarget) (text : String) (now : ℕ) (db : Db)
    → IsIdle db (edit_own_message message_id actor_id target text now db)
      ⊎ IsOwnEdit message_id actor_id target text now db
          (edit_own_message message_id actor_id target text now db)
unfolding edit_own_message
edit_own_message-Outcome message_id actor_id target text now db =
    at (find_current db message_id) refl
  where
    deleted_message_at :
        (r : Result Error DeletedMessage) → IsIdle db (commit db (was_deleted_of r, db))
    deleted_message_at (ok m) = (refl, λ m h. cc)
    deleted_message_at (err e) = (refl, λ m h. cc)

    alive_at :
        (current : CurrentMessageRow)
        → find_message message_id db.messages ≡ some current.row
        → is_foreign actor_id target current.row ≡ false
        → (deleted : Option ℕ) → current.row.deleted_at ≡ deleted
        → IsIdle db (commit db (edit_unless_deleted current text now deleted db))
          ⊎ IsOwnEdit message_id actor_id target text now db
              (commit db (edit_unless_deleted current text now deleted db))
    alive_at current found own (some at) e =
        inl (deleted_message_at (row_to_deleted_message current))
    alive_at current found own none e = elim (Bool-cases (is_nullish current.row.content)) [
      | inl nullish ↦ rw nullish (inl (refl, λ m h. cc))
      | inr good ↦ rw good (elim (edit_current-Outcome current.row current.target text now db e) [
        | inl idle ↦ inl idle
        | inr (fits, answered, updated) ↦
            let mine = is_foreign-false actor_id target current.row own in
            inr (record {
              row = current.row;
              stream_target = current.target;
              found = found;
              own = mine.0;
              in_stream = mine.1;
              alive = e;
              fits = fits;
              answered = answered;
              updated =
                  updated
                  ∙ ap (λ id. updated_db id (edited_row (persisted_content text) now) db)
                      (find_message-id message_id db.messages current.row found);
            })
      ])
    ]

    at :
        (found : Option CurrentMessageRow)
        → find_current db message_id ≡ found
        → IsIdle db (commit db (edit_found actor_id target text now found db))
          ⊎ IsOwnEdit message_id actor_id target text now db
              (commit db (edit_found actor_id target text now found db))
    at none e = inl (refl, λ m h. cc)
    at (some current) e = elim (Bool-cases (is_foreign actor_id target current.row)) [
      | inl foreign ↦ rw foreign (inl (refl, λ m h. cc))
      | inr own ↦ rw own (
          alive_at current (find_current-found db message_id current e) own current.row.deleted_at
            refl)
    ]

-- A message was edited, and the call says so.
pub record IsEdited (authorize : MessageMutationAuthorizer) (message_id text actor_id : String)
    (now : ℕ) (before : Db) (answer : Result Error EditMessageResult) (after : Db) : Type 0 where
  pub normalized_text : String
  pub normalized : normalize_edited_message_text text ≡ some normalized_text
  pub fits : is_text normalized_text ≡ true
  pub is_updated :
      IsUpdated authorize edit_own message_id actor_id
        (edited_row (persisted_content normalized_text) now)
        before
        after
  pub stream_target : MessageTarget
  pub answered :
      answer ≡ ok (edit_accepted (edited_answer is_updated.row stream_target normalized_text now))

-- Nothing was written, and the call does not say that a message was edited.
pub record IsRefusedEdit (before : Db) (answer : Result Error EditMessageResult) (after : Db)
    : Type 0 where
  pub unchanged : after ≡ before
  pub not_accepted : (m : EditedTextMessage) → answer ≢ ok (edit_accepted m)

module _ (authorize : MessageMutationAuthorizer) where
  abbrev EditedOrNot :
      (message_id text actor_id : String) → ℕ → Db → Result Error EditMessageResult × Db → Type 0
  EditedOrNot id text actor now db p =
      IsRefusedEdit db p.0 p.1 ⊎ IsEdited authorize id text actor now db p.0 p.1

  own_edit-Outcome :
      (id text actor : String) (now : ℕ) (db : Db) (target : MessageTarget) (t : String)
      → normalize_edited_message_text text ≡ some t
      → authorize actor target edit_own ≡ true
      → (p : Result Error (Option Edited) × Db) → IsIdle db p ⊎ IsOwnEdit id actor target t now db p
      → EditedOrNot id text actor now db (continue p.0 (λ message. pure (edit_result message)) p.1)
  own_edit-Outcome id text actor now db target t normalized allowed (err e, s) (inl idle) =
      inl (record { unchanged = idle.0; not_accepted = λ m h. cc })
  own_edit-Outcome id text actor now db target t normalized allowed (ok none, s) (inl idle) =
      inl (record { unchanged = idle.0; not_accepted = λ m h. cc })
  own_edit-Outcome id text actor now db target t normalized allowed (ok (some (was_deleted d)), s)
        (inl idle) =
      inl (record { unchanged = idle.0; not_accepted = λ m h. cc })
  own_edit-Outcome id text actor now db target t normalized allowed (ok (some (edited_text m)), s)
        (inl idle) =
      absurd (idle.1 m refl)
  own_edit-Outcome id text actor now db target t normalized allowed p (inr own) = rw own.answered (
      inr (record {
        normalized_text = t;
        normalized = normalized;
        fits = own.fits;
        is_updated = record {
          row = own.row;
          target = target;
          found = own.found;
          own = own.own;
          in_stream = own.in_stream;
          allowed = allowed;
          alive = own.alive;
          updated = own.updated;
        };
        stream_target = own.stream_target;
        answered = refl;
      }))

  -- An edit has written nothing and is not answered as accepted; or the actor's own message, which
  -- was not deleted and which the authorizer let it edit, has the new text and the next version.
  pub execute_edit_message-Outcome :
      (seen : Db) (message_id text actor_id : String) (now : ℕ) (db : Db)
      → IsRefusedEdit db
          (execute_edit_message authorize seen message_id text actor_id now db).0
          (execute_edit_message authorize seen message_id text actor_id now db).1
        ⊎ IsEdited authorize message_id text actor_id now db
            (execute_edit_message authorize seen message_id text actor_id now db).0
            (execute_edit_message authorize seen message_id text actor_id now db).1
  unfolding execute_edit_message
  execute_edit_message-Outcome seen id text actor now db =
      continue-elim (EditedOrNot id text actor now db) (assert_non_blank_string actor) _ db thrown
        (λ _ _.
          continue-elim (EditedOrNot id text actor now db) (assert_non_blank_string id) _ db thrown
            (λ _ _. text_at (normalize_edited_message_text text) refl))
    where
      thrown : (e : Error) → EditedOrNot id text actor now db (err e, db)
      thrown e = inl (record { unchanged = refl; not_accepted = λ m h. cc })

      forbidden : EditedOrNot id text actor now db (ok edit_forbidden, db)
      forbidden = inl (record { unchanged = refl; not_accepted = λ m h. cc })

      target_at :
          (t : String)
          → normalize_edited_message_text text ≡ some t
          → (target : Option MessageTarget)
          → EditedOrNot id text actor now db (edit_target authorize id actor t now target db)
      target_at t e none = forbidden
      target_at t e (some target) = elim (Bool-cases (authorize actor target edit_own)) [
        | inr denied ↦ rw denied forbidden
        | inl allowed ↦ rw allowed (
            own_edit-Outcome id text actor now db target t e allowed
              (edit_own_message id actor target t now db)
              (edit_own_message-Outcome id actor target t now db))
      ]

      text_at :
          (t : Option String)
          → normalize_edited_message_text text ≡ t
          → EditedOrNot id text actor now db (edit_text authorize seen id actor now t db)
      text_at none e = inl (record { unchanged = refl; not_accepted = λ m h. cc })
      text_at (some t) e =
          continue-elim (EditedOrNot id text actor now db) (find_message_target seen id)
            (edit_target authorize id actor t now) db thrown (λ target _. target_at t e target)
