-- ===== src/Session/Stored.antt =====
-- What is saved is loaded again.
use wake_surfer.Common.{
  ℕ, String, Bool, true, false, Option, none, some, ◌≡◌, refl, ap, ◌∙◌, arith, if◌then◌else◌, ok,
  err, ◌&&◌, leb,
}
use wake_surfer.Values.{Value, whole, is_safe_integer}
use wake_surfer.Session.{
  RecoveryState, idle, recovery_pending, StoredCursor, is_stored_cursor, to_value, Cell, type_error,
  load, save,
}

-- The cursor is a safe integer, and a watermark is one that is no smaller.
abbrev pub is_valid_through : ℕ → Option ℕ → Bool
is_valid_through cursor none = true
is_valid_through cursor (some n) = is_safe_integer (whole n) && leb cursor n

abbrev pub is_valid : StoredCursor → Bool
is_valid c =
    is_safe_integer (whole c.delivery_sync_cursor)
    && is_valid_through c.delivery_sync_cursor c.through_sequence

is_stored_cursor-to_value :
    (n : ℕ) (t : Option ℕ) (state : RecoveryState)
    → is_stored_cursor (
        to_value
          (record { delivery_sync_cursor = n; through_sequence = t; recovery_state = state }))
      ≡ (if is_safe_integer (whole n) && is_valid_through n t
          then some
              (record { delivery_sync_cursor = n; through_sequence = t; recovery_state = state })
          else none)
unfolding is_stored_cursor
is_stored_cursor-to_value n none idle = ground arith
is_stored_cursor-to_value n none recovery_pending = ground arith
is_stored_cursor-to_value n (some m) idle = ground arith
is_stored_cursor-to_value n (some m) recovery_pending = ground arith

is_stored_cursor-eq :
    (c : StoredCursor) → is_stored_cursor (to_value c) ≡ (if is_valid c then some c else none)
is_stored_cursor-eq c =
    is_stored_cursor-to_value c.delivery_sync_cursor c.through_sequence c.recovery_state

is_stored_cursor-valid :
    (c : StoredCursor) → is_valid c ≡ true → is_stored_cursor (to_value c) ≡ some c
is_stored_cursor-valid c valid = is_stored_cursor-eq c ∙ ap (λ b. if b then some c else none) valid

is_stored_cursor-invalid :
    (c : StoredCursor) → is_valid c ≡ false → is_stored_cursor (to_value c) ≡ none
is_stored_cursor-invalid c invalid =
    is_stored_cursor-eq c ∙ ap (λ b. if b then some c else none) invalid

module _ (stringify : Value → String) (parse : String → Option Value) where
  -- A cursor is saved exactly when it is valid: a safe integer, with no watermark or with one that is a
  -- safe integer and no smaller. What was saved is loaded again, and stays in its place, where
  -- JSON.parse reads back what JSON.stringify has written for it; a cursor that is not valid is
  -- refused with an error, and the place is left as it was.
  pub load-save :
      (c : StoredCursor) (cell : Cell)
      → parse (stringify (to_value c)) ≡ some (to_value c)
      → (is_valid c ≡ true
          → ((save stringify parse c cell).0 ≡ ok tt)
            × (load stringify parse (save stringify parse c cell).1
                ≡ (some c, some (stringify (to_value c)))))
        × (is_valid c ≡ false → save stringify parse c cell ≡ (err type_error, cell))
  unfolding load save
  load-save c cell h = (
    λ valid.
        rw (is_stored_cursor-valid c valid) (refl, rw (h, is_stored_cursor-valid c valid) refl),
    λ invalid. rw (is_stored_cursor-invalid c invalid) refl,
  )
