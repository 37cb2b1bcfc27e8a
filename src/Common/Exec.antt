-- ===== src/Common/Exec.antt =====
-- Methods that change an object and may throw: what was written before the throw stays written, so
-- the object comes back beside the error too.
use mathlib.Core.Path.{◌≡◌, refl}
use wake_surfer.Common.Results.{Result, ok, err}

-- A method of an object `S` that throws an `E` or returns an `A`.
abbrev pub Exec : Type 0 → Type 0 → Type 0 → Type 0
Exec S E A = S → Result E A × S

module _ {S E A B : Type 0} where
  abbrev pub continue : Result E A → (A → Exec S E B) → Exec S E B
  continue (ok a) f s = f a s
  continue (err e) f s = (err e, s)

module _ {S E : Type 0} where
  abbrev pub pure : {A : Type 0} → A → Exec S E A
  pure a s = (ok a, s)

  abbrev pub throw : {A : Type 0} → E → Exec S E A
  throw e s = (err e, s)

  infixl 5 ◌>>=◌ ◌>>◌
  abbrev pub ◌>>=◌ : {A B : Type 0} → Exec S E A → (A → Exec S E B) → Exec S E B
  ◌>>=◌ m f s = continue (m s).0 f (m s).1

  abbrev pub ◌>>◌ : {B : Type 0} → Exec S E (Unit {0}) → Exec S E B → Exec S E B
  m >> n = m >>= λ _. n

  abbrev pub get_state : Exec S E S
  get_state s = (ok s, s)

  abbrev pub modify : (S → S) → Exec S E (Unit {0})
  modify f s = (ok tt, f s)

  -- A predicate that a method keeps, also when it throws.
  abbrev pub Keeps : {A : Type 0} → (S → Type 0) → Exec S E A → Type 0
  Keeps P m = (s : S) → P s → P (m s).1

  pub continue-Keeps :
      {A B : Type 0} (P : S → Type 0) (r : Result E A) (f : A → Exec S E B)
      → ((a : A) → Keeps P (f a))
      → (s : S) → P s
      → P (continue r f s).1
  continue-Keeps P (ok a) f h s p = h a s p
  continue-Keeps P (err e) f h s p = p

  pub >>=-Keeps :
      {A B : Type 0} (P : S → Type 0) (m : Exec S E A) (f : A → Exec S E B)
      → Keeps P m
      → ((a : A) → Keeps P (f a))
      → Keeps P (m >>= f)
  >>=-Keeps P m f km kf s p = continue-Keeps P (m s).0 f kf (m s).1 (km s p)

module _ {S E : Type 0} where
  -- What holds of the value and the state of a method that does not throw.
  abbrev pub Yields : {A : Type 0} → (A → S → Type 0) → Result E A × S → Type 0
  Yields Q (ok a, s) = Q a s
  Yields Q (err e, s) = Unit

  pub continue-Yields :
      {A B : Type 0} (R : A → S → Type 0) (Q : B → S → Type 0) (p : Result E A × S)
      (f : A → Exec S E B)
      → Yields R p
      → ((a : A) (s : S) → R a s → Yields Q (f a s))
      → Yields Q (continue p.0 f p.1)
  continue-Yields R Q (ok a, s) f r h = h a s r
  continue-Yields R Q (err e, s) f r h = tt

  -- To follow a method through a part that may throw and changes nothing.
  pub continue-elim :
      {A B : Type 0} (P : Result E B × S → Type 0) (r : Result E A) (f : A → Exec S E B) (s : S)
      → ((e : E) → P (err e, s))
      → ((a : A) → r ≡ ok a → P (f a s))
      → P (continue r f s)
  continue-elim P (ok a) f s thrown h = h a refl
  continue-elim P (err e) f s thrown h = thrown e
