-- ===== src/Common/Dict.antt =====
-- `Map` and `Set` of JavaScript as association lists, in the order of insertion. A key is a text or
-- a number.
use mathlib.Core.Path.{◌≡◌, refl}
use mathlib.Core.Logic.{◌↔◌}
use mathlib.Core.Bool.{Bool, true, false, ◌||◌}
use mathlib.Core.Option.{Option, none, some}
use mathlib.Core.List.{List, [], ◌∷◌}
use Prim.Native.Nat.{ℕ, ◌≤◌, ◌<◌}
use Prim.Native.String.{String}
use native.Mathlib.Omega.{arith}
use text.Mathlib.Text.{◌==◌ as str_eq}
use text.Mathlib.TextEquality.{eq_iff}
use wake_surfer.Common.Tests.{if◌then◌else◌, ◌==◌ as nat_eq, ==_iff}
use wake_surfer.Common.Lists.{length}

pub record Eq {ℓ} (A : Type ℓ) : Type ℓ where
  pub beq : A → A → Bool
  pub beq_iff : (a b : A) → (beq a b ≡ true) ↔ (a ≡ b)

instance abbrev pub text_key : Eq String
text_key = record { beq = str_eq; beq_iff = eq_iff }

-- The keys that are sequence numbers.
instance abbrev pub nat_key : Eq ℕ
nat_key = record { beq = nat_eq; beq_iff = ==_iff }

module _ {ℓ κ} {K : Type ℓ} {V : Type κ} ⦃e : Eq K⦄ where
  -- map.get(key)
  unfoldable pub get : K → List (K × V) → Option V
  get k [] = none
  get k ((j, v) ∷ m) = if e.beq j k then some v else get k m

  -- map.set(key, value)
  unfoldable pub put : K → V → List (K × V) → List (K × V)
  put k v [] = (k, v) ∷ []
  put k v ((j, w) ∷ m) = if e.beq j k then (j, v) ∷ m else (j, w) ∷ put k v m

  -- map.delete(key)
  unfoldable pub remove : K → List (K × V) → List (K × V)
  remove k [] = []
  remove k ((j, w) ∷ m) = if e.beq j k then remove k m else (j, w) ∷ remove k m

  pub get-put :
      (k j : K) (v : V) (m : List (K × V))
      → get j (put k v m) ≡ (if e.beq k j then some v else get j m)
  unfolding get put
  get-put k j v [] = refl
  get-put k j v ((i, w) ∷ m) =
      ground (arith, e.beq_iff i j, e.beq_iff i k, e.beq_iff k j, get-put k j v m)

  pub get-remove :
      (k j : K) (m : List (K × V)) → get j (remove k m) ≡ (if e.beq k j then none else get j m)
  unfolding get remove
  get-remove k j [] = ground arith
  get-remove k j ((i, w) ∷ m) =
      ground (arith, e.beq_iff i j, e.beq_iff i k, e.beq_iff k j, get-remove k j m)

  pub length-remove-le : (k : K) (m : List (K × V)) → length (remove k m) ≤ length m
  unfolding remove
  length-remove-le k [] = omega arith
  length-remove-le k ((i, w) ∷ m) = ground (arith, length-remove-le k m)

  pub length-remove-lt :
      (k : K) (v : V) (m : List (K × V)) → get k m ≡ some v → length (remove k m) < length m
  unfolding get remove
  length-remove-lt k v [] h = cc
  length-remove-lt k v ((i, w) ∷ m) h = ground (arith, length-remove-le k m, length-remove-lt k v m)

  pub get_self : (k : K) (v : V) (m : List (K × V)) → get k (put k v m) ≡ some v
  get_self k v m = rw (get-put k k v m, (e.beq_iff k k).1 refl)

module _ {ℓ} {K : Type ℓ} ⦃e : Eq K⦄ where
  -- set.has(key)
  unfoldable pub has : K → List K → Bool
  has k [] = false
  has k (j ∷ s) = e.beq j k || has k s

  -- set.add(key)
  unfoldable pub add : K → List K → List K
  unfolding has
  add k s = if has k s then s else k ∷ s

  -- set.delete(key)
  unfoldable pub discard : K → List K → List K
  discard k [] = []
  discard k (j ∷ s) = if e.beq j k then discard k s else j ∷ discard k s

  pub has-add : (k j : K) (s : List K) → has j (add k s) ≡ (e.beq k j || has j s)
  unfolding add
  has-add k j s = ground (arith, e.beq_iff k j)

  pub has-discard :
      (k j : K) (s : List K) → has j (discard k s) ≡ (if e.beq k j then false else has j s)
  unfolding has discard
  has-discard k j [] = ground arith
  has-discard k j (i ∷ s) =
      ground (arith, e.beq_iff i j, e.beq_iff i k, e.beq_iff k j, has-discard k j s)
