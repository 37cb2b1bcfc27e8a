-- ===== src/Timeline/Order.antt =====
-- Ascending lists, and the place that the insertion loop finds in one.
use wake_surfer.Common.{
  ℕ, zero, suc, ◌≤◌, ◌<◌, ◌≡◌, ◌≢◌, ◌⊎◌, inl, inr, refl, ◌||◌, List, [], ◌∷◌, ◌++◌, some, arith,
  ltb, length, take, drop, All, All-append, All-take, All-drop, Bool-cases,
}
use wake_surfer.Common.Dict.{Eq, has}
use wake_surfer.Timeline.{Timeline}
use wake_surfer.Timeline.Insert.{get_elem?, sequence_at, insertion_index}

abbrev pub Ascending : List ℕ → Type 0
Ascending [] = Unit
Ascending (x ∷ xs) = All (λ y. x < y) xs × Ascending xs

All-above : {a b : ℕ} (xs : List ℕ) → a < b → All (λ y. b < y) xs → All (λ y. a < y) xs
All-above [] h k = tt
All-above (x ∷ xs) h (p, k) = (omega arith, All-above xs h k)

pub Ascending-insert :
    (k s : ℕ) (xs : List ℕ)
    → Ascending xs
    → All (λ x. x < s) (take k xs)
    → All (λ x. s < x) (drop k xs)
    → Ascending (take k xs ++ s ∷ drop k xs)
Ascending-insert zero s xs asc low high = (high, asc)
Ascending-insert (suc k) s [] asc low high = (tt, tt)
Ascending-insert (suc k) s (x ∷ xs) (first, asc) (p, low) high = (
  All-append (λ y. x < y) (take k xs) (s ∷ drop k xs) (All-take (λ y. x < y) k xs first)
      (p, All-drop (λ y. x < y) k xs first),
  Ascending-insert k s xs asc low high,
)

below_of :
    (j s x : ℕ) (xs : List ℕ)
    → Ascending xs
    → get_elem? xs j ≡ some x
    → x < s
    → All (λ y. y < s) (take (suc j) xs)
below_of j s x [] asc e h = tt
below_of zero s x (y ∷ ys) asc e h = let same : y ≡ x = cc in (omega arith, tt)
below_of (suc j) s x (y ∷ ys) (first, asc) e h =
    (first_below j ys first e, below_of j s x ys asc e h)
  where
    first_below : (j : ℕ) (ys : List ℕ) → All (λ z. y < z) ys → get_elem? ys j ≡ some x → y < s
    first_below j [] f e = cc
    first_below zero (z ∷ zs) (p, f) e = let same : z ≡ x = cc in omega arith
    first_below (suc j) (z ∷ zs) (p, f) e = first_below j zs f e

above_of :
    (k s x : ℕ) (xs : List ℕ)
    → Ascending xs
    → get_elem? xs k ≡ some x
    → s < x
    → All (λ y. s < y) (drop k xs)
above_of k s x [] asc e h = cc
above_of zero s x (y ∷ ys) (first, asc) e h =
    let same : y ≡ x = cc in (omega arith, All-above ys (omega arith) first)
above_of (suc k) s x (y ∷ ys) (first, asc) e h = above_of k s x ys asc e h

drop_all : (xs : List ℕ) → drop (length xs) xs ≡ []
drop_all [] = refl
drop_all (x ∷ xs) = drop_all xs

elem_within : (xs : List ℕ) (i : ℕ) → i < length xs → (x : ℕ) × (get_elem? xs i ≡ some x)
elem_within [] i h = elim h [ ]
elem_within (x ∷ xs) zero h = (x, refl)
elem_within (x ∷ xs) (suc i) h = elem_within xs i (omega arith)

All-elem : (P : ℕ → Type 0) (xs : List ℕ) (i x : ℕ) → All P xs → get_elem? xs i ≡ some x → P x
All-elem P [] i x h e = cc
All-elem P (y ∷ ys) zero x (p, h) e = let same : y ≡ x = cc in rw (← same) p
All-elem P (y ∷ ys) (suc i) x (p, h) e = All-elem P ys i x h e

-- What the loop has found when it stops at `k`.
abbrev IsPlace : (xs : List ℕ) (s n k : ℕ) → Type 0
IsPlace xs s n k =
    (k ≤ n)
    × ((k ≡ 0) ⊎ ((j : ℕ) × (x : ℕ) × (k ≡ suc j) × (get_elem? xs j ≡ some x) × (x ≤ s)))
    × ((k ≡ n) ⊎ ((x : ℕ) × (get_elem? xs k ≡ some x) × (s < x)))

module _ (t : Timeline) (xs : List ℕ) (seen : (i : ℕ) → sequence_at t i ≡ get_elem? xs i) where
  insertion_index-IsPlace :
      (s n : ℕ) → n ≤ length xs → (k : ℕ) × (insertion_index t s n ≡ some k) × IsPlace xs s n k
  unfolding insertion_index
  insertion_index-IsPlace s zero h = (0, refl, (omega arith, inl refl, inl refl))
  insertion_index-IsPlace s (suc i) h =
      let (x, at) = elem_within xs i h in
      let (k, found, (le, low, high)) = insertion_index-IsPlace s i (omega arith) in
      elim (Bool-cases (ltb s x)) [
        | inl less ↦ (
          k,
          ground (arith, seen i),
          (
            omega arith,
            low,
            elim high [ inl same ↦ inr (x, rw same at, ground arith) | inr more ↦ inr more ],
          ),
        )
        | inr more ↦ (
          suc i,
          ground (arith, seen i),
          (omega arith, inr (i, x, refl, at, ground arith), inl refl),
        )
      ]

  -- The insertion loop finds the place that keeps the list ascending.
  pub insertion_index-Ascending :
      (s : ℕ)
      → Ascending xs
      → All (λ x. x ≢ s) xs
      → (k : ℕ) × (insertion_index t s (length xs) ≡ some k)
        × Ascending (take k xs ++ s ∷ drop k xs)
  insertion_index-Ascending s asc fresh =
      let (k, found, (le, low, high)) = insertion_index-IsPlace s (length xs) (omega arith) in
      (
        k,
        found,
        Ascending-insert k s xs asc
            (elim low [
              | inl none_left ↦ rw none_left tt
              | inr (j, x, is_j, at, below) ↦
                  let apart = All-elem (λ x. x ≢ s) xs j x fresh at in
                  rw is_j (below_of j s x xs asc at (omega arith))
            ])
            (elim high [
              | inl at_end ↦ rw (at_end, drop_all xs) tt
              | inr (x, at, above) ↦ above_of k s x xs asc at above
            ]),
      )

module _ {K : Type 0} ⦃e : Eq K⦄ where
  pub has-insert :
      (k : ℕ) (a b : K) (xs : List K) → has b (take k xs ++ a ∷ drop k xs) ≡ (e.beq a b || has b xs)
  unfolding has
  has-insert zero a b xs = refl
  has-insert (suc k) a b [] = refl
  has-insert (suc k) a b (x ∷ xs) = ground (arith, has-insert k a b xs)
