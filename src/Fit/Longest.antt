-- ===== src/Fit/Longest.antt =====
-- page-policy.ts: the rests of a page that the fitting loop tries.
use wake_surfer.Common.{
  ℕ, zero, suc, ◌+◌, ◌-◌, ◌≤◌, ◌<◌, ◌≡◌, ◌⊎◌, inl, inr, refl, sym, ap, subst, ◌∙◌, Bool, true,
  false, List, [], ◌∷◌, arith, length, drop, take, All, range_from, Result, ok,
}
use wake_surfer.Contract.{PublicMessage}
use wake_surfer.Fit.{
  Measurement, MeasuredPage, IntegrityError, assert_valid_measurement, shrink, fit_loop,
  fit_contiguous_messages, fit_newest_contiguous_messages, fit_oldest_contiguous_messages,
}

module _ {R : Type 0} (build_response : List PublicMessage → R) (measure : R → Measurement) where
  -- The response with these messages is measured, and within the limit or not.
  abbrev pub IsMeasured : Bool → ℕ → List PublicMessage → Type 0
  IsMeasured within bytes ms =
      (assert_valid_measurement (measure (build_response ms)) ≡ ok bytes)
      × ((measure (build_response ms)).is_within_limit ≡ within)

  abbrev pub IsTooLarge : List PublicMessage → Type 0
  IsTooLarge ms = (bytes : ℕ) × IsMeasured false bytes ms

  abbrev pub page_of : ℕ → List PublicMessage → MeasuredPage R
  page_of bytes ms = record { response = build_response ms; envelope_utf8_byte_length = bytes }

  module _ (remove_message : List PublicMessage → List PublicMessage) where
    loop_ends :
        (fuel bytes : ℕ) (ms : List PublicMessage)
        → IsMeasured true bytes ms
        → fit_loop build_response measure remove_message (suc fuel) ms ≡ ok (page_of bytes ms)
    unfolding fit_loop
    loop_ends fuel bytes ms (valid, within) = rw (fit_loop, valid, within)

    shrink_two :
        (ms : List PublicMessage) (bytes : ℕ) (rest : Result IntegrityError (MeasuredPage R))
        → 1 < length ms
        → shrink ms bytes rest ≡ rest
    shrink_two [] bytes rest h = elim h [ ]
    shrink_two (m ∷ []) bytes rest h = elim (absurd h) [ ]
      where
        absurd : 1 < 1 → ⊥
        absurd k = omega arith
    shrink_two (m ∷ n ∷ ms) bytes rest h = refl

    loop_goes_on :
        (fuel bytes : ℕ) (ms : List PublicMessage)
        → IsMeasured false bytes ms
        → 1 < length ms
        → fit_loop build_response measure remove_message (suc fuel) ms
          ≡ fit_loop build_response measure remove_message fuel (remove_message ms)
    unfolding fit_loop
    loop_goes_on fuel bytes ms (valid, over) two =
        rw (fit_loop, valid, over)
          (shrink_two ms bytes
            (fit_loop build_response measure remove_message fuel (remove_message ms)) two)

    module _ (n : ℕ) (view : ℕ → List PublicMessage)
        (removes : (a : ℕ) → remove_message (view a) ≡ view (suc a))
        (length-view : (a : ℕ) → length (view a) ≡ n - a) where
      fit_loop_lem :
          (k a fuel bytes : ℕ)
          → All (λ j. IsTooLarge (view j)) (range_from a k)
          → IsMeasured true bytes (view (a + k))
          → (k ≡ 0) ⊎ (a + k < n)
          → k < fuel
          → fit_loop build_response measure remove_message fuel (view a)
            ≡ ok (page_of bytes (view (a + k)))
      fit_loop_lem k a zero bytes over fits last enough = elim enough [ ]
      fit_loop_lem zero a (suc fuel) bytes over fits last enough =
          let same : a + 0 ≡ a = omega arith in
          rw (ap view same) (loop_ends fuel bytes (view a) (rw same at fits))
      fit_loop_lem (suc k) a (suc fuel) bytes ((b, over), more) fits last enough =
          let shift : suc a + k ≡ a + suc k = omega arith in
          let ahead : a + suc k < n = still k last in
          let two : 1 < length (view a) = rw (length-view a) (omega arith) in
          loop_goes_on fuel b (view a) over two
          ∙ ap (fit_loop build_response measure remove_message fuel) (removes a)
          ∙ rw (ap view (sym shift)) (
              fit_loop_lem k (suc a) fuel bytes more (rw (ap view (sym shift)) at fits)
                (inr (omega arith)) (omega arith))
        where
          still : (k : ℕ) → (suc k ≡ 0) ⊎ (a + suc k < n) → a + suc k < n
          still k (inl none) = elim (apart none) [ ]
            where
              apart : suc k ≡ 0 → ⊥
              apart h = omega arith
          still k (inr less) = less

      fit_from_start :
          (k fuel bytes : ℕ)
          → All (λ j. IsTooLarge (view j)) (range_from 0 k)
          → IsMeasured true bytes (view k)
          → (k ≡ 0) ⊎ (k < n)
          → n < fuel
          → fit_loop build_response measure remove_message fuel (view 0)
            ≡ ok (page_of bytes (view k))
      fit_from_start k fuel bytes over fits last enough =
          let same : 0 + k ≡ k = omega arith in
          subst
            (λ i.
              fit_loop build_response measure remove_message fuel (view 0)
              ≡ ok (page_of bytes (view i)))
            same
            (fit_loop_lem k 0 fuel bytes over
              (subst (λ i. IsMeasured true bytes (view i)) (sym same) fits)
              (elim last [ inl none ↦ inl none | inr less ↦ inr (omega arith) ])
              (elim last [ inl none ↦ omega arith | inr less ↦ omega arith ]))

  drop_one : (a : ℕ) (ms : List PublicMessage) → drop 1 (drop a ms) ≡ drop (suc a) ms
  drop_one zero ms = refl
  drop_one (suc a) [] = refl
  drop_one (suc a) (m ∷ ms) = drop_one a ms

  length-drop : (a : ℕ) (ms : List PublicMessage) → length (drop a ms) ≡ length ms - a
  length-drop zero ms = omega arith
  length-drop (suc a) [] = omega arith
  length-drop (suc a) (m ∷ ms) = length-drop a ms ∙ omega arith

  take_all : (ms : List PublicMessage) → take (length ms) ms ≡ ms
  take_all [] = refl
  take_all (m ∷ ms) = ap (λ r. m ∷ r) (take_all ms)

  take_less : (a b : ℕ) (ms : List PublicMessage) → a ≤ b → take a (take b ms) ≡ take a ms
  take_less zero b ms h = refl
  take_less (suc a) zero ms h = elim (absurd h) [ ]
    where
      absurd : suc a ≤ 0 → ⊥
      absurd k = omega arith
  take_less (suc a) (suc b) [] h = refl
  take_less (suc a) (suc b) (m ∷ ms) h = ap (λ r. m ∷ r) (take_less a b ms (omega arith))

  length-take : (a : ℕ) (ms : List PublicMessage) → a ≤ length ms → length (take a ms) ≡ a
  length-take zero ms h = refl
  length-take (suc a) [] h = elim (absurd h) [ ]
    where
      absurd : suc a ≤ 0 → ⊥
      absurd k = omega arith
  length-take (suc a) (m ∷ ms) h = ap suc (length-take a ms (omega arith))

  -- The responses with the newest messages are measured, and `k` is the least number of the oldest
  -- messages to leave out for a response within the limit, with at least one message left if any is
  -- left out: `fitNewestContiguousMessages` returns the response with all but those `k`, and its size.
  pub fit_newest_contiguous_messages-IsLongest :
      (ms : List PublicMessage) (k bytes : ℕ)
      → All (λ j. IsTooLarge (drop j ms)) (range_from 0 k)
      → IsMeasured true bytes (drop k ms)
      → (k ≡ 0) ⊎ (k < length ms)
      → fit_newest_contiguous_messages ms build_response measure ≡ ok (page_of bytes (drop k ms))
  unfolding fit_newest_contiguous_messages fit_contiguous_messages
  fit_newest_contiguous_messages-IsLongest ms k bytes over fits last =
      fit_from_start (λ l. drop 1 l) (length ms) (λ a. drop a ms) (λ a. drop_one a ms)
        (λ a. length-drop a ms) k (suc (length ms)) bytes over fits last (omega arith)

  -- The responses with the oldest messages are measured, and `k` is the least number of the newest
  -- messages to leave out for a response within the limit, with at least one message left if any is
  -- left out: `fitOldestContiguousMessages` returns the response with all but those `k`, and its size.
  pub fit_oldest_contiguous_messages-IsLongest :
      (ms : List PublicMessage) (k bytes : ℕ)
      → All (λ j. IsTooLarge (take (length ms - j) ms)) (range_from 0 k)
      → IsMeasured true bytes (take (length ms - k) ms)
      → (k ≡ 0) ⊎ (k < length ms)
      → fit_oldest_contiguous_messages ms build_response measure
        ≡ ok (page_of bytes (take (length ms - k) ms))
  unfolding fit_oldest_contiguous_messages fit_contiguous_messages
  fit_oldest_contiguous_messages-IsLongest ms k bytes over fits last =
      ap (fit_loop build_response measure remove (suc (length ms))) (sym (all_of ms))
      ∙ fit_from_start remove (length ms) view removes
          (λ a. length-take (length ms - a) ms (omega arith)) k (suc (length ms)) bytes over fits
          last (omega arith)
    where
      remove : List PublicMessage → List PublicMessage
      remove l = take (length l - 1) l

      view : ℕ → List PublicMessage
      view a = take (length ms - a) ms

      all_of : (l : List PublicMessage) → take (length l - 0) l ≡ l
      all_of l = ap (λ n. take n l) whole_length ∙ take_all l
        where
          whole_length : length l - 0 ≡ length l
          whole_length = omega arith

      removes : (a : ℕ) → remove (view a) ≡ view (suc a)
      removes a =
          take_less (length (view a) - 1) (length ms - a) ms short ∙ ap (λ n. take n ms) one_less
        where
          short : length (view a) - 1 ≤ length ms - a
          short = omega (arith, length-take (length ms - a) ms (omega arith))

          one_less : length (view a) - 1 ≡ length ms - suc a
          one_less = omega (arith, length-take (length ms - a) ms (omega arith))
