-- ===== src/Streams/Window.antt =====
-- stream-messages.ts: `assertExpectedSequenceWindow`, the test that a page has no gap.
pub mod Range
use wake_surfer.Common.{
  ℕ, suc, ◌+◌, ◌-◌, Bool, true, false, not, ◌||◌, List, [], ◌∷◌, Option, none, some, ltb, ◌==◌,
  length, first?, last?, if◌then◌else◌, Result, ok, err, ◌>>=◌, ◌>>◌, guard,
}
use wake_surfer.Streams.{Error, data_integrity, sequence_gap, StreamMessage}

-- throwSequenceGap
pub throw_sequence_gap {ℓ} : {A : Type ℓ} → Result Error A
throw_sequence_gap = err (data_integrity sequence_gap)

-- message?.sequence === expected
abbrev pub has_sequence : Option StreamMessage → ℕ → Bool
has_sequence none expected = false
has_sequence (some m) expected = m.sequence == expected

-- The loop over the indices from 1.
assert_consecutive : List StreamMessage → Result Error (Unit {0})
unfolding throw_sequence_gap
assert_consecutive [] = ok tt
assert_consecutive (m ∷ []) = ok tt
assert_consecutive (m ∷ n ∷ ms) =
    if n.sequence == m.sequence + 1 then assert_consecutive (n ∷ ms) else throw_sequence_gap

unfoldable pub assert_expected_sequence_window :
    List StreamMessage → (expected_first expected_last : ℕ) → Result Error (Unit {0})
unfolding throw_sequence_gap assert_consecutive
assert_expected_sequence_window messages expected_first expected_last =
    if ltb expected_last expected_first
    then (if ltb 0 (length messages) then throw_sequence_gap else ok tt)
    else (if not (length messages == expected_last - expected_first + 1)
          || (not (has_sequence (first? messages) expected_first)
              || not (has_sequence (last? messages) expected_last))
        then throw_sequence_gap
        else assert_consecutive messages)
