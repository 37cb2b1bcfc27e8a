-- ===== src/Streams/Window/Range.antt =====
-- stream-messages.ts: the sequence numbers that the window test expects.
use mathlib.Core.List.{map}
use native.Mathlib.Decide.{dec_le}
use wake_surfer.Common.{
  ℕ, suc, ◌+◌, ◌-◌, ◌≤◌, ◌<◌, ◌≡◌, ◌↔◌, refl, ap, ◌∙◌, sym, true, List, [], ◌∷◌, arith, length, min,
  take, drop, take_last, map-drop, map-take, drop-range_from, take-range_from, length-map, last?,
  range_from, length-range_from, ok,
}
use wake_surfer.Streams.{StreamMessage}
use wake_surfer.Streams.Window.{assert_consecutive, assert_expected_sequence_window, has_sequence}

abbrev pub sequences : List StreamMessage → List ℕ
sequences = map λ m. m.sequence

head_of : {a b : ℕ} {xs ys : List ℕ} → a ∷ xs ≡ b ∷ ys → a ≡ b
head_of e = cc

tail_of : {a b : ℕ} {xs ys : List ℕ} → a ∷ xs ≡ b ∷ ys → xs ≡ ys
tail_of e = cc

assert_consecutive-range :
    (m : StreamMessage) (ms : List StreamMessage)
    → assert_consecutive (m ∷ ms) ≡ ok tt
    → sequences (m ∷ ms) ≡ range_from m.sequence (length (m ∷ ms))
unfolding assert_consecutive
assert_consecutive-range m [] h = refl
assert_consecutive-range m (n ∷ ms) h = ground (arith, assert_consecutive-range n ms)

range-assert_consecutive :
    (ms : List StreamMessage) (a : ℕ)
    → sequences ms ≡ range_from a (length ms)
    → assert_consecutive ms ≡ ok tt
unfolding assert_consecutive
range-assert_consecutive [] a h = refl
range-assert_consecutive (m ∷ []) a h = refl
range-assert_consecutive (m ∷ n ∷ ms) a h =
    let tail : sequences (n ∷ ms) ≡ range_from (suc a) (length (n ∷ ms)) = tail_of h in
    let first : m.sequence ≡ a = head_of h in
    let second : n.sequence ≡ suc a = head_of tail in
    ground (arith, range-assert_consecutive (n ∷ ms) (suc a) tail)

last_of_range :
    (m : StreamMessage) (ms : List StreamMessage) (a : ℕ)
    → sequences (m ∷ ms) ≡ range_from a (length (m ∷ ms))
    → has_sequence (last? (m ∷ ms)) (a + length ms) ≡ true
last_of_range m [] a h = let first : m.sequence ≡ a = head_of h in ground arith
last_of_range m (n ∷ ms) a h =
    let e : suc a + length ms ≡ a + length (n ∷ ms) = omega arith in
    ap (has_sequence (last? (n ∷ ms))) (sym e) ∙ last_of_range n ms (suc a) (tail_of h)

window_accepts :
    (ms : List StreamMessage) (first last : ℕ)
    → first ≤ last
    → sequences ms ≡ range_from first (last + 1 - first)
    → assert_expected_sequence_window ms first last ≡ ok tt
unfolding assert_expected_sequence_window
window_accepts [] first last le h =
    absurd (omega (arith, ap length h, length-range_from first (last + 1 - first)))
window_accepts (m ∷ ms) first last le h =
    let count : length (m ∷ ms) ≡ last + 1 - first =
      sym (length-map (λ (x : StreamMessage). x.sequence) (m ∷ ms))
      ∙ ap length h
      ∙ length-range_from first (last + 1 - first) in
    let range : sequences (m ∷ ms) ≡ range_from first (length (m ∷ ms)) =
      h ∙ ap (range_from first) (sym count) in
    let start : m.sequence ≡ first = head_of range in
    let stop : first + length ms ≡ last = omega arith in
    let end_ok : has_sequence (last? (m ∷ ms)) last ≡ true =
      ap (has_sequence (last? (m ∷ ms))) (sym stop) ∙ last_of_range m ms first range in
    ground (arith, range-assert_consecutive (m ∷ ms) first range)

range_past : (first last : ℕ) → last < first → [] ≡ range_from first (last + 1 - first)
range_past first last h = ap (range_from first) (none_left first last h)
  where
    none_left : (first last : ℕ) → last < first → 0 ≡ last + 1 - first
    none_left first last h = omega arith

window_sound :
    (ms : List StreamMessage) (first last : ℕ)
    → assert_expected_sequence_window ms first last ≡ ok tt
    → sequences ms ≡ range_from first (last + 1 - first)
unfolding assert_expected_sequence_window
window_sound [] first last h = let past : last < first = ground arith in range_past first last past
window_sound (m ∷ ms) first last h =
    let steps : assert_consecutive (m ∷ ms) ≡ ok tt = ground arith in
    let start : m.sequence ≡ first = ground arith in
    let count : length (m ∷ ms) ≡ last + 1 - first = ground arith in
    assert_consecutive-range m ms steps ∙ rw (start, ← count)

window_past :
    (ms : List StreamMessage) (first last : ℕ)
    → last < first
    → sequences ms ≡ range_from first (last + 1 - first)
    → assert_expected_sequence_window ms first last ≡ ok tt
unfolding assert_expected_sequence_window
window_past [] first last lt h = ground arith
window_past (m ∷ ms) first last lt h = cc (h ∙ sym (range_past first last lt))

-- The window test passes exactly if the messages carry the expected numbers, each once and in
-- order: from the first to the last one, or none where the last lies before the first.
pub assert_expected_sequence_window_iff :
    (ms : List StreamMessage) (first last : ℕ)
    → (assert_expected_sequence_window ms first last ≡ ok tt)
      ↔ (sequences ms ≡ range_from first (last + 1 - first))
assert_expected_sequence_window_iff ms first last = (
  window_sound ms first last,
  λ h. elim (dec_le first last) [
    | yes le ↦ window_accepts ms first last le h
    | no gt ↦ window_past ms first last (omega arith) h
  ],
)

pub range_eq : {a b n m : ℕ} → a ≡ b → n ≡ m → range_from a n ≡ range_from b m
range_eq p q = rw (p, q)

-- What is left of a range by `slice(-k)` and by `slice(0, k)`.
pub sequences-take_last :
    (k a n : ℕ) (ms : List StreamMessage)
    → sequences ms ≡ range_from a n
    → sequences (take_last k ms) ≡ range_from (a + (n - k)) (min n k)
sequences-take_last k a n ms h =
    map-drop (λ (m : StreamMessage). m.sequence) (length ms - k) ms
    ∙ ap (drop (length ms - k)) h
    ∙ drop-range_from (length ms - k) a n
    ∙ range_eq (omega (arith, count)) (omega (arith, count))
  where
    count : length ms ≡ n
    count =
        sym (length-map (λ (m : StreamMessage). m.sequence) ms)
        ∙ ap length h
        ∙ length-range_from a n

pub sequences-take :
    (k a n : ℕ) (ms : List StreamMessage)
    → sequences ms ≡ range_from a n
    → sequences (take k ms) ≡ range_from a (min n k)
sequences-take k a n ms h =
    map-take (λ (m : StreamMessage). m.sequence) k ms ∙ ap (take k) h ∙ take-range_from k a n
