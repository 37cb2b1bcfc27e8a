-- ===== src/Common/Text.antt =====
-- The string operations of JavaScript that the program calls, over code points.
use Prim.Native.Nat.{ℕ}
use Prim.Native.Char.{Char, code}
use Prim.Native.String.{String, [], ◌∷◌}
use mathlib.Core.Path.{◌≡◌, refl, ◌∙◌, ap}
use mathlib.Core.Bool.{Bool, true, false, not, ◌&&◌, ◌||◌}
use native.Mathlib.Omega.{arith}
use text.Mathlib.Text.{◌==◌}
use text.Mathlib.TextPositions.{eq_refl}
use text.Mathlib.TextEquality.{eq_iff}
use wake_surfer.Common.Tests.{leb, if◌then◌else◌}
use wake_surfer.Common.Tests
use mathlib.Core.Logic.{inl, inr}

-- s.length === 0
abbrev pub is_empty : String → Bool
is_empty [] = true
is_empty (c ∷ s) = false

-- Does U+0000 stand in the text?
unfoldable pub has_nul : String → Bool
has_nul [] = false
has_nul (c ∷ s) = Tests.◌==◌ (code c) 0 || has_nul s

-- The code points that `String.prototype.trim` removes: WhiteSpace and LineTerminator.
unfoldable pub is_white : ℕ → Bool
is_white c =
    (leb 9 c && leb c 13)
    || (Tests.◌==◌ c 32
        || (Tests.◌==◌ c 0xa0
            || (Tests.◌==◌ c 0x1680
                || ((leb 0x2000 c && leb c 0x200a)
                    || (Tests.◌==◌ c 0x2028
                        || (Tests.◌==◌ c 0x2029
                            || (Tests.◌==◌ c 0x202f
                                || (Tests.◌==◌ c 0x205f
                                    || (Tests.◌==◌ c 0x3000 || Tests.◌==◌ c 0xfeff)))))))))

trim_start : String → String
trim_start [] = []
trim_start (c ∷ s) = if is_white (code c) then trim_start s else c ∷ s

trim_end : String → String
trim_end [] = []
trim_end (c ∷ s) = let r = trim_end s in if is_empty r && is_white (code c) then [] else c ∷ r

unfoldable pub trim : String → String
unfolding trim_start trim_end is_white
trim s = trim_end (trim_start s)

trim_end_idem : (s : String) → trim_end (trim_end s) ≡ trim_end s
unfolding trim_end
trim_end_idem [] = refl
trim_end_idem (c ∷ s) = ground (arith, trim_end_idem s)

-- The first character, if there is one, is no white space.
abbrev pub StartsPlain : String → Type 0
StartsPlain [] = Unit {0}
StartsPlain (c ∷ s) = is_white (code c) ≡ false

trim_start-StartsPlain : (s : String) → StartsPlain (trim_start s)
unfolding trim_start
trim_start-StartsPlain [] = tt
trim_start-StartsPlain (c ∷ s) = elim (Tests.Bool-cases (is_white (code c))) [
  | inl white ↦ rw white (trim_start-StartsPlain s)
  | inr plain ↦ rw plain plain
]

trim_end-StartsPlain : (s : String) → StartsPlain s → StartsPlain (trim_end s)
unfolding trim_end
trim_end-StartsPlain [] h = tt
trim_end-StartsPlain (c ∷ s) h = ground arith

trim_start_plain : (s : String) → StartsPlain s → trim_start s ≡ s
unfolding trim_start
trim_start_plain [] h = refl
trim_start_plain (c ∷ s) h = rw h

pub trim_idem : (s : String) → trim (trim s) ≡ trim s
unfolding trim
trim_idem s =
    ap trim_end
      (trim_start_plain _ (trim_end-StartsPlain (trim_start s) (trim_start-StartsPlain s)))
    ∙ trim_end_idem (trim_start s)

-- An identifier with no white space around it, and not blank:
-- `value.trim().length !== 0 && value.trim() === value`.
abbrev pub is_canonical : String → Bool
is_canonical s = not (is_empty (trim s)) && trim s == s

pub is_canonical-trim : (s : String) → is_empty (trim s) ≡ false → is_canonical (trim s) ≡ true
is_canonical-trim s h = rw (trim_idem s, h, eq_refl (trim s))

pub trim_of_is_canonical : (s : String) → is_canonical s ≡ true → trim s ≡ s
trim_of_is_canonical s h = ground (arith, eq_iff (trim s) s)

-- A text that trims to some characters has some.
pub is_empty-trim : (s : String) → is_empty (trim s) ≡ false → is_empty s ≡ false
unfolding trim trim_start trim_end
is_empty-trim [] h = h
is_empty-trim (c ∷ s) h = refl

-- A text that starts with no white space is not blank.
pub is_empty-trim_plain :
    (c : Char) (s : String) → is_white (code c) ≡ false → is_empty (trim (c ∷ s)) ≡ false
unfolding trim trim_start trim_end
is_empty-trim_plain c s h = ground arith
