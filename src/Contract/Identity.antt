-- ===== src/Contract/Identity.antt =====
-- Canonical stream IDs and their targets.
use Prim.Native.String.{◌++◌, [], ◌∷◌}
use Prim.Native.Char.{code}
use text.Mathlib.TextLemmas.{append_cancel_left, cons-append, head-eq_of_cons-eq}
use wake_surfer.Common.{
  ℕ, ◌<◌, Bool, true, false, not, refl, is_white, is_empty, trim, is_empty-trim_plain, String, ◌≡◌,
  ◌≢◌, ap, ◌∙◌, sym, arith,
}
use wake_surfer.Contract.{MessageTarget, channel, dm, thread, get_canonical_stream_id}

abbrev head_code : String → ℕ
head_code [] = 0
head_code (c ∷ s) = code c

apart :
    (a b u v : String)
    → 0 < head_code a
    → 0 < head_code b
    → head_code a ≢ head_code b
    → a ++ u ≢ b ++ v
apart [] b u v p q n e = absurd (omega arith)
apart (c ∷ s) [] u v p q n e = absurd (omega arith)
apart (c ∷ s) (d ∷ t) u v p q n e =
    n (ap code (head-eq_of_cons-eq (sym (cons-append c s u) ∙ e ∙ cons-append d t v)))

-- Two targets with the same canonical stream ID are the same target.
pub get_canonical_stream_id-injective :
    (a b : MessageTarget) → get_canonical_stream_id a ≡ get_canonical_stream_id b → a ≡ b
unfolding get_canonical_stream_id
get_canonical_stream_id-injective (channel i) (channel j) e =
    ap channel (append_cancel_left ":" i j (append_cancel_left "channel" _ _ e))
get_canonical_stream_id-injective (dm i) (dm j) e =
    ap dm (append_cancel_left ":" i j (append_cancel_left "dm" _ _ e))
get_canonical_stream_id-injective (thread i) (thread j) e =
    ap thread (append_cancel_left ":" i j (append_cancel_left "thread" _ _ e))
get_canonical_stream_id-injective (channel i) (dm j) e =
    absurd (apart "channel" "dm" _ _ (omega arith) (omega arith) (omega arith) e)
get_canonical_stream_id-injective (channel i) (thread j) e =
    absurd (apart "channel" "thread" _ _ (omega arith) (omega arith) (omega arith) e)
get_canonical_stream_id-injective (dm i) (channel j) e =
    absurd (apart "dm" "channel" _ _ (omega arith) (omega arith) (omega arith) e)
get_canonical_stream_id-injective (dm i) (thread j) e =
    absurd (apart "dm" "thread" _ _ (omega arith) (omega arith) (omega arith) e)
get_canonical_stream_id-injective (thread i) (channel j) e =
    absurd (apart "thread" "channel" _ _ (omega arith) (omega arith) (omega arith) e)
get_canonical_stream_id-injective (thread i) (dm j) e =
    absurd (apart "thread" "dm" _ _ (omega arith) (omega arith) (omega arith) e)

abbrev is_plain : String → Bool
is_plain [] = false
is_plain (c ∷ s) = not (is_white (code c))

is_empty-trim_append : (a u : String) → is_plain a ≡ true → is_empty (trim (a ++ u)) ≡ false
is_empty-trim_append [] u h = cc
is_empty-trim_append (c ∷ s) u h =
    rw (cons-append c s u) (is_empty-trim_plain c (s ++ u) (ground arith))

-- A canonical stream ID is not blank.
pub get_canonical_stream_id-not_blank :
    (target : MessageTarget) → is_empty (trim (get_canonical_stream_id target)) ≡ false
unfolding get_canonical_stream_id is_white
get_canonical_stream_id-not_blank (channel i) = is_empty-trim_append "channel" _ refl
get_canonical_stream_id-not_blank (dm i) = is_empty-trim_append "dm" _ refl
get_canonical_stream_id-not_blank (thread i) = is_empty-trim_append "thread" _ refl
