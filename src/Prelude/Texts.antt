-- ===== src/Prelude/Texts.antt =====
-- The order of Python's texts, which is that of their characters' numbers.
use Prim.Native.Nat.{Ordering}
use Prim.Native.String.compare
use Prim.Native.String.{String, [], ◌∷◌, compare}
use mathlib.Core.Path.{◌≡◌, ap}
use mathlib.Core.Bool.{Bool, true, false}
use native.Mathlib.Omega.{arith}

abbrev is_lt : Ordering → Bool
is_lt Ordering.lt = true
is_lt Ordering.eq = false
is_lt Ordering.gt = false

abbrev pub text_before : String → String → Bool
text_before s t = is_lt (compare s t)

-- No text stands before one that stands before it.
pub text_before-asymmetric : (s t : String) → text_before s t ≡ true → text_before t s ≡ false
text_before-asymmetric [] [] h = ap is_lt compare.nil-nil
text_before-asymmetric [] (d ∷ t) h = ap is_lt (compare.cons-nil d t)
text_before-asymmetric (c ∷ s) [] h = absurd (ground (arith, ap is_lt (compare.cons-nil c s)))
text_before-asymmetric (c ∷ s) (d ∷ t) h = ground (
  arith,
  ap is_lt (compare.cons-cons c d s t),
  ap is_lt (compare.cons-cons d c t s),
  text_before-asymmetric s t,
)
