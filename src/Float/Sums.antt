-- ===== src/Float/Sums.antt =====
-- Sums of fixed-point numbers, which are exact and do not depend on how they are bracketed.
use smarty_trader.Prelude.{◌≡◌, List, [], ◌∷◌}
use smarty_trader.Prelude.Int.{ℤ, pos, ◌+ℤ◌, int_laws}
use smarty_trader.Float.Defs.{sum_from, sum_f}
use smarty_trader.Float.Fixed.{fixed}

-- The plain sum of a list; `sum_f` adds from the left.
abbrev pub sum : List ℤ → ℤ
sum [] = pos 0
sum (x ∷ xs) = x +ℤ sum xs

sum_from-eq-sum : (acc : ℤ) (xs : List ℤ) → sum_from acc xs ≡ acc +ℤ sum xs
sum_from-eq-sum acc [] = omega int_laws
sum_from-eq-sum acc (x ∷ xs) = rw (sum_from-eq-sum (acc +ℤ x) xs) (omega int_laws)

pub sum_f-eq-sum : (xs : List ℤ) → sum_f xs ≡ sum xs
sum_f-eq-sum xs = rw (sum_from-eq-sum (pos 0) xs) (omega int_laws)
