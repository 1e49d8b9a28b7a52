-- ===== src/Float/Defs.antt =====
-- The operations of Python's `float`, and the built-in functions `min`, `max` and `sum` on them.
use smarty_trader.Prelude.{ℕ, ◌≡◌, Bool, List, [], ◌∷◌, if◌then◌else◌}

pub record Float (F : Type 0) : Type 0 where
  pub of_ℕ : ℕ → F
  -- the literal `m * 10 ** -k`
  pub decimal : ℕ → ℕ → F
  pub add : F → F → F
  pub sub : F → F → F
  pub mul : F → F → F
  pub div : F → F → F
  pub neg : F → F
  -- `float(math.floor(x))`
  pub floor : F → F
  pub lt : F → F → Bool
  pub le : F → F → Bool
  pub eq : F → F → Bool

module _ {F : Type 0} ⦃d : Float F⦄ where
  infixl 65 ◌⊕◌ ◌⊖◌
  infixl 70 ◌⊗◌ ◌⊘◌
  infix 50 ◌<?◌ ◌≤?◌ ◌=?◌
  infix 4 ◌≺◌ ◌≼◌
  abbrev pub ◌⊕◌ : F → F → F
  x ⊕ y = d.add x y

  abbrev pub ◌⊖◌ : F → F → F
  x ⊖ y = d.sub x y

  abbrev pub ◌⊗◌ : F → F → F
  x ⊗ y = d.mul x y

  abbrev pub ◌⊘◌ : F → F → F
  x ⊘ y = d.div x y

  abbrev pub ◌<?◌ : F → F → Bool
  x <? y = d.lt x y

  abbrev pub ◌≤?◌ : F → F → Bool
  x ≤? y = d.le x y

  abbrev pub ◌=?◌ : F → F → Bool
  x =? y = d.eq x y

  abbrev pub zero_f : F
  zero_f = d.of_ℕ 0

  abbrev pub one_f : F
  one_f = d.of_ℕ 1

  -- Python's `min(x, y)` and `max(x, y)` give the first argument unless the second is strictly
  -- smaller, or larger.
  abbrev pub min_f : F → F → F
  min_f x y = if y <? x then y else x

  -- `abs(x)`
  abbrev pub abs_f : F → F
  abs_f x = if x <? zero_f then d.neg x else x

  abbrev pub max_f : F → F → F
  max_f x y = if x <? y then y else x

  -- `sum(xs)` adds from the left, from 0.
  abbrev pub sum_from : F → List F → F
  sum_from acc [] = acc
  sum_from acc (x ∷ xs) = sum_from (acc ⊕ x) xs

  abbrev pub sum_f : List F → F
  sum_f xs = sum_from zero_f xs

  -- the tests as statements
  abbrev pub ◌≺◌ : F → F → Type 0
  x ≺ y = (x <? y) ≡ Bool.true

  abbrev pub ◌≼◌ : F → F → Type 0
  x ≼ y = (x ≤? y) ≡ Bool.true

  -- In IEEE 754 `x - x` is 0 just for finite x: it is NaN for an infinity and for NaN.
  abbrev pub IsFinite : F → Type 0
  IsFinite x = x ⊖ x ≡ zero_f
