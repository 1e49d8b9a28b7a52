-- ===== src/Float/Laws.antt =====
-- The laws of the order of floats, which hold in IEEE 754 for all values: NaN is the value that is
-- not `<=` itself, and nothing is claimed of it but that no comparison with it succeeds.
use smarty_trader.Prelude.{ℕ, ◌≡◌, ◌⊎◌, false, true, not}
use smarty_trader.Float.Defs.{Float, ◌⊖◌, ◌⊘◌, ◌<?◌, ◌≤?◌, ◌=?◌, ◌≺◌, ◌≼◌, zero_f, IsFinite}

pub record IsOrdered (F : Type 0) ⦃d : Float F⦄ : Type 0 where
  pub number_of_le : (x y : F) → x ≼ y → (x ≼ x) × (y ≼ y)
  pub le_trans : (x y z : F) → x ≼ y → y ≼ z → x ≼ z
  pub le_of_lt : (x y : F) → x ≺ y → x ≼ y
  pub lt-eq-not-le : (x y : F) → x ≼ x → y ≼ y → (x <? y) ≡ not (y ≤? x)
  pub le_total : (x y : F) → x ≼ x → y ≼ y → (x ≼ y) ⊎ (y ≼ x)
  pub zero_le-decimal : (m k : ℕ) → zero_f ≼ d.decimal m k
  -- What lies between 0 and some float is no infinity.
  pub finite_of_between : (x y : F) → zero_f ≺ x → x ≺ y → IsFinite x

-- A difference from NaN and a quotient of NaN are NaN.
pub record PropagatesNan (F : Type 0) ⦃d : Float F⦄ : Type 0 where
  pub sub_nan : (x y : F) → (y ≤? y) ≡ false → (x ⊖ y ≤? x ⊖ y) ≡ false
  pub div_nan : (x y : F) → (x ≤? x) ≡ false → (x ⊘ y ≤? x ⊘ y) ≡ false

-- The sign bit turns every comparison round, and equality is symmetric and excludes `<`. These hold
-- for NaN too.
pub record ReversesOrder (F : Type 0) ⦃d : Float F⦄ : Type 0 where
  pub lt-neg : (x y : F) → (d.neg x <? d.neg y) ≡ (y <? x)
  pub eq_symm : (x y : F) → (x =? y) ≡ (y =? x)
  pub eq-neg : (x y : F) → (d.neg x =? d.neg y) ≡ (x =? y)
  pub lt_of_eq : (x y : F) → (x =? y) ≡ true → (x <? y) ≡ false
  pub lt_asymm : (x y : F) → x ≺ y → (y <? x) ≡ false
