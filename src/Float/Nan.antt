-- ===== src/Float/Nan.antt =====
-- Fixed-point numbers with a NaN, `none`: no comparison with it succeeds, and every operation on it
-- gives it.
use smarty_trader.Prelude.{Bool, false, Option, none, some, arith}
use smarty_trader.Prelude.Int.{ℤ, ◌-ℤ◌}
use smarty_trader.Float.Defs.{Float}
use smarty_trader.Float.Laws.{IsOrdered, PropagatesNan}
use smarty_trader.Float.Fixed.{fixed}

abbrev pub NanOr : Type 0
NanOr = Option ℤ

abbrev pub lift : (ℤ → ℤ) → NanOr → NanOr
lift f none = none
lift f (some x) = some (f x)

abbrev pub lift₂ : (ℤ → ℤ → ℤ) → NanOr → NanOr → NanOr
lift₂ f none y = none
lift₂ f (some x) none = none
lift₂ f (some x) (some y) = some (f x y)

abbrev pub on_numbers : (ℤ → ℤ → Bool) → NanOr → NanOr → Bool
on_numbers f none y = false
on_numbers f (some x) none = false
on_numbers f (some x) (some y) = f x y

instance abbrev pub nan_fixed : Float NanOr
nan_fixed = record {
  of_ℕ = λ n. some (fixed.of_ℕ n);
  decimal = λ m k. some (fixed.decimal m k);
  add = lift₂ fixed.add;
  sub = lift₂ fixed.sub;
  mul = lift₂ fixed.mul;
  div = lift₂ fixed.div;
  neg = lift fixed.neg;
  floor = lift fixed.floor;
  lt = on_numbers fixed.lt;
  le = on_numbers fixed.le;
  eq = on_numbers fixed.eq;
}

pub nan_fixed-IsOrdered : IsOrdered NanOr
unfolding ◌-ℤ◌
nan_fixed-IsOrdered = record {
  number_of_le = λ x y h. (ground arith, ground arith);
  le_trans = λ x y z p q. ground arith;
  le_of_lt = λ x y p. ground arith;
  lt-eq-not-le = λ x y p q. ground arith;
  le_total = λ x y p q. ground arith;
  zero_le-decimal = λ m k. ground arith;
  finite_of_between = λ x y p q. ground arith;
}

pub nan_fixed-PropagatesNan : PropagatesNan NanOr
nan_fixed-PropagatesNan = record {
  sub_nan = λ x y h. ground arith;
  div_nan = λ x y h. ground arith;
}
