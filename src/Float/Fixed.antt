-- ===== src/Float/Fixed.antt =====
-- Fixed-point numbers with twelve decimals as an instance of `Float`: sums and differences are
-- exact, products and quotients are cut off.
use smarty_trader.Prelude.{◌*◌, ◌/◌, ◌^◌, arith}
use smarty_trader.Prelude.Int.{
  ℤ, pos, ◌+ℤ◌, ◌-ℤ◌, mul_ℤ, div_ℤ, floor_ℤ, ltb_ℤ, leb_ℤ, eqb_ℤ, scale,
}
use smarty_trader.Float.Defs.{Float}
use smarty_trader.Float.Laws.{IsOrdered, ReversesOrder}

instance abbrev pub fixed : Float ℤ
fixed = record {
  of_ℕ = λ n. pos (n * scale);
  decimal = λ m k. pos (m * scale / 10 ^ k);
  add = ◌+ℤ◌;
  sub = ◌-ℤ◌;
  mul = mul_ℤ;
  div = div_ℤ;
  neg = λ x. pos 0 -ℤ x;
  floor = floor_ℤ;
  lt = ltb_ℤ;
  le = leb_ℤ;
  eq = eqb_ℤ;
}

pub fixed-IsOrdered : IsOrdered ℤ
unfolding ◌-ℤ◌
fixed-IsOrdered = record {
  number_of_le = λ x y h. (ground arith, ground arith);
  le_trans = λ x y z p q. ground arith;
  le_of_lt = λ x y p. ground arith;
  lt-eq-not-le = λ x y p q. ground arith;
  le_total = λ x y p q. ground arith;
  zero_le-decimal = λ m k. ground arith;
  finite_of_between = λ x y p q. ground arith;
}

pub fixed-ReversesOrder : ReversesOrder ℤ
unfolding ◌-ℤ◌
fixed-ReversesOrder = record {
  lt-neg = λ x y. ground arith;
  eq_symm = λ x y. ground arith;
  eq-neg = λ x y. ground arith;
  lt_of_eq = λ x y h. ground arith;
  lt_asymm = λ x y h. ground arith;
}
