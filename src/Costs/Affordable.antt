-- ===== src/Costs/Affordable.antt =====
-- What the cash clamp of the sizing leaves for fees, in natural numbers of 10^-12 first.
use native.Mathlib.Nat.{
  zero-div, mul-le-mul_right, lt_of_mul-lt-mul_right, div-mul-le_self, lt-div-mul-add,
}
use smarty_trader.Prelude.{
  ℕ, ◌+◌, ◌-◌, ◌*◌, ◌/◌, ◌≤◌, ◌<◌, ◌≡◌, ◌&&◌, ◌⊎◌, arith, leb, ltb, if◌then◌else◌,
}
use smarty_trader.Prelude.Int.{ℤ, pos, scale, ◌+ℤ◌, ◌-ℤ◌, ◌≤ℤ◌, ltb_ℤ, mul_ℤ, div_ℤ}
use smarty_trader.Float.{fixed, ◌⊕◌}
use smarty_trader.Costs.{CostModel, total_fee, commission, max_affordable_fill_notional}

module _ (fee minimum fx : ℕ) where
  -- the parts of a fee on a fill of `n`
  abbrev pct : ℕ → ℕ
  pct n = n * fee / scale

  abbrev conversion : ℕ → ℕ
  conversion n = n * fx / scale

  -- A fill of `n` in the percentage regime fits, where `n` times all that it costs does.
  pct_fits : (n c : ℕ) → n * (scale + (fee + fx)) ≤ c * scale → n + pct n + conversion n ≤ c
  pct_fits n c h = grind (arith)

  flat_fits :
      (n c : ℕ)
      → minimum ≤ c
      → n * (scale + fx) ≤ (c - minimum) * scale
      → n + minimum + conversion n ≤ c
  flat_fits n c h k = grind arith

  near_above :
      (n above c : ℕ)
      → fee ≤ scale
      → minimum ≤ c
      → n * (scale + fx) ≤ (c - minimum) * scale
      → c * scale < above * (scale + (fee + fx)) + (scale + (fee + fx))
      → above * fee < minimum * scale
      → n * (scale + fx) < (above + 2) * (scale + fx)
  near_above n above c small le h k l = grind arith

  at_most_one_more :
      (n above : ℕ)
      → n ≤ above + 1
      → fee ≤ scale
      → above * fee < minimum * scale
      → n * fee < minimum * scale + scale
  at_most_one_more n above h small l =
      let le : n * fee ≤ (above + 1) * fee = mul-le-mul_right fee h in grind (arith)

  -- In the regime of the flat minimum the percentage is at most that, for a fee of at most 100 %.
  flat_binds :
      (n above c : ℕ)
      → fee ≤ scale
      → minimum ≤ c
      → n * (scale + fx) ≤ (c - minimum) * scale
      → c * scale < above * (scale + (fee + fx)) + (scale + (fee + fx))
      → above * fee / scale < minimum
      → pct n ≤ minimum
  flat_binds n above c small le h k l =
      let below : above * fee < minimum * scale = omega arith in
      let near : n < above + 2 =
        lt_of_mul-lt-mul_right (scale + fx) (near_above n above c small le h k below) in
      let bound = at_most_one_more n above (omega arith) small below in omega arith

  abbrev fee_of : ℕ → ℕ
  fee_of n =
      (if ltb 0 minimum then if ltb (pct n) minimum then minimum else pct n else pct n)
      + conversion n

  abbrev above_of : ℕ → ℕ
  above_of c = c * scale / (scale + (fee + fx))

  abbrev floor_of : ℕ → ℕ
  floor_of c = (c - minimum) * scale / (scale + fx)

  abbrev pub most : ℕ → ℕ
  most c =
      if leb minimum 0
      then above_of c
      else if ltb 0 fee && leb minimum (above_of c * fee / scale)
      then above_of c
      else floor_of c

  fee_of_mono : (n k : ℕ) → n ≤ k → n + fee_of n ≤ k + fee_of k
  fee_of_mono n k h =
      let a : n * fee ≤ k * fee = mul-le-mul_right fee h in
      let b : n * fx ≤ k * fx = mul-le-mul_right fx h in ground arith

  above_fits : (c : ℕ) → let n = above_of c in n + pct n + conversion n ≤ c
  above_fits c = pct_fits (above_of c) c (div-mul-le_self (c * scale) (scale + (fee + fx)))

  floor_fits : (c : ℕ) → minimum ≤ c → let n = floor_of c in n + minimum + conversion n ≤ c
  floor_fits c h = flat_fits (floor_of c) c h (div-mul-le_self ((c - minimum) * scale) (scale + fx))

  floor_binds :
      (c : ℕ)
      → fee ≤ scale
      → minimum ≤ c
      → above_of c * fee / scale < minimum
      → pct (floor_of c) ≤ minimum
  floor_binds c small h l =
      flat_binds (floor_of c) (above_of c) c small h
        (div-mul-le_self ((c - minimum) * scale) (scale + fx)) (lt-div-mul-add (omega arith)) l

  floor_zero : (c : ℕ) → c < minimum → floor_of c ≡ 0
  floor_zero c h = grind (arith, zero-div)

  most_fits : (c : ℕ) → fee ≤ scale → let n = most c in (n ≡ 0) ⊎ (n + fee_of n ≤ c)
  most_fits c small = ground (arith, above_fits c, floor_fits c, floor_binds c small, floor_zero c)

-- A cost model with its percentages and minimum in units of 10^-12: all that `CostModel` accepts.
abbrev pub costs : ℕ → ℕ → ℕ → ℕ → CostModel ℤ
costs slip fee minimum fx = record {
  slippage_pct = pos slip;
  fee_pct = pos fee;
  min_commission = pos minimum;
  fx_fee_pct = pos fx;
}

pub add_pos : (a b : ℕ) → pos a +ℤ pos b ≡ pos (a + b)
unfolding ◌+ℤ◌
add_pos a b = ground arith

sub_floor :
    (a b : ℕ) → (if ltb_ℤ (pos a -ℤ pos b) (pos 0) then pos 0 else (pos a -ℤ pos b)) ≡ pos (a - b)
unfolding ◌-ℤ◌
sub_floor a b = ground arith

spend_under :
    (n c f top g : ℕ)
    → n ≤ (if leb c 0 then 0 else top)
    → (n ≤ top → n + f ≤ top + g)
    → (top ≡ 0) ⊎ (top + g ≤ c)
    → n + (if leb n 0 then 0 else f) ≤ c
spend_under n c f top g h mono fits = ground arith

module _ (slip fee minimum fx : ℕ) where
  total_fee_pos :
      (n : ℕ)
      → total_fee (costs slip fee minimum fx) (pos n)
        ≡ pos (if leb n 0 then 0 else fee_of fee minimum fx n)
  unfolding total_fee commission mul_ℤ ◌+ℤ◌
  total_fee_pos n = ground arith

  pub max_affordable_pos :
      (c : ℕ)
      → max_affordable_fill_notional (costs slip fee minimum fx) (pos c)
        ≡ pos (if leb c 0 then 0 else most fee minimum fx c)
  unfolding max_affordable_fill_notional mul_ℤ div_ℤ
  max_affordable_pos c =
      rw (add_pos fee fx, add_pos scale (fee + fx), add_pos scale fx, sub_floor c minimum)
        (ground arith)

  spend_fits :
      (c n : ℕ)
      → fee ≤ scale
      → n ≤ (if leb c 0 then 0 else most fee minimum fx c)
      → n + (if leb n 0 then 0 else fee_of fee minimum fx n) ≤ c
  spend_fits c n small h =
      let top = most fee minimum fx c in
      let fits : (top ≡ 0) ⊎ (top + fee_of fee minimum fx top ≤ c) =
        most_fits fee minimum fx c small in
      let mono : n ≤ top → n + fee_of fee minimum fx n ≤ top + fee_of fee minimum fx top =
        fee_of_mono fee minimum fx n top in
      spend_under n c (fee_of fee minimum fx n) top (fee_of fee minimum fx top) h mono fits

  -- A fill of at most `max_affordable_fill_notional` of the cash, with all its fees, costs no more
  -- than the cash, for a fee of at most 100 %. The unit of the amounts is 10^-12.
  pub max_affordable-fits :
      (cash n : ℕ)
      → fee ≤ scale
      → pos n ≤ℤ max_affordable_fill_notional (costs slip fee minimum fx) (pos cash)
      → pos n ⊕ total_fee (costs slip fee minimum fx) (pos n) ≤ℤ pos cash
  max_affordable-fits cash n small h =
      let within : pos n ≤ℤ pos (if leb cash 0 then 0 else most fee minimum fx cash) =
        rw (max_affordable_pos cash) at h in
      let spent = spend_fits cash n small (omega arith) in
      rw (total_fee_pos n, add_pos) (omega arith)
