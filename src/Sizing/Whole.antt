-- ===== src/Sizing/Whole.antt =====
-- The quantity of an entry: whole steps of 10^-8, and within each cap of the sizing.
use mathlib.Core.Path.{subst}
use smarty_trader.Prelude.{
  ℕ, ◌*◌, ◌/◌, ◌≡◌, refl, sym, ap, true, Option, none, some, arith, if◌then◌else◌, Bool-cases, ◌&&◌,
  inl, inr,
}
use smarty_trader.Prelude.Int.{ℤ, pos, negsuc, ◌≤ℤ◌, mul_ℤ, div_ℤ, floor_ℤ}
use smarty_trader.Float.{fixed, ◌⊖◌, ◌⊗◌, ◌⊘◌, ◌<?◌, zero_f, min_f, max_f}
use smarty_trader.Models.{Action, TradeSignal, PortfolioState, total_value}
use smarty_trader.Costs.{CostModel}
use smarty_trader.Risk.{RiskSettings}
use smarty_trader.Tracker.Whole.{IsWhole}
use smarty_trader.Sizing.{
  round_down, risk_capped, cash_capped, headroom, sizing_price, spendable, fill_price, affordable,
  buy_quantity, calculate_quantity, quantity_for, held_quantity, other_quantity,
}

-- A quantity in whole steps, from 0 to `x` or to 0 where `x` is below it.
pub record IsRounded (x q : ℤ) : Type 0 where
  pub whole : IsWhole q
  pub nonneg : pos 0 ≤ℤ q
  pub within : q ≤ℤ max_f x (pos 0)

max_pos : (n : ℕ) → max_f (pos n) (pos 0) ≡ pos n
max_pos n = ground arith

max_neg : (n : ℕ) → max_f (negsuc n) (pos 0) ≡ pos 0
max_neg n = ground arith

pub round_down_pos : (n : ℕ) → round_down (pos n) ≡ pos (n / 10_000 * 10_000)
unfolding round_down mul_ℤ div_ℤ floor_ℤ
round_down_pos n = rw (max_pos n) (ap pos (omega arith))

round_down_neg : (n : ℕ) → round_down (negsuc n) ≡ pos 0
unfolding round_down mul_ℤ div_ℤ floor_ℤ
round_down_neg n = rw (max_neg n)

pub round_down-IsRounded : (x : ℤ) → IsRounded x (round_down x)
round_down-IsRounded (pos n) = rw (round_down_pos n) (record {
  whole = (omega arith, refl);
  nonneg = omega arith;
  within = rw (max_pos n) (omega arith);
})
round_down-IsRounded (negsuc n) =
    rw (round_down_neg n)
      (record { whole = (refl, refl); nonneg = omega arith; within = rw (max_neg n) (omega arith) })

min_right : (x y : ℤ) → max_f (min_f x y) (pos 0) ≤ℤ max_f y (pos 0)
min_right x y = ground arith

min_left : (x y : ℤ) → max_f (min_f x y) (pos 0) ≤ℤ max_f x (pos 0)
min_left x y = ground arith

risk_capped-below :
    (settings : RiskSettings ℤ) (stop : Option ℤ) (price total q : ℤ)
    → max_f (risk_capped settings stop price total q) (pos 0) ≤ℤ max_f q (pos 0)
unfolding risk_capped
risk_capped-below settings none price total q = omega arith
risk_capped-below settings (some stop) price total q =
    let x = total ⊗ settings.risk_per_trade_pct ⊘ (price ⊖ stop) in
    elim (Bool-cases (zero_f <? settings.risk_per_trade_pct && stop <? price)) [
      | inl b ↦ rw (b, risk_capped) (min_left q x)
      | inr b ↦ rw (b, risk_capped) (omega arith)
    ]

pub ≤ℤ_trans : (x y z : ℤ) → x ≤ℤ y → y ≤ℤ z → x ≤ℤ z
≤ℤ_trans x y z h k = omega arith

module _ (costs : Option (CostModel ℤ)) (factor price cash q : ℤ) where
  cash_capped-below : max_f (cash_capped costs factor price cash q) (pos 0) ≤ℤ max_f q (pos 0)
  unfolding cash_capped
  cash_capped-below =
      let fill = fill_price costs factor price in
      min_left q (if zero_f <? fill then affordable costs cash ⊘ fill else zero_f)

  cash_capped-affordable :
      (zero_f <? fill_price costs factor price) ≡ true
      → max_f (cash_capped costs factor price cash q) (pos 0)
        ≤ℤ max_f (affordable costs cash ⊘ fill_price costs factor price) (pos 0)
  unfolding cash_capped
  cash_capped-affordable known =
      rw known (min_right q (affordable costs cash ⊘ fill_price costs factor price))

module _ (settings : RiskSettings ℤ) (signal : TradeSignal ℤ) (s : PortfolioState ℤ)
    (current : Option ℤ) (factor : ℤ) (costs : Option (CostModel ℤ)) (cap : Option ℤ) where
  abbrev pub planned : ℤ
  planned = buy_quantity settings signal s current factor costs cap

  abbrev price : ℤ
  price = sizing_price current signal.stop_loss

  -- the quantity before the clamp on the cash, and before it is rounded
  abbrev uncapped : ℤ
  uncapped =
      risk_capped settings signal.stop_loss price (total_value s)
        (headroom settings signal s ⊘ price)

  abbrev capped : ℤ
  capped = cash_capped costs factor price (spendable s.cash cap) uncapped

  planned-IsRounded : IsRounded capped planned
  unfolding buy_quantity
  planned-IsRounded = round_down-IsRounded capped

  fits_headroom : planned ≤ℤ max_f (headroom settings signal s ⊘ price) (pos 0)
  fits_headroom =
      let bound = max_f (headroom settings signal s ⊘ price) (pos 0) in
      ≤ℤ_trans planned (max_f capped (pos 0)) bound planned-IsRounded.within (
        ≤ℤ_trans (max_f capped (pos 0)) (max_f uncapped (pos 0)) bound
          (cash_capped-below costs factor price (spendable s.cash cap) uncapped)
          (risk_capped-below settings signal.stop_loss price (total_value s)
            (headroom settings signal s ⊘ price)))

  pub fits_cash :
      (zero_f <? fill_price costs factor price) ≡ true
      → planned
        ≤ℤ max_f (affordable costs (spendable s.cash cap) ⊘ fill_price costs factor price) (pos 0)
  fits_cash known =
      ≤ℤ_trans planned (max_f capped (pos 0))
        (max_f (affordable costs (spendable s.cash cap) ⊘ fill_price costs factor price) (pos 0))
        planned-IsRounded.within
        (cash_capped-affordable costs factor price (spendable s.cash cap) uncapped known)

  pub calculate_quantity-buy :
      signal.action ≡ Action.buy
      → calculate_quantity settings signal s current factor costs cap ≡ planned
  unfolding calculate_quantity quantity_for
  calculate_quantity-buy buy =
      ap
        (λ (a : Action).
          quantity_for a planned (held_quantity s signal.symbol)
            (other_quantity settings signal s current))
        buy

  -- The quantity of a BUY is a whole number of steps of 10^-8, not negative, and no more than the
  -- headroom under the position cap buys at the sizing price.
  pub calculate_quantity-IsWhole :
      signal.action ≡ Action.buy
      → let q = calculate_quantity settings signal s current factor costs cap in
        IsWhole q × (pos 0 ≤ℤ q) × (q ≤ℤ max_f (headroom settings signal s ⊘ price) (pos 0))
  calculate_quantity-IsWhole buy =
      subst
        (λ (q : ℤ).
          IsWhole q × (pos 0 ≤ℤ q) × (q ≤ℤ max_f (headroom settings signal s ⊘ price) (pos 0)))
        (sym (calculate_quantity-buy buy))
        (planned-IsRounded.whole, planned-IsRounded.nonneg, fits_headroom)
