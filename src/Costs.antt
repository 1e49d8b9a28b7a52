-- ===== src/Costs.antt =====
-- src/core/costs.py: the commission schedule that fills, sizing and replay share.
pub mod Affordable
use smarty_trader.Prelude.{Bool, Option, none, some, ◌||◌, ◌&&◌, if◌then◌else◌}
use smarty_trader.Float.{Float, ◌⊕◌, ◌⊖◌, ◌⊗◌, ◌⊘◌, ◌<?◌, ◌≤?◌, zero_f, one_f, max_f}

pub record CostModel (F : Type 0) : Type 0 where
  pub slippage_pct : F
  pub fee_pct : F
  pub min_commission : F
  pub fx_fee_pct : F

module _ {F : Type 0} ⦃d : Float F⦄ where
  -- `CostModel(...)` for numbers: a negative one raises `ValueError`, which is `none`.
  unfoldable pub cost_model : F → F → F → F → Option (CostModel F)
  cost_model slippage fee minimum fx =
      if slippage <? zero_f || fee <? zero_f || minimum <? zero_f || fx <? zero_f
      then none
      else some (record {
        slippage_pct = slippage;
        fee_pct = fee;
        min_commission = minimum;
        fx_fee_pct = fx;
      })

  unfoldable pub commission : CostModel F → F → F
  commission m notional =
      let pct = notional ⊗ m.fee_pct in
      if notional ≤? zero_f
      then zero_f
      else if zero_f <? m.min_commission
      then max_f pct m.min_commission
      else pct

  unfoldable pub total_fee : CostModel F → F → F
  total_fee m notional =
      if notional ≤? zero_f then zero_f else commission m notional ⊕ notional ⊗ m.fx_fee_pct

  unfoldable pub buy_cost_factor : CostModel F → F
  buy_cost_factor m = (one_f ⊕ m.slippage_pct) ⊗ (one_f ⊕ m.fee_pct ⊕ m.fx_fee_pct)

  unfoldable pub max_affordable_fill_notional : CostModel F → F → F
  max_affordable_fill_notional m cash =
      let combined = m.fee_pct ⊕ m.fx_fee_pct in
      let above_floor = cash ⊘ (one_f ⊕ combined) in
      let floor_regime = max_f (cash ⊖ m.min_commission) zero_f ⊘ (one_f ⊕ m.fx_fee_pct) in
      if cash ≤? zero_f
      then zero_f
      else if m.min_commission ≤? zero_f
      then above_floor
      else if zero_f <? m.fee_pct && m.min_commission ≤? above_floor ⊗ m.fee_pct
      then above_floor
      else floor_regime

-- An executor's cost attributes; `none` is one that is missing or no number.
pub record Attributes (F : Type 0) : Type 0 where
  pub slippage_pct : Option F
  pub fee_pct : Option F
  pub min_commission : Option F
  pub fx_fee_pct : Option F

module _ {F : Type 0} ⦃d : Float F⦄ where
  abbrev or_zero : Option F → F
  or_zero none = zero_f
  or_zero (some x) = x

  -- `CostModel.from_attrs`
  unfoldable pub from_attrs : Attributes F → Option (CostModel F)
  unfolding cost_model
  from_attrs a =
      cost_model (or_zero a.slippage_pct) (or_zero a.fee_pct) (or_zero a.min_commission)
        (or_zero a.fx_fee_pct)
