-- ===== src/Sizing.antt =====
-- src/core/decision_pipeline.py: the trading rules at its end, which the live pipeline and the
-- backtester share: sizing, exit levels, and the closing side. `math.floor` is taken as total: for NaN
-- and the infinities the code raises.
pub mod Whole
pub mod Paid
pub mod Filled
pub mod Nan
mod Tests
use smarty_trader.Prelude.{
  ℕ, Bool, true, false, String, Option, none, some, List, map, ◌&&◌, select, if◌then◌else◌,
}
use smarty_trader.Float.{Float, ◌⊕◌, ◌⊖◌, ◌⊗◌, ◌⊘◌, ◌<?◌, ◌≤?◌, zero_f, one_f, min_f, max_f, sum_f}
use smarty_trader.Models.{
  Action, TradeSignal, Position, PositionSide, PortfolioState, OrderSide, is_buy, total_value,
}
use smarty_trader.Costs.{
  CostModel, cost_model, from_attrs, Attributes, max_affordable_fill_notional,
}
use smarty_trader.Paper.{OrderRequest}
use smarty_trader.Risk.{RiskSettings, held_long, long_exposure}

pub data ExitReason : Type 0 where
  stop_loss take_profit time_stop : ExitReason

unfoldable pub closing_side : PositionSide → OrderSide
closing_side PositionSide.short = OrderSide.buy
closing_side PositionSide.long = OrderSide.sell

module _ {F : Type 0} ⦃d : Float F⦄ where
  -- whether the mark has run from the entry to the stop, or to the target, of a side
  abbrev pub stop_hit : PositionSide → F → F → Bool
  stop_hit PositionSide.short mark stop = stop ≤? mark
  stop_hit PositionSide.long mark stop = mark ≤? stop

  abbrev pub target_hit : PositionSide → F → F → Bool
  target_hit PositionSide.short mark target = mark ≤? target
  target_hit PositionSide.long mark target = target ≤? mark

  abbrev pub set_and : (F → Bool) → Option F → Bool
  set_and test none = false
  set_and test (some x) = test x

  unfoldable pub exit_level_breach : Position F → F → Option ExitReason
  exit_level_breach p mark =
      if set_and (stop_hit p.side mark) p.stop_loss
      then some ExitReason.stop_loss
      else if set_and (target_hit p.side mark) p.take_profit
      then some ExitReason.take_profit
      else none

  -- a cost model whose slippage takes in the price factor of a venue
  unfoldable pub with_price_factor : CostModel F → Option F → Option (CostModel F)
  unfolding cost_model
  with_price_factor m none = some m
  with_price_factor m (some factor) =
      if one_f <? factor
      then cost_model ((one_f ⊕ m.slippage_pct) ⊗ factor ⊖ one_f) m.fee_pct m.min_commission
          m.fx_fee_pct
      else some m

  unfoldable pub sizing_cost_model : Attributes F → Option F → Option (CostModel F)
  unfolding with_price_factor from_attrs
  sizing_cost_model attrs factor = elim (from_attrs attrs) [
    | none ↦ none
    | some m ↦ with_price_factor m factor
  ]

  -- the order that `run` places for an approved signal
  abbrev pub signal_order : TradeSignal F → OrderSide → F → F → Option ℕ → OrderRequest F
  signal_order signal side quantity price decision = record {
    symbol = signal.symbol;
    side = side;
    quantity = quantity;
    price = some price;
    decision_id = decision;
    stop_loss = signal.stop_loss;
    take_profit = signal.take_profit;
  }

  -- the price that a quantity is sized at
  abbrev pub stop_price : Option F → F
  stop_price none = one_f
  stop_price (some stop) = if stop ≤? zero_f then one_f else stop

  abbrev pub sizing_price : Option F → Option F → F
  sizing_price none stop = stop_price stop
  sizing_price (some price) stop = if zero_f <? price then price else stop_price stop

  -- the headroom under the position cap
  unfoldable pub headroom : RiskSettings F → TradeSignal F → PortfolioState F → F
  headroom settings signal s =
      let cap = total_value s ⊗ settings.max_position_pct in
      if is_buy signal.action then max_f zero_f (cap ⊖ long_exposure s signal.symbol) else cap

  unfoldable pub risk_capped : RiskSettings F → Option F → F → F → F → F
  risk_capped settings none price total quantity = quantity
  risk_capped settings (some stop) price total quantity =
      if zero_f <? settings.risk_per_trade_pct && stop <? price
      then min_f quantity (total ⊗ settings.risk_per_trade_pct ⊘ (price ⊖ stop))
      else quantity

  abbrev pub spendable : F → Option F → F
  spendable cash none = max_f cash zero_f
  spendable cash (some cap) = max_f (min_f cash cap) zero_f

  -- without a cost model, the factor stands for slippage and fees
  abbrev pub fill_price : Option (CostModel F) → F → F → F
  fill_price none factor price = price ⊗ max_f factor one_f
  fill_price (some m) factor price = price ⊗ (one_f ⊕ m.slippage_pct)

  abbrev pub affordable : Option (CostModel F) → F → F
  affordable none cash = cash
  affordable (some m) cash = max_affordable_fill_notional m cash

  unfoldable pub cash_capped : Option (CostModel F) → F → F → F → F → F
  cash_capped costs factor price cash quantity =
      let fill = fill_price costs factor price in
      min_f quantity (if zero_f <? fill then affordable costs cash ⊘ fill else zero_f)

  -- `math.floor(max(quantity, 0.0) * 1e8) / 1e8`
  unfoldable pub round_down : F → F
  round_down quantity = d.floor (max_f quantity zero_f ⊗ d.of_ℕ 100_000_000) ⊘ d.of_ℕ 100_000_000

  unfoldable pub held_quantity : PortfolioState F → String → F
  held_quantity s symbol =
      sum_f (map (λ (p : Position F). p.quantity) (select (held_long symbol) s.positions))

  unfoldable pub buy_quantity :
      RiskSettings F
      → TradeSignal F
      → PortfolioState F
      → Option F
      → F
      → Option (CostModel F)
      → Option F
      → F
  unfolding risk_capped cash_capped headroom round_down
  buy_quantity settings signal s current factor costs cap =
      let price = sizing_price current signal.stop_loss in
      round_down (
        cash_capped costs factor price (spendable s.cash cap) (
          risk_capped settings signal.stop_loss price (total_value s)
            (headroom settings signal s ⊘ price)))

  unfoldable pub other_quantity : RiskSettings F → TradeSignal F → PortfolioState F → Option F → F
  unfolding headroom round_down
  other_quantity settings signal s current =
      round_down (headroom settings signal s ⊘ sizing_price current signal.stop_loss)

  -- which of the quantities of an entry, of the held long, or of neither a signal takes
  unfoldable pub quantity_for : Action → F → F → F → F
  quantity_for Action.buy entry held other = entry
  quantity_for Action.sell entry held other = if zero_f <? held then held else other
  quantity_for Action.hold entry held other = other

  unfoldable pub calculate_quantity :
      RiskSettings F
      → TradeSignal F
      → PortfolioState F
      → Option F
      → F
      → Option (CostModel F)
      → Option F
      → F
  calculate_quantity settings signal s current factor costs cap =
      quantity_for signal.action (buy_quantity settings signal s current factor costs cap)
        (held_quantity s signal.symbol) (other_quantity settings signal s current)
