-- ===== src/Sizing/Tests.antt =====
-- An entry at 100.0 out of 1000.0 in cash, with costs of 0.1 % each for slippage and fee.
use smarty_trader.Prelude.{◌≡◌, refl, none, some, [], ◌∷◌, arith, true, false}
use smarty_trader.Prelude.Int.{ℤ, pos, ◌+ℤ◌, ◌-ℤ◌, ◌≤ℤ◌, ◌<ℤ◌, mul_ℤ, div_ℤ, floor_ℤ}
use smarty_trader.Float.{
  fixed, ◌⊕◌, ◌⊗◌, ◌⊘◌, one_f, max_f, NanOr, nan_fixed-IsOrdered, nan_fixed-PropagatesNan,
  nan_fixed,
}
use smarty_trader.Models.{
  Action, TradeSignal, PortfolioState, OrderSide, EventImportance, total_value, market_value,
  direction, Position, PositionSide,
}
use smarty_trader.Costs.{CostModel, cost_model, total_fee, commission, max_affordable_fill_notional}
use smarty_trader.Costs.Affordable.{costs, max_affordable-fits}
use smarty_trader.Risk.{RiskSettings, long_exposure, approve}
use smarty_trader.Risk.Checks.{check_stop_loss}
use smarty_trader.Sizing.Nan.{check_stop_loss-nan}
use smarty_trader.Sizing.{exit_level_breach}
use smarty_trader.Tracker.{empty_tracker, on_buy, add_lot}
use smarty_trader.Tracker.Whole.{IsWhole}
use smarty_trader.Paper.{
  PaperExecutor, OrderRequest, place_order, reference_price, execute, execute_buy, settle_buy,
  log_order, bought, costs_of, fill, opened,
}
use smarty_trader.Sizing.{
  calculate_quantity, quantity_for, buy_quantity, risk_capped, cash_capped, headroom, round_down,
  signal_order, sizing_price,
}
use smarty_trader.Sizing.Whole.{calculate_quantity-IsWhole}
use smarty_trader.Sizing.Filled.{place_order-sized}

abbrev sizing_settings : RiskSettings ℤ
sizing_settings = record {
  max_position_pct = pos 100_000_000_000;
  daily_loss_limit_pct = pos 30_000_000_000;
  max_drawdown_pct = pos 100_000_000_000;
  consecutive_losses_cooldown_minutes = 240;
  consecutive_losses_threshold = 3;
  max_open_positions = 3;
  min_confidence = pos 600_000_000_000;
  max_stop_distance_pct = pos 100_000_000_000;
  risk_per_trade_pct = pos 1_000_000_000;
  enforce_exit_levels = true;
  event_guard_enabled = false;
  event_blackout_before_minutes = 60;
  event_blackout_after_minutes = 30;
  event_guard_min_importance = EventImportance.high;
  earnings_blackout_days_before = 1;
  earnings_blackout_hours_after = 12;
  delisting_blackout_days = 30;
}

abbrev buy_signal : TradeSignal ℤ
buy_signal = record {
  symbol = "BTC";
  action = Action.buy;
  confidence = pos 700_000_000_000;
  reasoning = "";
  stop_loss = some (pos 95_000_000_000_000);
  take_profit = none;
  timestamp = 0;
  is_fallback = false;
}

abbrev cash_only : PortfolioState ℤ
cash_only = record { cash = pos 1_000_000_000_000_000; positions = []; pending_value = pos 0 }

abbrev entry_price : ℤ
entry_price = pos 100_000_000_000_000

abbrev paper_costs : CostModel ℤ
paper_costs = costs 1_000_000_000 1_000_000_000 0 0

-- 0.1 % of 1000.0 over a stop distance of 5.0
sized_by_risk :
    calculate_quantity sizing_settings buy_signal cash_only
      (some entry_price)
      one_f
      (some paper_costs)
      none
    ≡ pos 200_000_000_000
unfolding calculate_quantity quantity_for buy_quantity risk_capped cash_capped headroom round_down
    total_value long_exposure market_value direction max_affordable_fill_notional mul_ℤ div_ℤ
    floor_ℤ ◌+ℤ◌ ◌-ℤ◌
sized_by_risk = refl

calculate_quantity-IsWhole_example :
    let q =
      calculate_quantity sizing_settings buy_signal cash_only
        (some entry_price)
        one_f
        (some paper_costs)
        none in
    IsWhole q
    × (pos 0 ≤ℤ q)
    × (q
        ≤ℤ max_f
            (headroom sizing_settings buy_signal cash_only
              ⊘ sizing_price (some entry_price) (some (pos 95_000_000_000_000)))
            (pos 0))
calculate_quantity-IsWhole_example =
    calculate_quantity-IsWhole sizing_settings buy_signal cash_only (some entry_price) one_f
      (some paper_costs) none refl

affordable_990 :
    pos 990_000_000_000
    ≤ℤ max_affordable_fill_notional (costs 0 1_000_000_000 5_000_000_000 0) (pos 1_000_000_000_000)
unfolding max_affordable_fill_notional mul_ℤ div_ℤ ◌+ℤ◌ ◌-ℤ◌
affordable_990 = omega arith

max_affordable-fits_example :
    pos 990_000_000_000 ⊕ total_fee (costs 0 1_000_000_000 5_000_000_000 0) (pos 990_000_000_000)
    ≤ℤ pos 1_000_000_000_000
max_affordable-fits_example =
    max_affordable-fits 0 1_000_000_000 5_000_000_000 0 1_000_000_000_000 990_000_000_000
      (omega arith) affordable_990

abbrev paper_account : PaperExecutor ℤ
paper_account = record {
  cash = pos 1_000_000_000_000_000;
  slippage_pct = pos 1_000_000_000;
  fee_pct = pos 1_000_000_000;
  min_commission = pos 0;
  fx_fee_pct = pos 0;
  positions = [];
  tracker = empty_tracker;
  orders = [];
}

paper_account_costs : costs_of paper_account ≡ some paper_costs
unfolding costs_of cost_model
paper_account_costs = refl

sized_is_positive :
    pos 0
    <ℤ calculate_quantity sizing_settings buy_signal cash_only
        (some entry_price)
        one_f
        (some paper_costs)
        none
sized_is_positive = rw sized_by_risk (omega arith)

place_order-sized_example :
    let q =
      calculate_quantity sizing_settings buy_signal cash_only
        (some entry_price)
        one_f
        (some paper_costs)
        none in
    let order = signal_order buy_signal OrderSide.buy q entry_price (some 5) in
    (place_order order "a" 1 paper_account).0
    ≡ some (fill order "a" (entry_price ⊗ (one_f ⊕ pos 1_000_000_000)) 1)
place_order-sized_example =
    place_order-sized sizing_settings buy_signal cash_only one_f none paper_account entry_price
      (some 5) "a" 1 paper_costs paper_account_costs (omega arith) refl (omega arith) (omega arith)
      (omega arith) sized_is_positive (omega arith)

-- Without cash the quantity is 0, and the account fills that order too: it opens a position of
-- quantity 0.
abbrev spent_account : PaperExecutor ℤ
spent_account = record paper_account { cash = pos 0 }

abbrev zero_order : OrderRequest ℤ
zero_order = signal_order buy_signal OrderSide.buy (pos 0) entry_price none

zero_order_opens :
    (place_order zero_order "a" 1 spent_account).1.positions
    ≡ ("BTC", opened zero_order (entry_price ⊗ (one_f ⊕ pos 1_000_000_000))) ∷ []
unfolding place_order reference_price execute execute_buy settle_buy log_order bought costs_of
    cost_model total_fee commission on_buy add_lot mul_ℤ ◌+ℤ◌ ◌-ℤ◌
zero_order_opens = refl

abbrev nan_settings : RiskSettings NanOr
nan_settings = record {
  max_position_pct = some (pos 100_000_000_000);
  daily_loss_limit_pct = some (pos 30_000_000_000);
  max_drawdown_pct = some (pos 100_000_000_000);
  consecutive_losses_cooldown_minutes = 240;
  consecutive_losses_threshold = 3;
  max_open_positions = 3;
  min_confidence = some (pos 600_000_000_000);
  max_stop_distance_pct = some (pos 100_000_000_000);
  risk_per_trade_pct = some (pos 0);
  enforce_exit_levels = true;
  event_guard_enabled = false;
  event_blackout_before_minutes = 60;
  event_blackout_after_minutes = 30;
  event_guard_min_importance = EventImportance.high;
  earnings_blackout_days_before = 1;
  earnings_blackout_hours_after = 12;
  delisting_blackout_days = 30;
}

abbrev nan_signal : TradeSignal NanOr
nan_signal = record {
  symbol = "BTC";
  action = Action.buy;
  confidence = some (pos 700_000_000_000);
  reasoning = "";
  stop_loss = some none;
  take_profit = none;
  timestamp = 0;
  is_fallback = false;
}

abbrev nan_position : Position NanOr
nan_position = record {
  symbol = "BTC";
  quantity = some (pos 1_000_000_000_000);
  avg_entry_price = some (pos 100_000_000_000_000);
  current_price = some (pos 100_000_000_000_000);
  side = PositionSide.long;
  stop_loss = some none;
  take_profit = none;
}

check_stop_loss-nan_example :
    (check_stop_loss nan_settings nan_signal (some (some (pos 100_000_000_000_000))) ≡ approve)
    × (exit_level_breach nan_position (some (pos 1)) ≡ none)
check_stop_loss-nan_example =
    check_stop_loss-nan nan_fixed-IsOrdered nan_fixed-PropagatesNan nan_settings nan_signal none
      (some (some (pos 100_000_000_000_000))) nan_position (some (pos 1)) refl refl refl refl refl
