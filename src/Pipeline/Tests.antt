-- ===== src/Pipeline/Tests.antt =====
-- Cycles over a paper account: one whose stop is breached, and one that asks about an entry.
use smarty_trader.Prelude.{is_some, ◌≡◌, refl, String, none, some, [], ◌∷◌, map, true, false, any}
use smarty_trader.Prelude.Int.{ℤ, pos, ◌+ℤ◌, ◌-ℤ◌, mul_ℤ, div_ℤ}
use smarty_trader.Float.{fixed}
use smarty_trader.Models.{
  Action, TradeSignal, PortfolioState, Position, PositionSide, EventImportance, Ohlcv, RiskVerdict,
  total_value, market_value, direction,
}
use smarty_trader.Tracker.{empty_tracker}
use smarty_trader.Risk.{RiskSettings, long_exposure}
use smarty_trader.Risk.Trackers.{
  RiskEngine, daily_pnl_pct, update_latest_value, reset_if_new_day, note_equity, in_cooldown,
  day_of,
}
use smarty_trader.Risk.Checks.{
  evaluate, evaluate_action, evaluate_entry, first_rejected, check_confidence, check_max_positions,
  check_position_size, check_planned, check_daily_loss, daily_verdict, check_drawdown, check_peak,
  peak_or, check_cooldown, check_stop_loss, check_stop, check_geometry, target_missed,
}
use smarty_trader.Risk.Rules.{EntryAllowed}
use smarty_trader.Paper.{PaperExecutor, place_order, update_price}
use smarty_trader.Sizing.{exit_level_breach, closing_side}
use smarty_trader.Pipeline.{Venue, Answers, Setup, Cycle, mark_positions, is_order_working}
use smarty_trader.Pipeline.Decide.{gate, backstop_verdict, guard_verdict, notional}
use smarty_trader.Pipeline.Run.{run_cycle}
use smarty_trader.Pipeline.Ordered.{IsHeld, run_cycle-Orderly}
use smarty_trader.Pipeline.Orderly.{Orderly}
use smarty_trader.Pipeline.Exiting.{is_breached, Closes, run_cycle-Closes}
use smarty_trader.Pipeline.CloseAll.{close_all_positions, Reduces, close_all_positions-Reduces}
use smarty_trader.Pipeline.Gated.{gate-EntryAllowed}

abbrev paper_venue : Venue ℤ (PaperExecutor ℤ)
paper_venue = record {
  positions = λ ex. some (map (λ (x : String × Position ℤ). x.1) ex.positions);
  portfolio = λ ex. some (record {
    cash = ex.cash;
    positions = map (λ (x : String × Position ℤ). x.1) ex.positions;
    pending_value = pos 0;
  });
  place_order = λ r ex. place_order r "a" 1 ex;
  update_price = update_price;
  sizing_costs = λ ex. record {
    slippage_pct = ex.slippage_pct;
    fee_pct = ex.fee_pct;
    min_commission = ex.min_commission;
    fx_fee_pct = ex.fx_fee_pct;
  };
  working_order_sides = λ symbol ex. [];
}

abbrev long_btc : Position ℤ
long_btc = record {
  symbol = "BTC";
  quantity = pos 1_000_000_000_000;
  avg_entry_price = pos 100_000_000_000_000;
  current_price = pos 100_000_000_000_000;
  side = PositionSide.long;
  stop_loss = some (pos 95_000_000_000_000);
  take_profit = none;
}

abbrev account : PaperExecutor ℤ
account = record {
  cash = pos 1_000_000_000_000_000;
  slippage_pct = pos 1_000_000_000;
  fee_pct = pos 1_000_000_000;
  min_commission = pos 0;
  fx_fee_pct = pos 0;
  positions = ("BTC", long_btc) ∷ [];
  tracker = empty_tracker;
  orders = [];
}

abbrev cycle_settings : RiskSettings ℤ
cycle_settings = record {
  max_position_pct = pos 100_000_000_000;
  daily_loss_limit_pct = pos 30_000_000_000;
  max_drawdown_pct = pos 100_000_000_000;
  consecutive_losses_cooldown_minutes = 240;
  consecutive_losses_threshold = 3;
  max_open_positions = 3;
  min_confidence = pos 600_000_000_000;
  max_stop_distance_pct = pos 100_000_000_000;
  risk_per_trade_pct = pos 0;
  enforce_exit_levels = true;
  event_guard_enabled = false;
  event_blackout_before_minutes = 60;
  event_blackout_after_minutes = 30;
  event_guard_min_importance = EventImportance.high;
  earnings_blackout_days_before = 1;
  earnings_blackout_hours_after = 12;
  delisting_blackout_days = 30;
}

abbrev engine : RiskEngine ℤ
engine = record {
  settings = cycle_settings;
  daily = record { start_of_day_value = none; current_date = none; latest_value = none };
  losses = record { consecutive_losses = 0; cooldown_until = none };
  peak_equity = none;
}

abbrev setup : Setup ℤ
setup = record { own = 0; strategy = none; decide_on_new_bar_only = false; sleeves = none }

abbrev cycle : Cycle ℤ (PaperExecutor ℤ)
cycle = record { engines = λ i. engine; venue = account; last_decision_at = []; log = [] }

abbrev bar_at : ℤ → Ohlcv ℤ
bar_at close = record {
  timestamp = some 0;
  open_price = close;
  high = close;
  low = close;
  close = close;
  volume = pos 1;
}

abbrev entry_signal : String → TradeSignal ℤ
entry_signal symbol = record {
  symbol = symbol;
  action = Action.buy;
  confidence = pos 700_000_000_000;
  reasoning = "";
  stop_loss = some (pos 95_000_000_000_000);
  take_profit = none;
  timestamp = 0;
  is_fallback = false;
}

abbrev answers_at : ℤ → Answers ℤ
answers_at close = record {
  snapshot = some (record { candles = bar_at close ∷ []; fetched_at = 7 });
  ownership = some none;
  sleeve_portfolio = none;
  indicators_computed = true;
  stored_decision_at = none;
  context = none;
  signal = entry_signal "ETH";
  decision_id = some 9;
  gate_now = 100;
  cooldown_now = 101;
  outcome_now = 102;
}

run_cycle-Orderly_example :
    let answers = answers_at (pos 90_000_000_000_000) in
    Orderly setup paper_venue answers "BTC" []
      (IsHeld paper_venue answers "BTC" cycle)
      (run_cycle setup paper_venue answers "BTC" (some 5) cycle)
run_cycle-Orderly_example =
    run_cycle-Orderly "BTC" setup paper_venue (answers_at (pos 90_000_000_000_000)) (some 5) cycle

-- The close of 90.0 is below the stop at 95.0.
abbrev stop_bar : Ohlcv ℤ
stop_bar = bar_at (pos 90_000_000_000_000)

abbrev marked_btc : Position ℤ
marked_btc = record long_btc { current_price = pos 90_000_000_000_000 }

marks_are_read :
    paper_venue.positions (mark_positions paper_venue "BTC" stop_bar cycle).venue
    ≡ some (marked_btc ∷ [])
unfolding mark_positions update_price
marks_are_read = refl

stop_is_breached : any (is_breached "BTC" (pos 90_000_000_000_000)) (marked_btc ∷ []) ≡ true
unfolding exit_level_breach
stop_is_breached = refl

levels_are_enforced :
    ((mark_positions paper_venue "BTC" stop_bar cycle).engines 0).settings.enforce_exit_levels
    ≡ true
unfolding mark_positions
levels_are_enforced = refl

none_working :
    (side : PositionSide)
    → is_order_working paper_venue "BTC"
        (closing_side side)
        (mark_positions paper_venue "BTC" stop_bar cycle)
      ≡ false
unfolding is_order_working
none_working side = refl

run_cycle-Closes_example :
    Closes setup paper_venue
      (answers_at (pos 90_000_000_000_000))
      "BTC"
      (some 5)
      cycle
      stop_bar
      (marked_btc ∷ [])
      (run_cycle setup paper_venue (answers_at (pos 90_000_000_000_000)) "BTC" (some 5) cycle)
run_cycle-Closes_example =
    run_cycle-Closes setup paper_venue (answers_at (pos 90_000_000_000_000)) "BTC" (some 5) cycle
      stop_bar (record { candles = stop_bar ∷ []; fetched_at = 7 }) (marked_btc ∷ []) refl refl
      levels_are_enforced refl marks_are_read stop_is_breached none_working

abbrev plain_book : PortfolioState ℤ
plain_book = record { cash = pos 1_000_000_000_000_000; positions = []; pending_value = pos 0 }

gate_passes :
    (gate setup
      (answers_at (pos 100_000_000_000_000))
      (entry_signal "ETH")
      (pos 100_000_000_000_000)
      (some (pos 500_000_000_000))
      plain_book
      plain_book
      cycle).0.verdict
    ≡ RiskVerdict.approved
unfolding gate backstop_verdict guard_verdict evaluate evaluate_action evaluate_entry first_rejected
    check_confidence check_max_positions check_position_size check_planned check_daily_loss
    daily_verdict check_drawdown check_peak peak_or check_cooldown check_stop_loss check_stop
    check_geometry target_missed total_value long_exposure market_value direction daily_pnl_pct
    update_latest_value reset_if_new_day note_equity in_cooldown day_of ◌+ℤ◌ ◌-ℤ◌ mul_ℤ div_ℤ
gate_passes = refl

gate-EntryAllowed_example :
    EntryAllowed 100 101
      (entry_signal "ETH")
      plain_book
      (notional (pos 100_000_000_000_000) (some (pos 500_000_000_000)))
      (some (pos 100_000_000_000_000))
      engine
gate-EntryAllowed_example =
    gate-EntryAllowed setup (answers_at (pos 100_000_000_000_000)) (entry_signal "ETH")
      (pos 100_000_000_000_000) (some (pos 500_000_000_000)) plain_book plain_book cycle refl
      gate_passes

close_all_positions-Reduces_example :
    let out = close_all_positions setup paper_venue [] 7 cycle in
    Reduces paper_venue (is_some out.0) (long_btc ∷ []) cycle out.1
close_all_positions-Reduces_example =
    close_all_positions-Reduces paper_venue setup [] 7 (long_btc ∷ []) cycle refl
