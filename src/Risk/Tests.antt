-- ===== src/Risk/Tests.antt =====
-- A gate with the settings of the sample configuration, and an account of 1000.0 in cash.
use smarty_trader.Prelude.{
  All, ℕ, ◌≡◌, refl, ◌↔◌, Option, none, some, List, [], ◌∷◌, arith, true, false,
}
use smarty_trader.Prelude.Int.{ℤ, pos, ◌-ℤ◌, ◌+ℤ◌, mul_ℤ, div_ℤ}
use smarty_trader.Float.{fixed, fixed-IsOrdered, ◌<?◌, ◌≤?◌, zero_f}
use smarty_trader.Models.{
  PositionSide, Action, TradeSignal, PortfolioState, RiskVerdict, EventImportance, EventKind,
  MarketEvent, SymbolContext, total_value, market_value, direction,
}
use smarty_trader.Risk.{RiskSettings, approve, long_exposure}
use smarty_trader.Risk.Trackers.{
  RiskEngine, new_engine, note_equity, daily_pnl_pct, update_latest_value, reset_if_new_day,
  in_cooldown, day_of,
}
use smarty_trader.Risk.Checks.{
  evaluate, evaluate_action, evaluate_entry, first_rejected, check_confidence, check_max_positions,
  check_position_size, check_planned, check_daily_loss, daily_verdict, check_drawdown, check_peak,
  peak_or, check_cooldown, check_stop_loss, check_stop, check_geometry, target_missed,
}
use smarty_trader.Risk.Events.{check_event_guard}
use smarty_trader.Risk.Rules.{EntryAllowed}
use smarty_trader.Risk.Gate.{evaluate_iff}
use smarty_trader.Risk.Holding.{HoldsLong, IsValued, evaluate_sell-HoldsLong}
use smarty_trader.Risk.Peak.{Call, after_calls, IsMark, Risen, after_calls_rise}
use smarty_trader.Risk.Streak.{Closed, after_trades, run_length, armed_until, after_trades-streak}
use smarty_trader.Risk.Blackout.{IsClear, check_event_guard_iff}

abbrev sample_settings : RiskSettings ℤ
sample_settings = record {
  max_position_pct = pos 100_000_000_000;
  daily_loss_limit_pct = pos 30_000_000_000;
  max_drawdown_pct = pos 100_000_000_000;
  consecutive_losses_cooldown_minutes = 240;
  consecutive_losses_threshold = 3;
  max_open_positions = 3;
  min_confidence = pos 600_000_000_000;
  max_stop_distance_pct = pos 100_000_000_000;
  risk_per_trade_pct = pos 10_000_000_000;
  enforce_exit_levels = true;
  event_guard_enabled = true;
  event_blackout_before_minutes = 60;
  event_blackout_after_minutes = 30;
  event_guard_min_importance = EventImportance.high;
  earnings_blackout_days_before = 1;
  earnings_blackout_hours_after = 12;
  delisting_blackout_days = 30;
}

abbrev fresh_engine : RiskEngine ℤ
fresh_engine = record {
  settings = sample_settings;
  daily = record { start_of_day_value = none; current_date = none; latest_value = none };
  losses = record { consecutive_losses = 0; cooldown_until = none };
  peak_equity = none;
}

fresh_is_new : new_engine sample_settings ≡ fresh_engine
unfolding new_engine
fresh_is_new = refl

abbrev signal_of : Action → TradeSignal ℤ
signal_of action = record {
  symbol = "BTC";
  action = action;
  confidence = pos 700_000_000_000;
  reasoning = "";
  stop_loss = some (pos 95_000_000_000_000);
  take_profit = some (pos 120_000_000_000_000);
  timestamp = 0;
  is_fallback = false;
}

abbrev in_cash : PortfolioState ℤ
in_cash = record { cash = pos 1_000_000_000_000_000; positions = []; pending_value = pos 0 }

abbrev entry_price : Option ℤ
entry_price = some (pos 100_000_000_000_000)

abbrev planned_value : Option ℤ
planned_value = some (pos 90_000_000_000_000)

evaluate_iff_example :
    ((evaluate 100 101
        (signal_of Action.buy)
        in_cash
        planned_value
        entry_price
        fresh_engine).0.verdict
      ≡ RiskVerdict.approved)
    ↔ EntryAllowed 100 101 (signal_of Action.buy) in_cash planned_value entry_price fresh_engine
evaluate_iff_example =
    evaluate_iff 100 101 (signal_of Action.buy) in_cash planned_value entry_price fresh_engine refl

entry_is_approved :
    (evaluate 100 101 (signal_of Action.buy) in_cash planned_value entry_price fresh_engine).0
    ≡ approve
unfolding evaluate evaluate_action evaluate_entry first_rejected check_confidence
    check_max_positions check_position_size check_planned check_daily_loss daily_verdict
    check_drawdown check_peak peak_or check_cooldown check_stop_loss check_stop check_geometry
    target_missed total_value long_exposure market_value direction daily_pnl_pct update_latest_value
    reset_if_new_day note_equity in_cooldown day_of ◌+ℤ◌ ◌-ℤ◌ mul_ℤ div_ℤ
entry_is_approved = refl

-- 2.0 of the symbol at 100.0, and a short of another one
abbrev holding : PortfolioState ℤ
holding = record in_cash {
  positions =
      record {
        symbol = "BTC";
        quantity = pos 2_000_000_000_000;
        avg_entry_price = pos 90_000_000_000_000;
        current_price = pos 100_000_000_000_000;
        side = PositionSide.long;
        stop_loss = none;
        take_profit = none;
      }
      ∷ record {
        symbol = "ETH";
        quantity = pos 1_000_000_000_000;
        avg_entry_price = pos 9_000_000_000_000;
        current_price = pos 10_000_000_000_000;
        side = PositionSide.short;
        stop_loss = none;
        take_profit = none;
      }
      ∷ [];
}

holding-IsValued : All IsValued holding.positions
unfolding mul_ℤ
holding-IsValued = (refl, (refl, tt))

evaluate_sell-HoldsLong_example :
    (((evaluate 100 101 (signal_of Action.sell) holding none none fresh_engine).0.verdict
        ≡ RiskVerdict.approved)
      ↔ (HoldsLong "BTC" holding.positions
          × ((pos 700_000_000_000 <? pos 600_000_000_000) ≡ false)))
    × ((evaluate 100 101 (signal_of Action.sell) holding none none fresh_engine).1 ≡ fresh_engine)
evaluate_sell-HoldsLong_example =
    evaluate_sell-HoldsLong 100 101 (signal_of Action.sell) holding none none fresh_engine refl
      holding-IsValued

in_cash_solvent : (total_value in_cash ≤? zero_f) ≡ false
unfolding total_value ◌+ℤ◌
in_cash_solvent = refl

abbrev marked_engine : RiskEngine ℤ
marked_engine = record fresh_engine { peak_equity = some (pos 900_000_000_000_000) }

abbrev some_calls : List (Call ℤ)
some_calls =
    Call.gate 100 101 (signal_of Action.buy) in_cash none none
    ∷ Call.breaker (pos 500_000_000_000_000) (pos 200_000_000_000)
    ∷ Call.outcome 102 false
    ∷ Call.seed (some (pos 7))
    ∷ []

after_calls_rise_example :
    IsMark (after_calls some_calls marked_engine).peak_equity
    × Risen (some (pos 900_000_000_000_000)) (after_calls some_calls marked_engine).peak_equity
after_calls_rise_example = after_calls_rise fixed-IsOrdered some_calls marked_engine refl

-- three losses after a profit, the last first
abbrev trades : List Closed
trades =
    record { recorded_at = 40; profitable = false }
    ∷ record { recorded_at = 30; profitable = false }
    ∷ record { recorded_at = 20; profitable = false }
    ∷ record { recorded_at = 10; profitable = true }
    ∷ []

after_trades-streak_example :
    (after_trades fresh_engine trades).losses
    ≡ record { consecutive_losses = run_length trades; cooldown_until = armed_until 3 240 trades }
after_trades-streak_example = after_trades-streak fresh_engine trades refl (omega arith)

three_losses_pause : armed_until 3 240 trades ≡ some 14_400_000_040
unfolding armed_until run_length
three_losses_pause = refl

abbrev rate_decision : MarketEvent
rate_decision = record {
  kind = EventKind.macro;
  at_time = 1_000_000_000_000;
  title = "rates";
  asset = none;
  currency = some "USD";
  importance = EventImportance.high;
}

abbrev context_at : ℕ → SymbolContext
context_at now = record {
  symbol = "BTC";
  now = now;
  events = rate_decision ∷ [];
  notices = [];
  entry_blackout = none;
}

check_event_guard_iff_example :
    (check_event_guard sample_settings
        (signal_of Action.buy)
        (some (context_at 1_000_000_000_001))
        false
      ≡ approve)
    ↔ IsClear sample_settings (context_at 1_000_000_000_001)
check_event_guard_iff_example =
    check_event_guard_iff sample_settings (signal_of Action.buy) (context_at 1_000_000_000_001) refl
      refl
