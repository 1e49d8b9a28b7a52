-- ===== src/Rehydration/Tests.antt =====
-- A restart after two losses, and the theorem there.
use Prim.Native.Nat.{min}
use mathlib.Core.Option.{map as map_option}
use smarty_trader.Prelude.{false, ℕ, ◌≡◌, refl, String, none, some, List, [], ◌∷◌, arith, true}
use smarty_trader.Prelude.Int.{ℤ, pos, negsuc}
use smarty_trader.Float.{fixed, fixed-IsOrdered}
use smarty_trader.Models.{EventImportance}
use smarty_trader.Tracker.Booking.{FillSide}
use smarty_trader.Risk.{RiskSettings}
use smarty_trader.Risk.Trackers.{RiskEngine, new_engine, restore_loss_streak, restore}
use smarty_trader.Risk.Streak.{Closed, after_trades}
use smarty_trader.Rehydration.{
  StoredOrder, outcome_of, trailing_losses, rehydrate_loss_streak, is_paper_order,
}
use smarty_trader.Rehydration.Streak.{moved, rehydrate_loss_streak-restored}

abbrev sample_settings : RiskSettings ℤ
sample_settings = record {
  max_position_pct = pos 100_000_000_000;
  daily_loss_limit_pct = pos 30_000_000_000;
  max_drawdown_pct = pos 100_000_000_000;
  consecutive_losses_cooldown_minutes = 240;
  consecutive_losses_threshold = 3;
  max_open_positions = 3;
  min_confidence = pos 600_000_000_000;
  max_stop_distance_pct = pos 100_000_000_000;
  risk_per_trade_pct = pos 10_000_000_000;
  enforce_exit_levels = true;
  event_guard_enabled = true;
  event_blackout_before_minutes = 60;
  event_blackout_after_minutes = 30;
  event_guard_min_importance = EventImportance.high;
  earnings_blackout_days_before = 1;
  earnings_blackout_hours_after = 12;
  delisting_blackout_days = 30;
}

paper_id : is_paper_order "paper-17" ≡ true
unfolding is_paper_order
paper_id = refl

abbrev closing : String → ℤ → ℕ → StoredOrder ℤ
closing order_id pnl at = record {
  order_id = order_id;
  symbol = "BTC/EUR";
  side = FillSide.sell;
  quantity = fixed.of_ℕ 1;
  price = some (fixed.of_ℕ 10);
  decision_id = none;
  fee_base = none;
  fee_quote = none;
  realized_pnl = pnl;
  filled_at = some at;
  created_at = none;
}

abbrev rows : List (StoredOrder ℤ)
rows = closing "c" (negsuc 4) 900 ∷ closing "b" (negsuc 4) 800 ∷ closing "a" (pos 4) 700 ∷ []

abbrev engine : RiskEngine ℤ
engine = new_engine sample_settings

two_losses : (rehydrate_loss_streak (some rows) engine).losses.consecutive_losses ≡ 2
unfolding rehydrate_loss_streak trailing_losses outcome_of restore_loss_streak restore new_engine
two_losses = refl

abbrev losing : List (StoredOrder ℤ)
losing = closing "c" (negsuc 4) 900 ∷ closing "b" (negsuc 4) 800 ∷ closing "a" (negsuc 4) 700 ∷ []

-- as the agent recorded them: the venue's times of the fills are earlier
abbrev recorded : List Closed
recorded =
    record { recorded_at = 950; profitable = false }
    ∷ record { recorded_at = 810; profitable = false }
    ∷ record { recorded_at = 700; profitable = false }
    ∷ []

rehydrate_loss_streak-restored_example :
    let before = (after_trades engine recorded).losses in
    let restarted = (rehydrate_loss_streak (some losing) engine).losses in
    (restarted.consecutive_losses ≡ min 50 before.consecutive_losses)
    × (restarted.cooldown_until ≡ map_option (moved recorded losing) before.cooldown_until)
unfolding outcome_of new_engine
rehydrate_loss_streak-restored_example =
    rehydrate_loss_streak-restored fixed-IsOrdered losing recorded engine (refl, (refl, (refl, tt)))
      ((refl, refl, refl), ((refl, refl, refl), ((refl, refl, refl), tt))) refl (omega arith)
      (omega arith)
