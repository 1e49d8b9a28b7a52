-- ===== src/Risk.antt =====
-- src/core/risk_engine.py: the deterministic gate before every order. An operation of the engine
-- gives the engine after it. Times are arguments: each is what `clock.now()` answers at that call.
-- The settings are the fields of `RiskSettings` (src/core/config.py) that the engine reads.
pub mod Trackers
pub mod Checks
pub mod Events
pub mod Rules
pub mod Gate
pub mod Holding
pub mod Peak
pub mod Streak
pub mod Blackout
mod Tests
use smarty_trader.Prelude.{
  ℕ, Bool, String, Option, none, some, List, map, ◌&&◌, ◌==◌, string_eq, select, if◌then◌else◌,
}
use smarty_trader.Float.{Float, ◌⊗◌, sum_f}
use smarty_trader.Models.{
  EventImportance, Position, PositionSide, PortfolioState, RiskVerdict, RiskResult, Reason,
}

pub record RiskSettings (F : Type 0) : Type 0 where
  pub max_position_pct : F
  pub daily_loss_limit_pct : F
  pub max_drawdown_pct : F
  pub consecutive_losses_cooldown_minutes : ℕ
  pub consecutive_losses_threshold : ℕ
  pub max_open_positions : ℕ
  pub min_confidence : F
  pub max_stop_distance_pct : F
  pub risk_per_trade_pct : F
  pub enforce_exit_levels : Bool
  pub event_guard_enabled : Bool
  pub event_blackout_before_minutes : ℕ
  pub event_blackout_after_minutes : ℕ
  pub event_guard_min_importance : EventImportance
  pub earnings_blackout_days_before : ℕ
  pub earnings_blackout_hours_after : ℕ
  pub delisting_blackout_days : ℕ

abbrev pub approve : RiskResult
approve = record { verdict = RiskVerdict.approved; reason = none }

abbrev pub reject : Reason → RiskResult
reject why = record { verdict = RiskVerdict.rejected; reason = some why }

abbrev pub is_rejected : RiskVerdict → Bool
is_rejected RiskVerdict.approved = Bool.false
is_rejected RiskVerdict.rejected = Bool.true

abbrev pub is_long : PositionSide → Bool
is_long PositionSide.long = Bool.true
is_long PositionSide.short = Bool.false

module _ {F : Type 0} ⦃d : Float F⦄ where
  abbrev pub held_long : String → Position F → Bool
  held_long symbol p = p.symbol == symbol && is_long p.side

  unfoldable pub long_exposure : PortfolioState F → String → F
  long_exposure s symbol = sum_f (
      map (λ (p : Position F). p.quantity ⊗ p.current_price)
        (select (held_long symbol) s.positions))
