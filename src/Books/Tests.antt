-- ===== src/Books/Tests.antt =====
-- Two sleeves with a position each, and each theorem there.
use smarty_trader.Prelude.{
  ℕ, ◌≡◌, refl, String, Option, none, some, List, [], ◌∷◌, true, string_eq, map, All, select,
}
use smarty_trader.Prelude.Dict.{Dict}
use smarty_trader.Prelude.Keys.{NoRepeats}
use smarty_trader.Prelude.Int.{ℤ, pos, ◌+ℤ◌}
use smarty_trader.Float.{fixed, fixed-ReversesOrder, sum}
use smarty_trader.Models.{EventImportance, Position, PositionSide, PortfolioState}
use smarty_trader.Risk.{RiskSettings}
use smarty_trader.Risk.Trackers.{RiskEngine, new_engine}
use smarty_trader.Books.{
  SleevesSettings, DecisionMeta, Hooks, names, owners, owners_of, ownership, held_ownership,
  flat_ownership, load_meta, lots_owner, get, is_open,
}
use smarty_trader.Books.Owners.{AllOwned, Owned, owners-AllOwned}
use smarty_trader.Books.Equity.{Allocation, ClosingFill, equity, realized_since, record_snapshots}
use smarty_trader.Books.Sums.{capital_of, open_pnl, record_snapshots-sum}
use smarty_trader.Books.Limits.{
  RiskOverrides, AllWithin, apply_sleeve_risk, apply_sleeve_risk-AllWithin,
}

abbrev sample_settings : RiskSettings ℤ
sample_settings = record {
  max_position_pct = pos 100_000_000_000;
  daily_loss_limit_pct = pos 30_000_000_000;
  max_drawdown_pct = pos 100_000_000_000;
  consecutive_losses_cooldown_minutes = 240;
  consecutive_losses_threshold = 3;
  max_open_positions = 3;
  min_confidence = pos 600_000_000_000;
  max_stop_distance_pct = pos 100_000_000_000;
  risk_per_trade_pct = pos 10_000_000_000;
  enforce_exit_levels = true;
  event_guard_enabled = true;
  event_blackout_before_minutes = 60;
  event_blackout_after_minutes = 30;
  event_guard_min_importance = EventImportance.high;
  earnings_blackout_days_before = 1;
  earnings_blackout_hours_after = 12;
  delisting_blackout_days = 30;
}

abbrev settings : SleevesSettings ℤ
settings = record {
  default_spec = record { name = "swing"; weight = none; max_holding = none };
  others = record { name = "day"; weight = none; max_holding = some 60 } ∷ [];
}

abbrev position_of : String → ℕ → Position ℤ
position_of symbol price = record {
  symbol = symbol;
  quantity = fixed.of_ℕ 2;
  avg_entry_price = fixed.of_ℕ 10;
  current_price = fixed.of_ℕ price;
  side = PositionSide.long;
  stop_loss = none;
  take_profit = none;
}

abbrev positions : List (Position ℤ)
positions = position_of "BTC/EUR" 11 ∷ position_of "ADA/EUR" 9 ∷ []

abbrev hooks : Hooks
hooks = record {
  entry_decision_ids = λ symbol. some 7 ∷ [];
  pending_entry_decision_ids = λ symbol. [];
}

abbrev decisions : Option (Dict ℕ DecisionMeta)
decisions = some ((7, (some "day", some 1_000)) ∷ [])

owners_found :
    owners settings hooks decisions positions []
    ≡ some (("BTC/EUR", "day") ∷ ("ADA/EUR", "day") ∷ [], (7, (some "day", some 1_000)) ∷ [])
unfolding owners owners_of ownership held_ownership flat_ownership load_meta lots_owner get
owners_found = refl

owners-AllOwned_example : AllOwned settings positions (owners settings hooks decisions positions [])
owners-AllOwned_example = owners-AllOwned settings hooks decisions positions []

abbrev owned : Dict String String
owned = ("BTC/EUR", "day") ∷ ("ADA/EUR", "swing") ∷ []

abbrev allocation : Allocation ℤ
allocation = record {
  base_equity = fixed.of_ℕ 100;
  weights = ("swing", fixed.decimal 5 1) ∷ ("day", fixed.decimal 5 1) ∷ [];
  created_at = 5;
}

abbrev portfolio : PortfolioState ℤ
portfolio = record { cash = fixed.of_ℕ 60; positions = positions; pending_value = fixed.of_ℕ 0 }

abbrev fills : List (ClosingFill ℤ)
fills = record { fill_strategy = some "day"; fill_pnl = fixed.of_ℕ 3; filled_at = 6 } ∷ []

names-NoRepeats : NoRepeats (names settings)
unfolding names
names-NoRepeats = (refl, (refl, tt))

positions-Owned : All (λ (p : Position ℤ). Owned settings owned p.symbol) (select is_open positions)
unfolding names
positions-Owned = (("day", refl, refl), (("swing", refl, refl), tt))

record_snapshots-sum_example :
    sum (map equity (record_snapshots settings (some allocation) fills owned portfolio 9 []).0)
    ≡ sum (map (capital_of allocation) (names settings))
      +ℤ sum (map (realized_since fills 5) (names settings))
      +ℤ open_pnl positions
record_snapshots-sum_example =
    record_snapshots-sum settings allocation fills owned portfolio 9 [] names-NoRepeats
      positions-Owned

abbrev loose : RiskOverrides ℤ
loose = record {
  max_position_pct = none;
  daily_loss_limit_pct = none;
  max_drawdown_pct = none;
  consecutive_losses_cooldown_minutes = none;
  consecutive_losses_threshold = none;
  max_open_positions = some 9;
  min_confidence = none;
  max_stop_distance_pct = none;
  risk_per_trade_pct = none;
  event_guard_enabled = none;
  event_blackout_before_minutes = none;
  event_blackout_after_minutes = none;
  event_guard_min_importance = none;
  earnings_blackout_days_before = none;
  earnings_blackout_hours_after = none;
  delisting_blackout_days = none;
}

abbrev engines : Dict String (RiskEngine ℤ)
engines = ("day", new_engine sample_settings) ∷ []

abbrev tightened : RiskSettings ℤ
tightened = record sample_settings { max_open_positions = 2 }

apply_sleeve_risk-AllWithin_example :
    AllWithin sample_settings tightened
      (apply_sleeve_risk sample_settings tightened (λ name. loose) engines)
apply_sleeve_risk-AllWithin_example =
    apply_sleeve_risk-AllWithin fixed-ReversesOrder sample_settings tightened (λ name. loose)
      engines
