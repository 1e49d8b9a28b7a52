-- ===== src/Risk/Checks.antt =====
-- src/core/risk_engine.py: the single checks, `evaluate` over them, and the agent-wide backstop.
-- A check that moves a tracker gives the engine after it.
use smarty_trader.Prelude.{
  ℕ, Bool, Option, none, some, List, [], ◌∷◌, ◌&&◌, not, ◌==◌, string_eq, leb, any, length,
  if◌then◌else◌,
}
use smarty_trader.Float.{Float, ◌⊕◌, ◌⊖◌, ◌⊗◌, ◌⊘◌, ◌<?◌, ◌≤?◌, ◌=?◌, zero_f, one_f}
use smarty_trader.Models.{
  Action, TradeSignal, Position, PortfolioState, RiskResult, Reason, is_buy, total_value,
}
use smarty_trader.Risk.{RiskSettings, approve, reject, is_rejected, long_exposure}
use smarty_trader.Risk.Trackers.{
  RiskEngine, reset_if_new_day, update_latest_value, daily_pnl_pct, note_equity, in_cooldown,
}

unfoldable pub first_rejected : List RiskResult → RiskResult
first_rejected [] = approve
first_rejected (r ∷ rs) = if is_rejected r.verdict then r else first_rejected rs

module _ {F : Type 0} ⦃d : Float F⦄ where
  unfoldable pub check_confidence : RiskSettings F → TradeSignal F → RiskResult
  check_confidence settings signal =
      if signal.confidence <? settings.min_confidence then reject Reason.low_confidence else approve

  unfoldable pub check_max_positions :
      RiskSettings F → TradeSignal F → PortfolioState F → RiskResult
  check_max_positions settings signal portfolio =
      let is_new = not (any (λ (p : Position F). p.symbol == signal.symbol) portfolio.positions) in
      if is_new && leb settings.max_open_positions (length portfolio.positions)
      then reject Reason.max_positions
      else approve

  -- the literals `1.0 - 1e-9` and `1.0 + 1e-6` of the code
  abbrev pub just_below_one : F
  just_below_one = one_f ⊖ d.decimal 1 9

  abbrev pub just_above_one : F
  just_above_one = one_f ⊕ d.decimal 1 6

  abbrev pub size_cap : RiskSettings F → PortfolioState F → F
  size_cap settings portfolio = settings.max_position_pct ⊗ total_value portfolio

  -- what a BUY adds to
  abbrev pub existing_value : TradeSignal F → PortfolioState F → F
  existing_value signal portfolio =
      if is_buy signal.action then long_exposure portfolio signal.symbol else zero_f

  unfoldable pub check_planned : F → F → Option F → RiskResult
  check_planned cap existing none = approve
  check_planned cap existing (some planned) =
      if cap ⊗ just_above_one <? existing ⊕ planned then reject Reason.oversized else approve

  unfoldable pub check_position_size :
      RiskSettings F → TradeSignal F → PortfolioState F → Option F → RiskResult
  unfolding check_planned
  check_position_size settings signal portfolio planned =
      let cap = size_cap settings portfolio in
      let existing = existing_value signal portfolio in
      if total_value portfolio ≤? zero_f
      then reject Reason.no_value
      else if is_buy signal.action && (cap ⊗ just_below_one ≤? existing)
      then reject Reason.at_max_size
      else check_planned cap existing planned

  unfoldable pub daily_verdict : RiskSettings F → Option F → RiskResult
  daily_verdict settings none = approve
  daily_verdict settings (some pnl) =
      if pnl ≤? d.neg (settings.daily_loss_limit_pct ⊗ just_below_one)
      then reject Reason.daily_loss
      else approve

  unfoldable pub check_daily_loss : ℕ → PortfolioState F → RiskEngine F → RiskResult × RiskEngine F
  unfolding daily_verdict
  check_daily_loss now portfolio e =
      let value = total_value portfolio in
      let daily = update_latest_value value (reset_if_new_day now value e.daily) in
      (daily_verdict e.settings (daily_pnl_pct daily), record e { daily = daily })

  -- `self._peak_equity or value`: neither `None` nor 0.0 counts as true
  unfoldable pub peak_or : F → Option F → F
  peak_or value none = value
  peak_or value (some peak) = if peak =? zero_f then value else peak

  -- The breaker that the drawdown rule and the backstop share: above `limit` below the peak.
  unfoldable pub check_peak : Reason → F → F → RiskEngine F → RiskResult × RiskEngine F
  unfolding peak_or
  check_peak why value limit e =
      let e' = note_equity value e in
      let peak = peak_or value e'.peak_equity in
      if value ≤? zero_f
      then (approve, e)
      else if limit <? (peak ⊖ value) ⊘ peak
      then (reject why, e')
      else (approve, e')

  unfoldable pub check_drawdown : PortfolioState F → RiskEngine F → RiskResult × RiskEngine F
  unfolding check_peak
  check_drawdown portfolio e =
      check_peak Reason.drawdown (total_value portfolio) e.settings.max_drawdown_pct e

  unfoldable pub check_backstop : F → F → RiskEngine F → RiskResult × RiskEngine F
  unfolding check_peak
  check_backstop value limit_pct e = check_peak Reason.backstop value limit_pct e

  unfoldable pub check_cooldown : ℕ → RiskEngine F → RiskResult
  check_cooldown now e = if in_cooldown now e.losses then reject Reason.cooldown else approve

  unfoldable pub target_missed : F → Option F → Bool
  target_missed price none = Bool.false
  target_missed price (some target) = target ≤? price

  -- the geometry of an entry with a stop, at a known price
  unfoldable pub check_geometry : RiskSettings F → F → Option F → F → RiskResult
  unfolding target_missed
  check_geometry settings stop target price =
      if price ≤? stop
      then reject Reason.stop_not_below
      else if target_missed price target
      then reject Reason.target_not_above
      else if settings.max_stop_distance_pct <? (price ⊖ stop) ⊘ price
      then reject Reason.stop_too_far
      else approve

  unfoldable pub check_stop : RiskSettings F → Option F → Option F → Option F → RiskResult
  unfolding check_geometry
  check_stop settings none target price = reject Reason.stop_required
  check_stop settings (some stop) target none = approve
  check_stop settings (some stop) target (some price) =
      if zero_f <? price then check_geometry settings stop target price else approve

  unfoldable pub check_stop_loss : RiskSettings F → TradeSignal F → Option F → RiskResult
  unfolding check_stop
  check_stop_loss settings signal price =
      if is_buy signal.action
      then check_stop settings signal.stop_loss signal.take_profit price
      else approve

  -- `_evaluate_exit`
  unfoldable pub evaluate_exit : RiskSettings F → TradeSignal F → PortfolioState F → RiskResult
  unfolding check_confidence
  evaluate_exit settings signal portfolio =
      if long_exposure portfolio signal.symbol ≤? zero_f
      then reject Reason.nothing_to_sell
      else check_confidence settings signal

  -- The list of a BUY's checks is built before it is searched, so every tracker moves.
  unfoldable pub evaluate_entry :
      ℕ
      → ℕ
      → TradeSignal F
      → PortfolioState F
      → Option F
      → Option F
      → RiskEngine F
      → RiskResult × RiskEngine F
  evaluate_entry now later signal portfolio planned price e =
      let (daily, e₁) = check_daily_loss now portfolio e in
      let (drawdown, e₂) = check_drawdown portfolio e₁ in
      (
        first_rejected (
            check_confidence e.settings signal
            ∷ check_max_positions e.settings signal portfolio
            ∷ check_position_size e.settings signal portfolio planned
            ∷ daily
            ∷ drawdown
            ∷ check_cooldown later e₂
            ∷ check_stop_loss e.settings signal price
            ∷ []),
        e₂,
      )

  unfoldable pub evaluate_action :
      Action
      → ℕ
      → ℕ
      → TradeSignal F
      → PortfolioState F
      → Option F
      → Option F
      → RiskEngine F
      → RiskResult × RiskEngine F
  unfolding evaluate_entry evaluate_exit
  evaluate_action Action.hold now later signal portfolio planned price e = (approve, e)
  evaluate_action Action.sell now later signal portfolio planned price e =
      (evaluate_exit e.settings signal portfolio, e)
  evaluate_action Action.buy now later signal portfolio planned price e =
      evaluate_entry now later signal portfolio planned price e

  unfoldable pub evaluate :
      ℕ
      → ℕ
      → TradeSignal F
      → PortfolioState F
      → Option F
      → Option F
      → RiskEngine F
      → RiskResult × RiskEngine F
  unfolding evaluate_action
  evaluate now later signal portfolio planned price e =
      evaluate_action signal.action now later signal portfolio planned price e
