-- ===== src/Risk/Gate.antt =====
-- What the gate decides, and what an evaluation does to the engine.
use mathlib.Core.Path.{subst, sym}
use smarty_trader.Prelude.{ℕ, ◌≡◌, refl, ◌↔◌, true, false, Option, arith}
use smarty_trader.Float.{Float, ◌⊖◌, ◌⊘◌, ◌<?◌, ◌≤?◌, zero_f}
use smarty_trader.Models.{
  Action, TradeSignal, PortfolioState, RiskVerdict, Reason, total_value, is_buy,
}
use smarty_trader.Risk.{long_exposure}
use smarty_trader.Risk.Trackers.{
  RiskEngine, DailyLossTracker, ConsecutiveLossTracker, in_cooldown, daily_pnl_pct,
  update_daily_value, reset_if_new_day, update_latest_value, note_equity,
}
use smarty_trader.Risk.Checks.{
  check_daily_loss, check_drawdown, check_cooldown, check_stop_loss, check_peak, peak_or, evaluate,
  evaluate_action, evaluate_entry, evaluate_exit,
}
use smarty_trader.Risk.Rules.{
  EntryAllowed, check_confidence_iff, check_max_positions_iff, check_position_size_iff,
  daily_verdict_iff, check_drawdown_iff, check_cooldown_iff, check_stop_iff, Stopped,
  first_rejected_iff,
}

module _ {F : Type 0} ⦃d : Float F⦄ where
  note_equity-losses : (value : F) (e : RiskEngine F) → (note_equity value e).losses ≡ e.losses
  unfolding note_equity
  note_equity-losses value e = ground arith

  check_drawdown-losses :
      (s : PortfolioState F) (e : RiskEngine F) → (check_drawdown s e).1.losses ≡ e.losses
  unfolding check_drawdown check_peak
  check_drawdown-losses s e = ground (arith, note_equity-losses (total_value s) e)

  check_peak-note_equity :
      (why : Reason) (value limit : F) (e : RiskEngine F)
      → (value ≤? zero_f) ≡ false
      → (check_peak why value limit e).1 ≡ note_equity value e
  unfolding check_peak
  check_peak-note_equity why value limit e solvent = ground arith

  note_equity-peak-daily :
      (value : F) (e : RiskEngine F) (t : DailyLossTracker F)
      → (note_equity value (record e { daily = t })).peak_equity ≡ (note_equity value e).peak_equity
  unfolding note_equity
  note_equity-peak-daily value e t = ground arith

  module _ (now later : ℕ) (signal : TradeSignal F) (s : PortfolioState F)
      (planned price : Option F) (e : RiskEngine F) (buy : signal.action ≡ Action.buy) where
    is_entry : is_buy signal.action ≡ true
    is_entry = rw buy

    entry_drawdown_iff :
        (total_value s ≤? zero_f) ≡ false
        → ((check_drawdown s (check_daily_loss now s e).1).0.verdict ≡ RiskVerdict.approved) ↔ (
            let peak = peak_or (total_value s) (note_equity (total_value s) e).peak_equity in
            (e.settings.max_drawdown_pct <? (peak ⊖ total_value s) ⊘ peak) ≡ false)
    unfolding check_daily_loss
    entry_drawdown_iff solvent =
        let rolled =
          update_latest_value (total_value s) (reset_if_new_day now (total_value s) e.daily) in
        rw (← note_equity-peak-daily (total_value s) e rolled)
          (check_drawdown_iff s (check_daily_loss now s e).1 solvent)

    entry_cooldown_iff :
        ((check_cooldown later (check_drawdown s (check_daily_loss now s e).1).1).verdict
          ≡ RiskVerdict.approved)
        ↔ (in_cooldown later e.losses ≡ false)
    unfolding check_daily_loss
    entry_cooldown_iff =
        let after = (check_drawdown s (check_daily_loss now s e).1).1 in
        subst
          (λ (t : ConsecutiveLossTracker).
            ((check_cooldown later after).verdict ≡ RiskVerdict.approved)
            ↔ (in_cooldown later t ≡ false))
          (check_drawdown-losses s (check_daily_loss now s e).1) (check_cooldown_iff later after)

    entry_stop_iff :
        ((check_stop_loss e.settings signal price).verdict ≡ RiskVerdict.approved)
        ↔ Stopped e.settings signal.stop_loss signal.take_profit price
    unfolding check_stop_loss
    entry_stop_iff =
        rw (check_stop_loss, is_entry)
          (check_stop_iff e.settings signal.stop_loss signal.take_profit price)

    evaluate_entry_iff :
        ((evaluate_entry now later signal s planned price e).0.verdict ≡ RiskVerdict.approved)
        ↔ EntryAllowed now later signal s planned price e
    unfolding evaluate_entry check_daily_loss
    evaluate_entry_iff =
        let rolled =
          update_latest_value (total_value s) (reset_if_new_day now (total_value s) e.daily) in
        let confident = check_confidence_iff e.settings signal in
        let room = check_max_positions_iff e.settings signal s in
        let size = check_position_size_iff e.settings signal s planned is_entry in
        let daily = daily_verdict_iff e.settings (daily_pnl_pct rolled) in
        (
          λ h.
              let a = (first_rejected_iff _).0 h in
              let sized = size.0 a.1.1.0 in
              record {
                confident = confident.0 a.0;
                room = room.0 a.1.0;
                solvent = sized.0;
                not_full = sized.1;
                planned_fits = sized.2;
                day_loss_small = daily.0 a.1.1.1.0;
                drawdown_small = (entry_drawdown_iff sized.0).0 a.1.1.1.1.0;
                not_cooling = entry_cooldown_iff.0 a.1.1.1.1.1.0;
                stopped = entry_stop_iff.0 a.1.1.1.1.1.1.0;
              },
          λ g. (first_rejected_iff _).1 (
            confident.1 g.confident,
            (
              room.1 g.room,
              (
                size.1 (g.solvent, g.not_full, g.planned_fits),
                (
                  daily.1 g.day_loss_small,
                  (
                    (entry_drawdown_iff g.solvent).1 g.drawdown_small,
                    (entry_cooldown_iff.1 g.not_cooling, (entry_stop_iff.1 g.stopped, tt)),
                  ),
                ),
              ),
            ),
          ),
        )

    -- A BUY is approved exactly if every rule of the settings allows it: confidence, open positions,
    -- a positive portfolio, the size cap before and after the planned order, the day's loss, the
    -- drawdown, the cooldown, and a stop with the geometry that the price asks for.
    pub evaluate_iff :
        ((evaluate now later signal s planned price e).0.verdict ≡ RiskVerdict.approved)
        ↔ EntryAllowed now later signal s planned price e
    unfolding evaluate evaluate_action
    evaluate_iff =
        subst
          (λ (a : Action).
            ((evaluate_action a now later signal s planned price e).0.verdict
              ≡ RiskVerdict.approved)
            ↔ EntryAllowed now later signal s planned price e)
          (sym buy) evaluate_entry_iff

  module _ (now later : ℕ) (signal : TradeSignal F) (s : PortfolioState F)
      (planned price : Option F) (e : RiskEngine F) where
    -- A SELL is approved exactly if a long exposure is above zero and the confidence is enough. No
    -- loss limit, drawdown, cooldown, size or stop holds it back, and the engine stays as it was.
    pub evaluate_sell_iff :
        signal.action ≡ Action.sell
        → (((evaluate now later signal s planned price e).0.verdict ≡ RiskVerdict.approved) ↔ (
            ((long_exposure s signal.symbol ≤? zero_f) ≡ false)
            × ((signal.confidence <? e.settings.min_confidence) ≡ false)))
          × ((evaluate now later signal s planned price e).1 ≡ e)
    unfolding evaluate evaluate_action evaluate_exit
    evaluate_sell_iff sell =
        subst
          (λ (a : Action).
            (((evaluate_action a now later signal s planned price e).0.verdict
                ≡ RiskVerdict.approved)
              ↔ (((long_exposure s signal.symbol ≤? zero_f) ≡ false)
                  × ((signal.confidence <? e.settings.min_confidence) ≡ false)))
            × ((evaluate_action a now later signal s planned price e).1 ≡ e))
          (sym sell) (ground (arith, check_confidence_iff e.settings signal), refl)

    -- A BUY moves the trackers whatever its verdict: for a portfolio of positive value the engine
    -- after it is the one that `update_daily_value` leaves.
    pub evaluate_buy-engine :
        signal.action ≡ Action.buy
        → (total_value s ≤? zero_f) ≡ false
        → (evaluate now later signal s planned price e).1 ≡ update_daily_value now (total_value s) e
    unfolding evaluate evaluate_action evaluate_entry check_daily_loss check_drawdown
        update_daily_value
    evaluate_buy-engine buy solvent =
        subst
          (λ (a : Action).
            (evaluate_action a now later signal s planned price e).1
            ≡ update_daily_value now (total_value s) e)
          (sym buy)
          (check_peak-note_equity Reason.drawdown (total_value s) e.settings.max_drawdown_pct
            (check_daily_loss now s e).1 solvent)
