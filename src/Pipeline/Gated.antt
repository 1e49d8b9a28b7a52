-- ===== src/Pipeline/Gated.antt =====
-- What the verdict of a cycle promises.
use smarty_trader.Prelude.{◌≡◌, Option, some, ◌∷◌, arith}
use smarty_trader.Float.{Float}
use smarty_trader.Models.{Action, TradeSignal, PortfolioState, RiskResult, RiskVerdict, total_value}
use smarty_trader.Risk.Checks.{evaluate}
use smarty_trader.Risk.Rules.{EntryAllowed}
use smarty_trader.Risk.Gate.{evaluate_iff}
use smarty_trader.Pipeline.{Answers, Setup, Cycle, Effect, put_engine}
use smarty_trader.Pipeline.Decide.{backstop_verdict, guard_verdict, gate, notional}

module _ {F S : Type 0} ⦃d : Float F⦄ (p : Setup F) where
  backstop_verdict-approved :
      (action : Action) (value : F) (r : RiskResult) (c : Cycle F S)
      → (backstop_verdict p action value r c).0.verdict ≡ RiskVerdict.approved
      → r.verdict ≡ RiskVerdict.approved
  unfolding backstop_verdict
  backstop_verdict-approved action value r c h = ground arith

  guard_verdict-approved :
      (a : Answers F) (signal : TradeSignal F) (r : RiskResult) (c : Cycle F S)
      → (guard_verdict p a signal r c).verdict ≡ RiskVerdict.approved
      → r.verdict ≡ RiskVerdict.approved
  unfolding guard_verdict
  guard_verdict-approved a signal r c h = ground arith

  -- A BUY passes the cycle's verdict only if every rule for an entry holds of the book that it was
  -- sized on, at the notional of the planned quantity and the price of the last candle.
  pub gate-EntryAllowed :
      (a : Answers F) (signal : TradeSignal F) (price : F) (planned : Option F)
      (portfolio book : PortfolioState F) (c : Cycle F S)
      → signal.action ≡ Action.buy
      → (gate p a signal price planned portfolio book c).0.verdict ≡ RiskVerdict.approved
      → EntryAllowed a.gate_now a.cooldown_now signal book
          (notional price planned)
          (some price)
          (c.engines p.own)
  unfolding gate
  gate-EntryAllowed a signal price planned portfolio book c buy h =
      let gated =
        evaluate a.gate_now a.cooldown_now signal book (notional price planned) (some price)
          (c.engines p.own) in
      let asked = put_engine p.own gated.1 (record c { log = Effect.asked ∷ c.log }) in
      let stopped = backstop_verdict p signal.action (total_value portfolio) gated.0 asked in
      (evaluate_iff a.gate_now a.cooldown_now signal book (notional price planned) (some price)
          (c.engines p.own) buy).0
        (backstop_verdict-approved signal.action (total_value portfolio) gated.0 asked
          (guard_verdict-approved a signal stopped.0 stopped.1 h))
