-- ===== src/Pipeline/Effects.antt =====
-- What each part of a cycle adds to the log of questions and orders.
use smarty_trader.Prelude.{ℕ, ◌≡◌, refl, false, String, Option, ◌∷◌, arith}
use smarty_trader.Float.{Float}
use smarty_trader.Models.{
  Action, TradeSignal, PortfolioState, Ohlcv, OrderResult, RiskResult, RiskVerdict,
}
use smarty_trader.Paper.{OrderRequest}
use smarty_trader.Risk.{is_rejected}
use smarty_trader.Pipeline.{Venue, Answers, Setup, Effect, Cycle, send, note_fill, mark_positions}
use smarty_trader.Pipeline.Decide.{backstop_verdict, gate, note_decision}

pub approved_of : (v : RiskVerdict) → is_rejected v ≡ false → v ≡ RiskVerdict.approved
approved_of RiskVerdict.approved h = refl
approved_of RiskVerdict.rejected h = cc

module _ {F S : Type 0} ⦃d : Float F⦄ where
  pub note_fill-log :
      (p : Setup F) (strategy : Option String) (now : ℕ) (o : OrderResult F) (c : Cycle F S)
      → (note_fill p strategy now o c).log ≡ c.log
  unfolding note_fill
  note_fill-log p strategy now o c = ground arith

  pub note_fill-venue :
      (p : Setup F) (strategy : Option String) (now : ℕ) (o : OrderResult F) (c : Cycle F S)
      → (note_fill p strategy now o c).venue ≡ c.venue
  unfolding note_fill
  note_fill-venue p strategy now o c = ground arith

  pub send-log :
      (v : Venue F S) (r : OrderRequest F) (c : Cycle F S)
      → (send v r c).1.log ≡ Effect.placed r ∷ c.log
  unfolding send
  send-log v r c = refl

  pub mark_positions-log :
      (v : Venue F S) (symbol : String) (bar : Ohlcv F) (c : Cycle F S)
      → (mark_positions v symbol bar c).log ≡ c.log
  unfolding mark_positions
  mark_positions-log v symbol bar c = ground arith

  pub backstop_verdict-log :
      (p : Setup F) (action : Action) (value : F) (r : RiskResult) (c : Cycle F S)
      → (backstop_verdict p action value r c).1.log ≡ c.log
  unfolding backstop_verdict
  backstop_verdict-log p action value r c = ground arith

  pub gate-log :
      (p : Setup F) (a : Answers F) (signal : TradeSignal F) (price : F) (planned : Option F)
      (portfolio book : PortfolioState F) (c : Cycle F S)
      → (gate p a signal price planned portfolio book c).1.log ≡ Effect.asked ∷ c.log
  unfolding gate
  gate-log p a signal price planned portfolio book c = backstop_verdict-log p signal.action _ _ _

  pub note_decision-log :
      (signal : TradeSignal F) (fetched_at : ℕ) (c : Cycle F S)
      → (note_decision signal fetched_at c).log ≡ c.log
  unfolding note_decision
  note_decision-log signal fetched_at c = ground arith
