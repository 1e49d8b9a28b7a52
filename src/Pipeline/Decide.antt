-- ===== src/Pipeline/Decide.antt =====
-- `DecisionPipeline.run`, steps 4 to 6: the signal, the gate and the order. The prompt is left out: the
-- signal is what the model answers to it.
use smarty_trader.Prelude.{
  ℕ, true, false, String, Option, none, some, ◌∷◌, ◌&&◌, not, string_eq, if◌then◌else◌,
}
use smarty_trader.Prelude.Dict.{insert}
use smarty_trader.Float.{Float, ◌⊗◌, ◌=?◌, zero_f}
use smarty_trader.Models.{
  Action, TradeSignal, PortfolioState, OrderSide, OrderResult, RiskResult, is_buy, total_value,
}
use smarty_trader.Costs.{buy_cost_factor}
use smarty_trader.Risk.{approve, is_rejected}
use smarty_trader.Risk.Checks.{evaluate, check_backstop}
use smarty_trader.Risk.Events.{check_event_guard}
use smarty_trader.Sizing.{calculate_quantity, signal_order}
use smarty_trader.Pipeline.{
  Venue, Answers, Setup, Effect, Cycle, Outcome, CycleError, SkipReason, PipelineResult, blank,
  put_engine, send, is_order_working, note_fill,
}

abbrev pub order_side : Action → Option OrderSide
order_side Action.buy = some OrderSide.buy
order_side Action.sell = some OrderSide.sell
order_side Action.hold = none

module _ {F : Type 0} ⦃d : Float F⦄ where
  abbrev pub notional : F → Option F → Option F
  notional price none = none
  notional price (some quantity) = some (quantity ⊗ price)

module _ {F S : Type 0} ⦃d : Float F⦄ where
  -- The verdict of the gate, the backstop and the event guard, in this order.
  unfoldable pub backstop_verdict :
      Setup F → Action → F → RiskResult → Cycle F S → RiskResult × Cycle F S
  backstop_verdict p action value r c = elim p.sleeves [
    | none ↦ (r, c)
    | some b ↦
        if is_buy action && not (is_rejected r.verdict)
        then elim b.backstop [
          | none ↦ (approve, c)
          | some i ↦
              let (r', e) = check_backstop value b.backstop_limit (c.engines i) in
              (r', put_engine i e c)
        ]
        else (r, c)
  ]

  unfoldable pub guard_verdict :
      Setup F → Answers F → TradeSignal F → RiskResult → Cycle F S → RiskResult
  guard_verdict p a signal r c = elim a.context [
    | none ↦ r
    | some context ↦
        if is_buy signal.action && not (is_rejected r.verdict)
        then elim context [
          | none ↦ check_event_guard (c.engines p.own).settings signal none true
          | some x ↦ check_event_guard (c.engines p.own).settings signal (some x) false
        ]
        else r
  ]

  unfoldable pub planned_quantity :
      Setup F → Venue F S → TradeSignal F → PortfolioState F → Option F → F → Cycle F S → Option F
  planned_quantity p v signal book limit price c = elim (order_side signal.action) [
    | none ↦ none
    | some side ↦
        if price =? zero_f
        then none
        else some (
            calculate_quantity (c.engines p.own).settings signal book (some price)
              (buy_cost_factor (v.sizing_costs c.venue)) (some (v.sizing_costs c.venue)) limit)
  ]

  -- Step 6, for an approved signal; `r` is the result so far.
  unfoldable pub executed :
      Setup F → ℕ → PipelineResult F → Option (OrderResult F) × Cycle F S → Outcome F S
  unfolding note_fill
  executed p now r (none, c) = (record r { error = some CycleError.execution_failed }, c)
  executed p now r (some o, c) =
      (record r { order_result = some o }, note_fill p p.strategy now o c)

  unfoldable pub place_signal :
      Setup F
      → Venue F S
      → Answers F
      → TradeSignal F
      → OrderSide
      → F
      → F
      → PipelineResult F
      → Cycle F S
      → Outcome F S
  unfolding executed
  place_signal p v a signal side quantity price r c =
      if is_order_working v signal.symbol side c
      then (record r { skip_reason = some SkipReason.order_working }, c)
      else executed p a.outcome_now r
          (send v (signal_order signal side quantity price a.decision_id) c)

  unfoldable pub execute_signal :
      Setup F
      → Venue F S
      → Answers F
      → TradeSignal F
      → F
      → Option F
      → PipelineResult F
      → Cycle F S
      → Outcome F S
  unfolding place_signal
  execute_signal p v a signal price planned r c = elim (order_side signal.action) [
    | none ↦ (r, c)
    | some side ↦ elim planned [
      | none ↦ (record r { error = some CycleError.no_price }, c)
      | some quantity ↦ place_signal p v a signal side quantity price r c
    ]
  ]

  -- Steps 4 and 5: the question, and the verdict on the signal
  unfoldable pub gate :
      Setup F
      → Answers F
      → TradeSignal F
      → F
      → Option F
      → PortfolioState F
      → PortfolioState F
      → Cycle F S
      → RiskResult × Cycle F S
  unfolding backstop_verdict guard_verdict
  gate p a signal price planned portfolio book c =
      let (gated, e) =
        evaluate a.gate_now a.cooldown_now signal book (notional price planned) (some price)
          (c.engines p.own) in
      let asked = put_engine p.own e (record c { log = Effect.asked ∷ c.log }) in
      let (stopped, c') = backstop_verdict p signal.action (total_value portfolio) gated asked in
      (guard_verdict p a signal stopped c', c')

  -- A fallback is no decision: the next cycle asks again about the bar.
  unfoldable pub note_decision : TradeSignal F → ℕ → Cycle F S → Cycle F S
  note_decision signal fetched_at c =
      if signal.is_fallback
      then c
      else record c { last_decision_at = insert signal.symbol fetched_at c.last_decision_at }

  unfoldable pub conclude :
      Setup F
      → Venue F S
      → Answers F
      → TradeSignal F
      → F
      → ℕ
      → Option F
      → RiskResult × Cycle F S
      → Outcome F S
  unfolding execute_signal note_decision
  conclude p v a signal price fetched_at planned (verdict, c) =
      let noted = note_decision signal fetched_at c in
      let r = record blank {
        signal = some signal;
        risk_result = some verdict;
        decision_id = a.decision_id;
        strategy = p.strategy;
      } in
      if is_rejected verdict.verdict
      then (r, noted)
      else execute_signal p v a signal price planned r noted

  -- Steps 4 to 6, on the sleeve's book or else the account's
  unfoldable pub decide :
      Setup F
      → Venue F S
      → Answers F
      → String
      → F
      → ℕ
      → PortfolioState F
      → PortfolioState F
      → Option F
      → Cycle F S
      → Outcome F S
  unfolding gate conclude planned_quantity
  decide p v a symbol price fetched_at portfolio book limit c =
      let signal = record a.signal { symbol = symbol } in
      let planned = planned_quantity p v signal book limit price c in
      conclude p v a signal price fetched_at planned
        (gate p a signal price planned portfolio book c)
