-- ===== src/Pipeline/Orderly.antt =====
-- What a cycle may send to the venue, and after what: the parts of a cycle.
use smarty_trader.Prelude.{
  option_both, ℕ, ◌≡◌, refl, ap, ◌∙◌, true, String, Option, none, some, List, ◌∷◌, Bool-cases, inl,
  inr,
}
use smarty_trader.Float.{Float}
use smarty_trader.Models.{
  TradeSignal, Position, PortfolioState, OrderSide, OrderResult, RiskResult, RiskVerdict,
}
use smarty_trader.Risk.{is_rejected}
use smarty_trader.Sizing.{ExitReason, closing_side, signal_order}
use smarty_trader.Pipeline.{
  Venue, Answers, Setup, Effect, Cycle, Outcome, PipelineResult, send, is_order_working,
}
use smarty_trader.Pipeline.Exits.{exit_order, close_for_exit, closed_with}
use smarty_trader.Pipeline.Closing.{closing_order, exit_order-closing_order}
use smarty_trader.Pipeline.Decide.{
  order_side, gate, planned_quantity, note_decision, conclude, place_signal, execute_signal,
  executed,
}
use smarty_trader.Pipeline.Run.{labelled}
use smarty_trader.Pipeline.Effects.{approved_of, note_fill-log, send-log, note_decision-log}

module _ {F S : Type 0} ⦃d : Float F⦄ (p : Setup F) (v : Venue F S) (a : Answers F)
    (symbol : String) (before : List (Effect F)) (MayClose : Position F → F → Type 0) where
  -- The quantity was sized for the signal at the price, and the verdict is the one on that very
  -- quantity, on the book that it was sized on, and approves.
  pub record Approved (signal : TradeSignal F) (price quantity : F) (verdict : RiskResult)
      : Type 0 where
    pub portfolio : PortfolioState F
    pub book : PortfolioState F
    pub limit : Option F
    pub asked_in : Cycle F S
    pub sized : planned_quantity p v signal book limit price asked_in ≡ some quantity
    pub gated : (gate p a signal price (some quantity) portfolio book asked_in).0 ≡ verdict
    pub allowed : verdict.verdict ≡ RiskVerdict.approved

  -- All that a cycle may do: nothing; to ask the model; to close a position that it may close, whole,
  -- on the other side and at its mark, without asking; or to ask and then to send the order of a signal that was approved, with the quantity that
  -- was approved.
  pub data Orderly (out : Outcome F S) : Type 0 where
    quiet : out.1.log ≡ before → out.0.order_result ≡ none → Orderly out
    asked_only : out.1.log ≡ Effect.asked ∷ before → out.0.order_result ≡ none → Orderly out
    closed :
        (position : Position F) (mark : F)
        → MayClose position mark
        → out.1.log ≡ Effect.placed (closing_order symbol position mark) ∷ before
        → out.0.auto_exit ≡ true
        → out.0.signal ≡ none
        → Orderly out
    decided :
        (signal : TradeSignal F) (side : OrderSide) (quantity price : F) (verdict : RiskResult)
        → out.1.log
          ≡ Effect.placed (signal_order signal side quantity price a.decision_id)
            ∷ Effect.asked
            ∷ before
        → out.0.signal ≡ some signal
        → order_side signal.action ≡ some side
        → out.0.risk_result ≡ some verdict
        → Approved signal price quantity verdict
        → Orderly out

  spelled :
      (position : Position F) (mark : F)
      → Effect.placed (exit_order symbol position mark) ∷ before
        ≡ Effect.placed (closing_order symbol position mark) ∷ before
  spelled position mark =
      ap (λ r. Effect.placed r ∷ before) (exit_order-closing_order symbol position mark)

  closed_with-Orderly :
      (owner : Option String) (now : ℕ) (why : ExitReason) (position : Position F) (mark : F)
      (out : Option (OrderResult F) × Cycle F S)
      → MayClose position mark
      → out.1.log ≡ Effect.placed (exit_order symbol position mark) ∷ before
      → Orderly (closed_with p owner now why out)
  unfolding closed_with
  closed_with-Orderly owner now why position mark (none, c) may h =
      closed position mark may (h ∙ spelled position mark) refl refl
  closed_with-Orderly owner now why position mark (some o, c) may h =
      closed position mark may (note_fill-log p owner now o c ∙ (h ∙ spelled position mark)) refl
        refl

  pub close_for_exit-Orderly :
      (now : ℕ) (position : Position F) (mark : F) (why : ExitReason) (owner : Option String)
      (c : Cycle F S)
      → MayClose position mark
      → c.log ≡ before
      → Orderly (close_for_exit p v now symbol position mark why owner c)
  unfolding close_for_exit
  close_for_exit-Orderly now position mark why owner c may h =
      let order = exit_order symbol position mark in
      let sent : (send v order c).1.log ≡ Effect.placed order ∷ before =
        send-log v order c ∙ ap (λ l. Effect.placed order ∷ l) h in
      elim (Bool-cases (is_order_working v symbol (closing_side position.side) c)) [
        | inl waits ↦ rw (waits, close_for_exit) (quiet h refl)
        | inr free ↦
            rw (free, close_for_exit)
              (closed_with-Orderly owner now why position mark (send v order c) may sent)
      ]

  pub labelled-Orderly :
      (owner : Option String) (out : Outcome F S) → Orderly out → Orderly (labelled owner out)
  labelled-Orderly owner (r, c) (quiet h k) = quiet h k
  labelled-Orderly owner (r, c) (asked_only h k) = asked_only h k
  labelled-Orderly owner (r, c) (closed position mark may h k l) = closed position mark may h k l
  labelled-Orderly owner (r, c) (decided signal side quantity price verdict h k l m n) =
      decided signal side quantity price verdict h k l m n

  module _ (signal : TradeSignal F) (price : F) (verdict : RiskResult) where
    executed-Orderly :
        (now : ℕ) (r : PipelineResult F) (side : OrderSide) (quantity : F)
        (out : Option (OrderResult F) × Cycle F S)
        → out.1.log
          ≡ Effect.placed (signal_order signal side quantity price a.decision_id)
            ∷ Effect.asked
            ∷ before
        → r.signal ≡ some signal
        → order_side signal.action ≡ some side
        → r.risk_result ≡ some verdict
        → Approved signal price quantity verdict
        → Orderly (executed p now r out)
    unfolding executed
    executed-Orderly now r side quantity (none, c) h k l m n =
        decided signal side quantity price verdict h k l m n
    executed-Orderly now r side quantity (some o, c) h k l m n =
        decided signal side quantity price verdict (note_fill-log p p.strategy now o c ∙ h) k l m n

    module _ (r : PipelineResult F) (c : Cycle F S) (logged : c.log ≡ Effect.asked ∷ before)
        (unsent : r.order_result ≡ none) (has_signal : r.signal ≡ some signal)
        (has_verdict : r.risk_result ≡ some verdict) where
      place_signal-Orderly :
          (side : OrderSide) (quantity : F)
          → order_side signal.action ≡ some side
          → Approved signal price quantity verdict
          → Orderly (place_signal p v a signal side quantity price r c)
      unfolding place_signal
      place_signal-Orderly side quantity is_side ok =
          let order = signal_order signal side quantity price a.decision_id in
          let sent : (send v order c).1.log ≡ Effect.placed order ∷ Effect.asked ∷ before =
            send-log v order c ∙ ap (λ l. Effect.placed order ∷ l) logged in
          elim (Bool-cases (is_order_working v signal.symbol side c)) [
            | inl waits ↦ rw (waits, place_signal) (asked_only logged unsent)
            | inr free ↦
                rw (free, place_signal)
                  (executed-Orderly a.outcome_now r side quantity (send v order c) sent has_signal
                    is_side has_verdict ok)
          ]

      execute_signal-Orderly :
          (planned : Option F)
          → ((quantity : F) → planned ≡ some quantity → Approved signal price quantity verdict)
          → Orderly (execute_signal p v a signal price planned r c)
      unfolding execute_signal
      execute_signal-Orderly planned ok =
          option_both Orderly (order_side signal.action) (λ e. asked_only logged unsent)
            (λ side is_side.
              option_both Orderly planned (λ e. asked_only logged unsent)
                (λ quantity e. place_signal-Orderly side quantity is_side (ok quantity e)))

  pub conclude-Orderly :
      (signal : TradeSignal F) (price : F) (fetched_at : ℕ) (planned : Option F)
      (out : RiskResult × Cycle F S)
      → out.1.log ≡ Effect.asked ∷ before
      → ((quantity : F)
          → planned ≡ some quantity
          → out.0.verdict ≡ RiskVerdict.approved
          → Approved signal price quantity out.0)
      → Orderly (conclude p v a signal price fetched_at planned out)
  unfolding conclude
  conclude-Orderly signal price fetched_at planned (verdict, c) h ok =
      let noted = note_decision-log signal fetched_at c ∙ h in
      elim (Bool-cases (is_rejected verdict.verdict)) [
        | inl refused ↦ rw (refused, conclude) (asked_only noted refl)
        | inr allowed ↦
            rw (allowed, conclude)
              (execute_signal-Orderly signal price verdict _ (note_decision signal fetched_at c)
                noted refl refl refl planned (λ q e. ok q e (approved_of verdict.verdict allowed)))
      ]
