-- ===== src/Backtest/Sequence.antt =====
-- The order of the events of `_build_timeline`: no decision is replayed ahead of what was known.
use smarty_trader.Prelude.{
  ℕ, ◌+◌, ◌≤◌, ◌<◌, ◌≡◌, refl, true, false, Option, none, some, List, [], ◌∷◌, ◌++◌, All,
  All-append, All-map, or_else, arith, String,
}
use mathlib.Core.Path.{subst}
use smarty_trader.Prelude.Sort.{sort_by-InOrder, sort_by-All, InOrder, InOrder-around}
use smarty_trader.Float.{Float}
use smarty_trader.Models.{Ohlcv}
use smarty_trader.Candles.{timeframe_delta}
use smarty_trader.Backtest.Timeline.{
  ReplayDecision, Payload, Event, earlier, candle_events, all_candles, decision_events,
  build_timeline,
}

module _ {F : Type 0} where
  -- a candle stands at the close of its bar, a decision at its own time
  abbrev pub Stands : Option ℕ → ℕ → Payload F → Type 0
  Stands bar at (Payload.candle symbol c) = elim c.timestamp [
    | none ↦ ⊥
    | some opened ↦ at ≡ opened + or_else bar 0
  ]
  Stands bar at (Payload.decision x) = at ≡ x.decided_at

  -- a candle closes after the time, a decision is not before it
  abbrev pub IsLater : ℕ → ℕ → Payload F → Type 0
  IsLater ts at (Payload.candle symbol c) = ts < at
  IsLater ts at (Payload.decision x) = ts ≤ at

  earlier-asymmetric : (x y : Event F) → earlier x y ≡ true → earlier y x ≡ false
  unfolding earlier
  earlier-asymmetric x y h = ground arith

  earlier-transitive :
      (x y z : Event F) → earlier y x ≡ false → earlier z y ≡ false → earlier z x ≡ false
  unfolding earlier
  earlier-transitive x y z h k = ground arith

  behind_decision :
      (ts : ℕ) (x : ReplayDecision F) (e : Event F)
      → earlier e (ts, Payload.decision x) ≡ false
      → IsLater ts e.0 e.1
  unfolding earlier
  behind_decision ts x (at, Payload.candle symbol c) h = ground arith
  behind_decision ts x (at, Payload.decision y) h = ground arith

  known_by_decision :
      (ts : ℕ) (x : ReplayDecision F) (e : Event F)
      → earlier (ts, Payload.decision x) e ≡ false
      → e.0 ≤ ts
  unfolding earlier
  known_by_decision ts x (at, Payload.candle symbol c) h = ground arith
  known_by_decision ts x (at, Payload.decision y) h = ground arith

  abbrev pub AllStand : Option ℕ → List (Event F) → Type 0
  AllStand bar = All (λ (e : Event F). Stands bar e.0 e.1)

module _ {F : Type 0} ⦃d : Float F⦄ where
  candle_events-AllStand :
      (bar : Option ℕ) (symbol : String) (candles : List (Ohlcv F))
      → AllStand bar (candle_events bar symbol candles)
  unfolding candle_events
  candle_events-AllStand bar symbol [] = tt
  candle_events-AllStand bar symbol (c ∷ rest) =
      ground (arith, candle_events-AllStand bar symbol rest)

  all_candles-AllStand :
      (bar : Option ℕ) (candles : List (String × List (Ohlcv F)))
      → AllStand bar (all_candles bar candles)
  unfolding all_candles
  all_candles-AllStand bar [] = tt
  all_candles-AllStand bar ((symbol, candles) ∷ rest) =
      All-append (λ (e : Event F). Stands bar e.0 e.1) (candle_events bar symbol candles)
        (all_candles bar rest) (candle_events-AllStand bar symbol candles)
        (all_candles-AllStand bar rest)

  decision_events-AllStand :
      (bar : Option ℕ) (decisions : List (ReplayDecision F))
      → AllStand bar (decision_events decisions)
  unfolding decision_events
  decision_events-AllStand bar [] = tt
  decision_events-AllStand bar (x ∷ rest) = (refl, decision_events-AllStand bar rest)

  build_timeline-AllStand :
      (decisions : List (ReplayDecision F)) (candles : List (String × List (Ohlcv F)))
      (timeframe : String)
      → AllStand (timeframe_delta timeframe) (build_timeline decisions candles timeframe)
  unfolding build_timeline earlier
  build_timeline-AllStand decisions candles timeframe =
      sort_by-All earlier (λ (e : Event F). Stands (timeframe_delta timeframe) e.0 e.1)
        (all_candles (timeframe_delta timeframe) candles ++ decision_events decisions)
        (All-append (λ (e : Event F). Stands (timeframe_delta timeframe) e.0 e.1)
          (all_candles (timeframe_delta timeframe) candles) (decision_events decisions)
          (all_candles-AllStand (timeframe_delta timeframe) candles)
          (decision_events-AllStand (timeframe_delta timeframe) decisions))

  build_timeline-InOrder :
      (decisions : List (ReplayDecision F)) (candles : List (String × List (Ohlcv F)))
      (timeframe : String)
      → InOrder earlier (build_timeline decisions candles timeframe)
  unfolding build_timeline
  build_timeline-InOrder decisions candles timeframe =
      sort_by-InOrder earlier earlier-asymmetric
        (all_candles (timeframe_delta timeframe) candles ++ decision_events decisions)

  -- Wherever a decision stands in the timeline that `_build_timeline` makes of decisions and
  -- candles: every candle stands at its bar's open time plus the timeframe's length (zero for an
  -- unknown timeframe) and every decision at its own time, no event in front of the decision is
  -- of a later time, and behind it each candle is of a strictly later time and each decision of
  -- no earlier one. So a decision sees a close exactly when it is known by then.
  pub build_timeline-no_peek :
      (decisions : List (ReplayDecision F)) (candles : List (String × List (Ohlcv F)))
      (timeframe : String) (front behind : List (Event F)) (ts : ℕ) (x : ReplayDecision F)
      → build_timeline decisions candles timeframe ≡ front ++ (ts, Payload.decision x) ∷ behind
      → AllStand (timeframe_delta timeframe) (build_timeline decisions candles timeframe)
        × All (λ (e : Event F). e.0 ≤ ts) front
        × All (λ (e : Event F). IsLater ts e.0 e.1) behind
  build_timeline-no_peek decisions candles timeframe front behind ts x h =
      let ordered =
        InOrder-around earlier earlier-transitive (ts, Payload.decision x) front behind
          (subst (InOrder earlier) h (build_timeline-InOrder decisions candles timeframe)) in
      (
        build_timeline-AllStand decisions candles timeframe,
        All-map (λ (e : Event F). e.0 ≤ ts) front (known_by_decision ts x) ordered.0,
        All-map (λ (e : Event F). IsLater ts e.0 e.1) behind (behind_decision ts x) ordered.1,
      )
