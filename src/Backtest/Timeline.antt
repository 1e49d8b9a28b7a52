-- ===== src/Backtest/Timeline.antt =====
-- `_build_timeline`: candles at their close and decisions at their time, in one order.
use smarty_trader.Prelude.{
  ℕ, ◌+◌, Bool, String, Option, none, some, List, [], ◌∷◌, ◌++◌, map, ltb, nat_beq, if◌then◌else◌,
  or_else,
}
use smarty_trader.Prelude.Sort.{sort_by}
use smarty_trader.Float.{Float, ◌≤?◌, zero_f}
use smarty_trader.Models.{Ohlcv, Action}
use smarty_trader.Candles.{timeframe_delta}

pub record ReplayDecision (F : Type 0) : Type 0 where
  pub decided_at : ℕ
  pub symbol : String
  pub action : Action
  pub confidence : F
  pub stop_loss : Option F
  pub take_profit : Option F

pub data Payload (F : Type 0) : Type 0 where
  candle : String → Ohlcv F → Payload F
  decision : ReplayDecision F → Payload F

abbrev pub Event : Type 0 → Type 0
Event F = ℕ × Payload F

module _ {F : Type 0} where
  -- candles go before decisions of the same time
  abbrev pub order_of : Payload F → ℕ
  order_of (Payload.candle symbol c) = 0
  order_of (Payload.decision x) = 1

  -- Python compares the pairs `(time, order)`.
  unfoldable pub earlier : Event F → Event F → Bool
  earlier x y = if nat_beq x.0 y.0 then ltb (order_of x.1) (order_of y.1) else ltb x.0 y.0

module _ {F : Type 0} ⦃d : Float F⦄ where
  unfoldable pub candle_events : Option ℕ → String → List (Ohlcv F) → List (Event F)
  candle_events bar symbol [] = []
  candle_events bar symbol (c ∷ rest) =
      let others = candle_events bar symbol rest in
      elim c.timestamp [
        | none ↦ others
        | some opened ↦
            if c.close ≤? zero_f
            then others
            else (opened + or_else bar 0, Payload.candle symbol c) ∷ others
      ]

  unfoldable pub all_candles : Option ℕ → List (String × List (Ohlcv F)) → List (Event F)
  unfolding candle_events
  all_candles bar [] = []
  all_candles bar ((symbol, candles) ∷ rest) =
      candle_events bar symbol candles ++ all_candles bar rest

  unfoldable pub decision_events : List (ReplayDecision F) → List (Event F)
  decision_events decisions =
      map (λ (x : ReplayDecision F). (x.decided_at, Payload.decision x)) decisions

  unfoldable pub build_timeline :
      List (ReplayDecision F) → List (String × List (Ohlcv F)) → String → List (Event F)
  unfolding all_candles decision_events earlier
  build_timeline decisions candles timeframe =
      sort_by earlier (all_candles (timeframe_delta timeframe) candles ++ decision_events decisions)
