-- ===== src/Backtest/Tests.antt =====
-- A replay of one buy between two hourly bars.
use smarty_trader.Prelude.{ℕ, ◌+◌, ◌≤◌, ◌≡◌, refl, String, some, List, [], ◌∷◌, ◌++◌, All}
use smarty_trader.Prelude.Int.{ℤ, pos, ◌-ℤ◌, mul_ℤ, div_ℤ}
use smarty_trader.Float.{fixed}
use smarty_trader.Models.{Action, Ohlcv}
use smarty_trader.Candles.{timeframe_delta}
use smarty_trader.Backtest.Timeline.{
  ReplayDecision, Payload, Event, build_timeline, all_candles, candle_events, decision_events,
  earlier,
}
use smarty_trader.Backtest.Metrics.{max_drawdown, drawdown_from, dedupe_consecutive, dedupe_from}
use smarty_trader.Backtest.Sequence.{AllStand, IsLater, build_timeline-no_peek}

abbrev hour : ℕ
hour = 3_600_000_000

abbrev bar : ℕ → ℕ → Ohlcv ℤ
bar opened close = record {
  timestamp = some opened;
  open_price = fixed.of_ℕ close;
  high = fixed.of_ℕ close;
  low = fixed.of_ℕ close;
  close = fixed.of_ℕ close;
  volume = fixed.of_ℕ 1;
}

abbrev candles : List (String × List (Ohlcv ℤ))
candles = ("BTC", bar 0 100 ∷ bar hour 110 ∷ []) ∷ []

abbrev bought : ReplayDecision ℤ
bought = record {
  decided_at = hour;
  symbol = "BTC";
  action = Action.buy;
  confidence = pos 700_000_000_000;
  stop_loss = some (fixed.of_ℕ 95);
  take_profit = some (fixed.of_ℕ 120);
}

-- the bar that closes at the time of the decision is known to it, the next one is not
timeline :
    build_timeline (bought ∷ []) candles "1h"
    ≡ ((hour, Payload.candle "BTC" (bar 0 100)) ∷ [])
      ++ (hour, Payload.decision bought) ∷ (hour + hour, Payload.candle "BTC" (bar hour 110)) ∷ []
unfolding build_timeline all_candles candle_events decision_events earlier timeframe_delta
timeline = refl

build_timeline-no_peek_example :
    AllStand (timeframe_delta "1h") (build_timeline (bought ∷ []) candles "1h")
    × All (λ (e : Event ℤ). e.0 ≤ hour) ((hour, Payload.candle "BTC" (bar 0 100)) ∷ [])
    × All
        (λ (e : Event ℤ). IsLater hour e.0 e.1)
        ((hour + hour, Payload.candle "BTC" (bar hour 110)) ∷ [])
build_timeline-no_peek_example =
    build_timeline-no_peek (bought ∷ []) candles "1h"
      ((hour, Payload.candle "BTC" (bar 0 100)) ∷ [])
      ((hour + hour, Payload.candle "BTC" (bar hour 110)) ∷ []) hour bought timeline

fallen :
    max_drawdown {F = ℤ} (fixed.of_ℕ 100 ∷ fixed.of_ℕ 50 ∷ fixed.of_ℕ 80 ∷ []) ≡ pos 500_000_000_000
unfolding max_drawdown drawdown_from ◌-ℤ◌ mul_ℤ div_ℤ
fallen = refl

deduped :
    dedupe_consecutive {F = ℤ} ((1, fixed.of_ℕ 5) ∷ (1, fixed.of_ℕ 5) ∷ (2, fixed.of_ℕ 5) ∷ [])
    ≡ (1, fixed.of_ℕ 5) ∷ (2, fixed.of_ℕ 5) ∷ []
unfolding dedupe_consecutive dedupe_from ◌-ℤ◌
deduped = refl
