-- ===== src/Baselines/Tests.antt =====
-- The crossover on six closes.
use smarty_trader.Prelude.{ℕ, ◌≡◌, refl, none, some, List, [], ◌∷◌}
use smarty_trader.Prelude.Int.{ℤ, pos, ◌+ℤ◌, ◌-ℤ◌, mul_ℤ, div_ℤ}
use smarty_trader.Float.{fixed}
use smarty_trader.Models.{Ohlcv}
use smarty_trader.Baselines.{
  Baseline, ma_crossover_return, closes_of, crossover_loop, trade_bar, buy_and_hold_return,
  best_baseline,
}
use smarty_trader.Baselines.Windows.{described_return, ma_crossover_return-described}

abbrev bar : ℕ → Ohlcv ℤ
bar close = record {
  timestamp = none;
  open_price = fixed.of_ℕ close;
  high = fixed.of_ℕ close;
  low = fixed.of_ℕ close;
  close = fixed.of_ℕ close;
  volume = fixed.of_ℕ 1;
}

abbrev bars : List (Ohlcv ℤ)
bars = bar 10 ∷ bar 10 ∷ bar 20 ∷ bar 40 ∷ bar 20 ∷ bar 10 ∷ []

-- long from the bar that closes at 20 to the one that closes at 20 again: it doubles and halves
crossed : ma_crossover_return bars 1 2 (pos 0) ≡ Baseline.earned (pos 0)
unfolding ma_crossover_return closes_of crossover_loop trade_bar ◌+ℤ◌ ◌-ℤ◌ mul_ℤ div_ℤ
crossed = refl

held : buy_and_hold_return bars (pos 0) ≡ some (pos 0)
unfolding buy_and_hold_return closes_of ◌-ℤ◌ mul_ℤ div_ℤ
held = refl

best :
    best_baseline {F = ℤ} (("buy_and_hold", none) ∷ ("cash", some (pos 0)) ∷ [])
    ≡ some ("cash", pos 0)
unfolding best_baseline
best = refl

ma_crossover_return-described_example :
    ma_crossover_return bars 1 2 (pos 0) ≡ described_return bars 1 2 (pos 0)
ma_crossover_return-described_example = ma_crossover_return-described bars 1 2 (pos 0)
