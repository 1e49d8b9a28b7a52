-- ===== src/Screener.antt =====
-- src/analysis/screener.py: the universe of symbols, chosen without a model: a liquidity floor, a
-- volatility band and a ranking by momentum.
use smarty_trader.Prelude.{
  ℕ, suc, zero, ◌+◌, ◌-◌, ◌≡◌, Bool, true, false, ◌||◌, ◌&&◌, not, String, Option, none, some, List,
  [], ◌∷◌, map, length, last?, select, leb, ltb, if◌then◌else◌, string_eq,
}
use smarty_trader.Prelude.Dict.{Dict, get_or}
use smarty_trader.Prelude.Sort.{sort_by, false_first}
use smarty_trader.Prelude.Slices.{head?, take_last, but_last}
use smarty_trader.Prelude.Texts.{text_before}
use smarty_trader.Float.{Float, ◌⊕◌, ◌⊖◌, ◌⊗◌, ◌⊘◌, ◌<?◌, ◌≤?◌, ◌=?◌, zero_f, one_f, sum_f}
use smarty_trader.Models.{Ohlcv}
pub mod Ranking

-- the standard library's `statistics`, over the floats
pub record Statistics (F : Type 0) : Type 0 where
  pub pstdev : List F → F

pub record ScreenMetrics (F : Type 0) : Type 0 where
  pub momentum : F
  pub daily_volatility : F
  pub volume_spike : Option F

pub record ScreenedSymbol (F : Type 0) : Type 0 where
  pub symbol : String
  pub quote_volume_24h : F
  pub metrics : ScreenMetrics F
  pub rank : ℕ
  pub news_mentions : ℕ

-- Where `compute_screen_metrics` raises its ValueError the outcome is `invalid_window`.
pub data Screening (F : Type 0) : Type 0 where
  invalid_window too_short : Screening F
  screened : ScreenMetrics F → Screening F

module _ {F : Type 0} ⦃d : Float F⦄ where
  -- The test of `filter_by_liquidity`. A missing volume is `none`.
  unfoldable pub is_liquid : F → String × Option F → Bool
  is_liquid floor (symbol, none) = false
  is_liquid floor (symbol, some volume) = zero_f <? volume && floor ≤? volume

  -- Python compares the pairs `(-volume, symbol)`: by the first parts unless these are equal.
  unfoldable pub by_volume : String × F → String × F → Bool
  by_volume x y = if d.neg x.1 =? d.neg y.1 then text_before x.0 y.0 else d.neg x.1 <? d.neg y.1

  unfoldable pub kept_volumes : F → Dict String (Option F) → List (String × F)
  unfolding is_liquid
  kept_volumes floor [] = []
  kept_volumes floor ((symbol, none) ∷ rest) = kept_volumes floor rest
  kept_volumes floor ((symbol, some volume) ∷ rest) =
      let kept = kept_volumes floor rest in
      if is_liquid floor (symbol, some volume) then (symbol, volume) ∷ kept else kept

  unfoldable pub filter_by_liquidity : Dict String (Option F) → F → List (String × F)
  filter_by_liquidity volumes floor = sort_by by_volume (kept_volumes floor volumes)

  -- the close-to-close returns of a window; a close that is not positive earns none
  unfoldable pub returns_of : List F → List F
  returns_of [] = []
  returns_of (earlier ∷ []) = []
  returns_of (earlier ∷ later ∷ rest) =
      let others = returns_of (later ∷ rest) in
      if zero_f <? earlier then (later ⊘ earlier ⊖ one_f) ∷ others else others

  -- `prior = volumes[-(lookback_days + 1):-1] or volumes[:-1]`
  unfoldable pub prior_volumes : ℕ → List F → List F
  prior_volumes lookback volumes =
      let prior = but_last (take_last (lookback + 1) volumes) in
      if leb (length prior) 0 then but_last volumes else prior

  unfoldable pub spike_of : ℕ → List F → Option F
  unfolding prior_volumes
  spike_of lookback volumes =
      let prior = prior_volumes lookback volumes in
      let mean = sum_f prior ⊘ d.of_ℕ (length prior) in
      if leb 3 (length volumes) && zero_f <? mean
      then elim (last? volumes) [ none ↦ none | some latest ↦ some (latest ⊘ mean) ]
      else none

  module _ ⦃s : Statistics F⦄ where
    -- the metrics of a window whose reference close and last close are known
    unfoldable pub metrics_of : ℕ → List F → List F → F → F → Screening F
    unfolding returns_of spike_of
    metrics_of lookback volumes window reference latest =
        let returns = returns_of window in
        if reference ≤? zero_f || ltb (length returns) 2
        then Screening.too_short
        else Screening.screened (record {
          momentum = latest ⊘ reference ⊖ one_f;
          daily_volatility = s.pstdev returns;
          volume_spike = spike_of lookback volumes;
        })

    -- `window[-(momentum_days + 1)]` and `window[-1]`: a window that is long enough has both.
    unfoldable pub metrics_between : ℕ → List F → List F → Option F → Option F → Screening F
    unfolding metrics_of
    metrics_between lookback volumes window (some reference) (some latest) =
        metrics_of lookback volumes window reference latest
    metrics_between lookback volumes window none latest = Screening.too_short
    metrics_between lookback volumes window (some reference) none = Screening.too_short

    unfoldable pub compute_screen_metrics : List (Ohlcv F) → ℕ → ℕ → Screening F
    unfolding metrics_between
    compute_screen_metrics candles momentum_days lookback_days =
        let closes = map (λ c. c.close) candles in
        let window = take_last (lookback_days + 1) closes in
        if ltb momentum_days 1 || ltb lookback_days 2
        then Screening.invalid_window
        else if ltb (length window) (momentum_days + 2)
        then Screening.too_short
        else metrics_between lookback_days (map (λ c. c.volume) candles) window
            (head? (take_last (momentum_days + 1) window)) (last? window)

  -- The counts are written to the candidates first, then a stable sort moves those that are
  -- mentioned too seldom behind the others.
  unfoldable pub note_mentions : Dict String ℕ → ScreenedSymbol F → ScreenedSymbol F
  note_mentions mentions c = record c { news_mentions = get_or c.symbol 0 mentions }

  unfoldable pub is_unmentioned : ℕ → ScreenedSymbol F → Bool
  is_unmentioned min_mentions c = ltb c.news_mentions min_mentions

  unfoldable pub prioritize_mentioned :
      List (ScreenedSymbol F) → Dict String ℕ → ℕ → List (ScreenedSymbol F)
  unfolding note_mentions is_unmentioned
  prioritize_mentioned ranked mentions min_mentions =
      sort_by (false_first (is_unmentioned min_mentions)) (map (note_mentions mentions) ranked)

  abbrev pub above : Option F → F → Bool
  above none x = false
  above (some limit) x = limit <? x

  unfoldable pub in_band : F → Option F → ScreenMetrics F → Bool
  in_band least most m = not (m.daily_volatility <? least) && not (above most m.daily_volatility)

  unfoldable pub passed_band :
      F → Option F → List (String × F × ScreenMetrics F) → List (ScreenedSymbol F)
  unfolding in_band
  passed_band least most [] = []
  passed_band least most ((symbol, volume, metrics) ∷ rest) =
      let passed = passed_band least most rest in
      if in_band least most metrics
      then record {
        symbol = symbol;
        quote_volume_24h = volume;
        metrics = metrics;
        rank = 0;
        news_mentions = 0;
      }
        ∷ passed
      else passed

  -- Python compares the triples `(-momentum, -volume, symbol)`.
  unfoldable pub by_momentum : ScreenedSymbol F → ScreenedSymbol F → Bool
  by_momentum x y =
      if d.neg x.metrics.momentum =? d.neg y.metrics.momentum
      then (if d.neg x.quote_volume_24h =? d.neg y.quote_volume_24h
          then text_before x.symbol y.symbol
          else d.neg x.quote_volume_24h <? d.neg y.quote_volume_24h)
      else d.neg x.metrics.momentum <? d.neg y.metrics.momentum

  -- `for position, screened in enumerate(passed, start)`
  unfoldable pub ranked_from : ℕ → List (ScreenedSymbol F) → List (ScreenedSymbol F)
  ranked_from start [] = []
  ranked_from start (c ∷ cs) = record c { rank = start } ∷ ranked_from (suc start) cs

  unfoldable pub rank_candidates :
      List (String × F × ScreenMetrics F) → F → Option F → List (ScreenedSymbol F)
  unfolding passed_band by_momentum ranked_from
  rank_candidates candidates least most =
      ranked_from 1 (sort_by by_momentum (passed_band least most candidates))
