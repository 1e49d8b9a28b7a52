-- ===== src/Watchlist.antt =====
-- src/core/watchlist.py, src/core/storage/watchlist.py and the runner's job around them: the capped
-- set of symbols that the screener adds to the configured ones, each for a limited time.
use smarty_trader.Prelude.{
  ℕ, ◌+◌, ◌-◌, ◌≡◌, Bool, true, false, ◌||◌, ◌&&◌, not, String, Option, none, some, List, [], ◌∷◌,
  ◌++◌, map, length, select, any, leb, ltb, ◌==◌, string_eq, if◌then◌else◌,
}
use smarty_trader.Prelude.Dict.{Dict}
use smarty_trader.Prelude.Keys.{member, from_keys}
use smarty_trader.Prelude.Slices.{take}
use smarty_trader.Float.{Float}
use smarty_trader.Models.{Ohlcv}
use smarty_trader.Candles.{closed_bars}
use smarty_trader.Screener.{
  Statistics, ScreenMetrics, ScreenedSymbol, Screening, filter_by_liquidity, compute_screen_metrics,
  rank_candidates, prioritize_mentioned,
}
pub mod Table
pub mod Traded
pub mod Pinned
pub mod Capped
pub mod Admitted
mod Tests

pub record WatchlistSettings (F : Type 0) : Type 0 where
  pub max_dynamic_symbols : ℕ
  -- `timedelta(hours=ttl_hours)`
  pub ttl : ℕ
  pub min_quote_volume_24h : F
  pub momentum_days : ℕ
  pub lookback_days : ℕ
  pub min_daily_volatility : F
  pub max_daily_volatility : Option F
  pub max_candidates : ℕ
  pub exclude_symbols : List String
  pub min_mentions : ℕ

-- Where a call can raise, `none` is the exception; a missing method has a constructor of its own.
pub data VolumesAnswer (F : Type 0) : Type 0 where
  no_volumes_method volumes_failed not_a_mapping : VolumesAnswer F
  volumes : Dict String (Option F) → VolumesAnswer F

pub data TradableAnswer : Type 0 where
  no_limit lookup_failed : TradableAnswer
  only : List String → TradableAnswer

pub data MentionsAnswer : Type 0 where
  no_counter count_failed : MentionsAnswer
  counted : Dict String ℕ → MentionsAnswer

-- What the provider, the venue and the news store answer during one refresh.
pub record Surroundings (F : Type 0) : Type 0 where
  pub fetch_quote_volumes : VolumesAnswer F
  pub tradable_symbols : TradableAnswer
  -- `none` outside is a provider without the method
  pub fetch_snapshot : Option (String → Option (List (Ohlcv F)))
  pub count_mentions : List String → MentionsAnswer
  -- `str.upper`
  pub upper : String → String

pub data RefreshFailure : Type 0 where
  storage_read_failed screener_failed entry_write_failed : RefreshFailure

-- the venue's list, where there is one, or none where the lookup fails
unfoldable pub limit_of : TradableAnswer → Option (Option (List String))
limit_of TradableAnswer.no_limit = some none
limit_of TradableAnswer.lookup_failed = none
limit_of (TradableAnswer.only names) = some (some names)

unfoldable pub passes_limit : (String → String) → Option (List String) → String → Bool
passes_limit upper none symbol = true
passes_limit upper (some names) symbol = member (upper symbol) (map upper names)

module _ {F : Type 0} ⦃d : Float F⦄ ⦃s : Statistics F⦄ where
  -- the candidates that `fetch_snapshot` and the metrics leave, in order
  unfoldable pub measured :
      WatchlistSettings F
      → ℕ
      → (String → Option (List (Ohlcv F)))
      → List (String × F)
      → List (String × F × ScreenMetrics F)
  measured cfg now fetch [] = []
  measured cfg now fetch ((symbol, volume) ∷ rest) =
      let others = measured cfg now fetch rest in
      elim (fetch symbol) [
        | none ↦ others
        | some candles ↦
            elim (compute_screen_metrics (closed_bars candles (some 86_400_000_000) now)
              cfg.momentum_days cfg.lookback_days) [
                | Screening.screened metrics ↦ (symbol, volume, metrics) ∷ others
                | Screening.invalid_window ↦ others
                | Screening.too_short ↦ others
              ]
      ]

  unfoldable pub is_allowed :
      Surroundings F → List String → Option (List String) → String × F → Bool
  unfolding passes_limit
  is_allowed w excluded tradable candidate =
      not (member (w.upper candidate.0) excluded) && passes_limit w.upper tradable candidate.0

  unfoldable pub liquid_candidates :
      WatchlistSettings F
      → Surroundings F
      → List String
      → Dict String (Option F)
      → Option (List String)
      → List (String × F)
  unfolding is_allowed
  liquid_candidates cfg w pinned quoted tradable = take cfg.max_candidates (
      select (is_allowed w (map w.upper (cfg.exclude_symbols ++ pinned)) tradable)
        (filter_by_liquidity quoted cfg.min_quote_volume_24h))

  -- the candidates from the ticker's volumes on; a lookup or a method that fails is none
  unfoldable pub screen_quoted :
      WatchlistSettings F
      → Surroundings F
      → List String
      → ℕ
      → Dict String (Option F)
      → Option (Option (List String))
      → Option (String → Option (List (Ohlcv F)))
      → Option (List (ScreenedSymbol F))
  unfolding measured liquid_candidates
  screen_quoted cfg w pinned now quoted none snapshots = none
  screen_quoted cfg w pinned now quoted (some tradable) none = none
  screen_quoted cfg w pinned now quoted (some tradable) (some fetch) = some (
      rank_candidates (measured cfg now fetch (liquid_candidates cfg w pinned quoted tradable))
        cfg.min_daily_volatility cfg.max_daily_volatility)

  unfoldable pub screen_answered :
      WatchlistSettings F
      → Surroundings F
      → List String
      → ℕ
      → VolumesAnswer F
      → Option (List (ScreenedSymbol F))
  unfolding limit_of screen_quoted
  screen_answered cfg w pinned now VolumesAnswer.no_volumes_method = none
  screen_answered cfg w pinned now VolumesAnswer.volumes_failed = none
  screen_answered cfg w pinned now VolumesAnswer.not_a_mapping = none
  screen_answered cfg w pinned now (VolumesAnswer.volumes quoted) =
      screen_quoted cfg w pinned now quoted (limit_of w.tradable_symbols) w.fetch_snapshot

  -- `_screen`, for the core and held symbols in turn
  unfoldable pub screen :
      WatchlistSettings F → Surroundings F → List String → ℕ → Option (List (ScreenedSymbol F))
  unfolding screen_answered
  screen cfg w pinned now = screen_answered cfg w pinned now w.fetch_quote_volumes

  unfoldable pub prioritized_by :
      WatchlistSettings F → MentionsAnswer → List (ScreenedSymbol F) → List (ScreenedSymbol F)
  prioritized_by cfg MentionsAnswer.no_counter cs = cs
  prioritized_by cfg MentionsAnswer.count_failed cs = cs
  prioritized_by cfg (MentionsAnswer.counted mentions) cs =
      prioritize_mentioned cs mentions cfg.min_mentions

  -- `_prioritize_mentioned`
  unfoldable pub prioritized :
      WatchlistSettings F → Surroundings F → List (ScreenedSymbol F) → List (ScreenedSymbol F)
  unfolding prioritized_by
  prioritized cfg w [] = []
  prioritized cfg w (c ∷ cs) =
      prioritized_by cfg (w.count_mentions (map (λ x. x.symbol) (c ∷ cs))) (c ∷ cs)
