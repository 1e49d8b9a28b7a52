-- ===== src/Watchlist/Tests.antt =====
-- Runs of the screener and the watchlist on two quoted symbols, and each theorem at a concrete
-- input.
use smarty_trader.Prelude.{
  ℕ, ◌*◌, ◌≡◌, refl, true, false, ◌||◌, String, none, some, List, [], ◌∷◌, ◌++◌, map, select, arith,
  string_eq, length,
}
use mathlib.Core.List.{Perm}
use smarty_trader.Prelude.Int.{ℤ, ◌+ℤ◌, ◌-ℤ◌, mul_ℤ, div_ℤ}
use smarty_trader.Prelude.Keys.{from_keys, NoRepeats, member}
use smarty_trader.Float.{fixed, fixed-ReversesOrder, sum_f}
use smarty_trader.Models.{Ohlcv}
use smarty_trader.Candles.{timeframe_delta, closed_bars}
use smarty_trader.Screener.{
  Statistics, ScreenMetrics, ScreenedSymbol, compute_screen_metrics, in_band, filter_by_liquidity,
  kept_volumes, is_liquid, by_volume, passed_band, ranked_from, rank_candidates, by_momentum,
  prioritize_mentioned, note_mentions, is_unmentioned, metrics_between, metrics_of, returns_of,
  spike_of, prior_volumes,
}
use smarty_trader.Screener.Ranking.{
  Numbered, Descending, triple, rank_candidates-ranked, prioritize_mentioned-ahead, mentioned,
  unnamed,
}
use smarty_trader.Watchlist.{
  WatchlistSettings, Surroundings, VolumesAnswer, TradableAnswer, MentionsAnswer, screen,
  prioritized, measured, is_allowed, limit_of, passes_limit, liquid_candidates, screen_quoted,
  screen_answered, prioritized_by,
}
use smarty_trader.Watchlist.Table.{
  WatchlistEntry, Faults, fill_slots, list_candidate, upsert_watchlist_entry, delete_expired,
  get_active_watchlist,
}
use smarty_trader.Watchlist.Traded.{
  TradedSet, Refreshed, WatchlistRefreshResult, refresh, refresh_live, fill_ranked,
}
use smarty_trader.Watchlist.Pinned.{refresh-pinned}
use smarty_trader.Watchlist.Capped.{Job, run_jobs, run_jobs-IsCapped, IsCapped}
use smarty_trader.Watchlist.Admitted.{AddedOnly, IsAdmitted, refresh-added}

-- a concrete function in the place of the standard deviation: the mean of the returns
instance abbrev mean_of : Statistics ℤ
mean_of = record { pstdev = λ xs. fixed.div (sum_f xs) (fixed.of_ℕ (length xs)) }

five_minutes : timeframe_delta " 5m\n" ≡ some 300_000_000
unfolding timeframe_delta
five_minutes = refl

no_timeframe : timeframe_delta "5x" ≡ none
unfolding timeframe_delta
no_timeframe = refl

abbrev whole : ℕ → ℤ
whole n = fixed.of_ℕ n

abbrev bar : ℕ → ℕ → Ohlcv ℤ
bar day close = record {
  timestamp = some (day * 86_400_000_000);
  open_price = whole close;
  high = whole close;
  low = whole close;
  close = whole close;
  volume = whole 10;
}

abbrev bars : List (Ohlcv ℤ)
bars = bar 0 100 ∷ bar 1 110 ∷ bar 2 120 ∷ bar 3 150 ∷ []

abbrev world : Surroundings ℤ
world = record {
  fetch_quote_volumes = VolumesAnswer.volumes (
      ("BTC/EUR", some (whole 900))
      ∷ ("ADA/EUR", some (whole 500))
      ∷ ("XRP/EUR", some (whole 700))
      ∷ ("DOT/EUR", none)
      ∷ []);
  tradable_symbols = TradableAnswer.no_limit;
  fetch_snapshot = some λ symbol. some bars;
  count_mentions = λ symbols. MentionsAnswer.counted (("ADA/EUR", 3) ∷ []);
  upper = λ x. x;
}

abbrev cfg : WatchlistSettings ℤ
cfg = record {
  max_dynamic_symbols = 1;
  ttl = 1_000_000;
  min_quote_volume_24h = whole 100;
  momentum_days = 1;
  lookback_days = 3;
  min_daily_volatility = whole 0;
  max_daily_volatility = none;
  max_candidates = 20;
  exclude_symbols = [];
  min_mentions = 2;
}

abbrev sound : Faults
sound = record { delete_fails = false; read_fails = false; write_fails = λ x. false }

abbrev core : List String
core = "BTC/EUR" ∷ []

abbrev held : List String
held = "ETH/EUR" ∷ []

abbrev screened_now : List (ScreenedSymbol ℤ)
screened_now = elim (screen cfg world (from_keys core ++ from_keys held) 400_000_000_000) [
  | none ↦ []
  | some ranked ↦ ranked
]

names_screened : map (λ c. c.symbol) screened_now ≡ "XRP/EUR" ∷ "ADA/EUR" ∷ []
unfolding screen screen_answered screen_quoted limit_of passes_limit measured is_allowed
    liquid_candidates filter_by_liquidity kept_volumes is_liquid by_volume passed_band ranked_from
    rank_candidates by_momentum in_band compute_screen_metrics metrics_between metrics_of returns_of
    spike_of prior_volumes closed_bars ◌+ℤ◌ ◌-ℤ◌ mul_ℤ div_ℤ
names_screened = refl

is_screened :
    screen cfg world (from_keys core ++ from_keys held) 400_000_000_000 ≡ some screened_now
unfolding screen screen_answered screen_quoted limit_of
is_screened = refl

abbrev first_pass : List WatchlistEntry × Refreshed
first_pass = refresh cfg world sound core held 400_000_000_000 []

-- the mentioned candidate is the one that gets the only slot
rows_after : first_pass.0 ≡ record { symbol = "ADA/EUR"; expires_at = 400_001_000_000 } ∷ []
unfolding refresh refresh_live fill_ranked fill_slots list_candidate upsert_watchlist_entry
    delete_expired get_active_watchlist prioritized prioritized_by prioritize_mentioned
    note_mentions is_unmentioned screen screen_answered screen_quoted limit_of passes_limit measured
    is_allowed liquid_candidates filter_by_liquidity kept_volumes is_liquid by_volume passed_band
    ranked_from rank_candidates by_momentum in_band compute_screen_metrics metrics_between
    metrics_of returns_of spike_of prior_volumes closed_bars ◌+ℤ◌ ◌-ℤ◌ mul_ℤ div_ℤ
rows_after = refl

refresh-pinned_example :
    (r : WatchlistRefreshResult) × ((refresh cfg world sound core held 400_000_000_000 []).1
      ≡ Refreshed.refreshed r)
    × NoRepeats r.symbols
    × ((x : String) → member x r.symbols ≡ (member x core || member x r.dynamic || member x held))
refresh-pinned_example =
    refresh-pinned cfg world sound core held 400_000_000_000 [] screened_now refl refl (λ x. refl)
      is_screened

refresh-added_example :
    AddedOnly cfg world sound
      (IsAdmitted cfg world (from_keys core ++ from_keys held) 400_000_000_000)
      first_pass.1
refresh-added_example = refresh-added cfg world sound core held 400_000_000_000 []

abbrev empty_set : TradedSet
empty_set = record { rows = []; symbols = core; watchlist_extras = [] }

abbrev jobs : List (Job cfg)
jobs =
    record {
      surroundings = world;
      faults = sound;
      core = core;
      held = some held;
      now = 400_000_000_000;
    }
    ∷ record {
      surroundings = world;
      faults = record sound { write_fails = λ x. true };
      core = core;
      held = some [];
      now = 500_000_000_000;
    }
    ∷ []

run_jobs-IsCapped_example : IsCapped 1 (run_jobs cfg jobs empty_set).rows
run_jobs-IsCapped_example = run_jobs-IsCapped cfg jobs empty_set (tt, omega arith)

abbrev flat : ℕ → ScreenMetrics ℤ
flat m = record { momentum = whole m; daily_volatility = whole m; volume_spike = none }

abbrev triples : List (String × ℤ × ScreenMetrics ℤ)
triples = ("A", whole 5, flat 1) ∷ ("B", whole 5, flat 3) ∷ ("C", whole 5, flat 9) ∷ []

rank_candidates-ranked_example :
    let ranked = rank_candidates triples (whole 0) (some (whole 4)) in
    Perm (map triple ranked) (select (λ c. in_band (whole 0) (some (whole 4)) c.2) triples)
    × Numbered 1 ranked
    × Descending ranked
rank_candidates-ranked_example =
    rank_candidates-ranked fixed-ReversesOrder triples (whole 0) (some (whole 4))

prioritize_mentioned-ahead_example :
    prioritize_mentioned screened_now (("ADA/EUR", 3) ∷ []) 2
    ≡ mentioned (("ADA/EUR", 3) ∷ []) 2 screened_now ++ unnamed (("ADA/EUR", 3) ∷ []) 2 screened_now
prioritize_mentioned-ahead_example = prioritize_mentioned-ahead screened_now (("ADA/EUR", 3) ∷ []) 2
