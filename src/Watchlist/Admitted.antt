-- ===== src/Watchlist/Admitted.antt =====
-- What a symbol has to be before the manager adds it.
use smarty_trader.Prelude.{
  ℕ, zero, suc, ◌+◌, ◌≡◌, refl, ◌⊎◌, inl, inr, true, false, ◌||◌, String, Option, none, some, List,
  [], ◌∷◌, ◌++◌, map, length, select, All, All-append, string_eq, arith, if_both, if_cases,
  option_both, select-All, map-All, All-map,
}
use smarty_trader.Prelude.Dict.{Dict}
use smarty_trader.Prelude.Keys.{member, from_keys}
use smarty_trader.Prelude.Sort.{sort_by-All, false_first}
use smarty_trader.Prelude.Slices.{take-All}
use smarty_trader.Float.{Float, ◌≺◌, ◌≼◌, zero_f}
use smarty_trader.Models.{Ohlcv}
use smarty_trader.Candles.{closed_bars}
use smarty_trader.Screener.{
  Statistics, ScreenMetrics, ScreenedSymbol, Screening, compute_screen_metrics, in_band,
  filter_by_liquidity, kept_volumes, is_liquid, by_volume, passed_band, ranked_from,
  rank_candidates, by_momentum, prioritize_mentioned, note_mentions, is_unmentioned,
}
use smarty_trader.Watchlist.{
  WatchlistSettings, Surroundings, VolumesAnswer, TradableAnswer, MentionsAnswer, screen,
  prioritized, measured, is_allowed, limit_of, passes_limit, screen_quoted, screen_answered,
  prioritized_by, liquid_candidates,
}
use smarty_trader.Watchlist.Table.{WatchlistEntry, Faults, Filled, list_candidate, fill_slots}
use smarty_trader.Watchlist.Traded.{
  Refreshed, result_of, filled_with, fill_ranked, refresh_live, refresh,
}

-- the ticker quotes this volume for the symbol
module _ {F : Type 0} where
  abbrev pub Quotes : Dict String (Option F) → String → F → Type 0
  Quotes [] x v = ⊥
  Quotes ((k, o) ∷ rest) x v = ((k ≡ x) × (o ≡ some v)) ⊎ Quotes rest x v

abbrev pub IsTradable : (String → String) → TradableAnswer → String → Type 0
IsTradable upper TradableAnswer.no_limit x = Unit
IsTradable upper TradableAnswer.lookup_failed x = ⊥
IsTradable upper (TradableAnswer.only names) x = member (upper x) (map upper names) ≡ true

-- the loop adds nothing but candidates
fill_slots-added :
    (P : String → Type 0) (f : Faults) (core : List String) (expires : ℕ) (cs : List String)
    (slots : ℕ) (t : Filled)
    → All P t.added
    → All P cs
    → All P (fill_slots f core expires cs slots t).added
unfolding fill_slots list_candidate
fill_slots-added P f core expires cs zero t h k = h
fill_slots-added P f core expires [] (suc slots) t h k = h
fill_slots-added P f core expires (c ∷ cs) (suc slots) t h k =
    if_both {A = Filled} (λ x. All P x.added) (member c core || member c t.dynamic) _
      (fill_slots-added P f core expires cs (suc slots) t h k.1)
      (if_both {A = Filled} (λ x. All P x.added) (f.write_fails c) _ h
        (fill_slots-added P f core expires cs slots (list_candidate expires c t)
          (All-append P t.added (c ∷ []) h (k.0, tt)) k.1))

IsTradable-of_limit :
    (upper : String → String) (a : TradableAnswer) (tradable : Option (List String)) (x : String)
    → limit_of a ≡ some tradable
    → passes_limit upper tradable x ≡ true
    → IsTradable upper a x
unfolding limit_of passes_limit
IsTradable-of_limit upper TradableAnswer.no_limit tradable x h k = tt
IsTradable-of_limit upper TradableAnswer.lookup_failed tradable x h k = ground arith
IsTradable-of_limit upper (TradableAnswer.only names) none x h k = absurd (ground arith)
IsTradable-of_limit upper (TradableAnswer.only names) (some others) x h k = ground arith

module _ {F : Type 0} ⦃d : Float F⦄ ⦃s : Statistics F⦄ (cfg : WatchlistSettings F)
    (w : Surroundings F) (pinned : List String) (now : ℕ) where
  abbrev day : Option ℕ
  day = some 86_400_000_000

  -- the floor, the exclusions and the venue's list let the symbol through
  pub record IsLiquid (x : String) (v : F) : Type 0 where
    pub quoted : Dict String (Option F)
    pub is_answer : w.fetch_quote_volumes ≡ VolumesAnswer.volumes quoted
    pub is_quoted : Quotes quoted x v
    pub is_positive : zero_f ≺ v
    pub clears_floor : cfg.min_quote_volume_24h ≼ v
    pub not_excluded : member (w.upper x) (map w.upper (cfg.exclude_symbols ++ pinned)) ≡ false
    pub is_tradable : IsTradable w.upper w.tradable_symbols x

  -- Its closed daily candles have metrics within the volatility band, too.
  pub record IsAdmitted (x : String) : Type 0 where
    pub volume : F
    pub is_liquid : IsLiquid x volume
    pub fetch : String → Option (List (Ohlcv F))
    pub candles : List (Ohlcv F)
    pub metrics : ScreenMetrics F
    pub is_method : w.fetch_snapshot ≡ some fetch
    pub is_fetched : fetch x ≡ some candles
    pub is_screened :
        compute_screen_metrics (closed_bars candles day now) cfg.momentum_days cfg.lookback_days
        ≡ Screening.screened metrics
    pub is_in_band : in_band cfg.min_daily_volatility cfg.max_daily_volatility metrics ≡ true

  module _ (quoted : Dict String (Option F)) where
    abbrev HasVolume : String × F → Type 0
    HasVolume c = Quotes quoted c.0 c.1 × (zero_f ≺ c.1) × (cfg.min_quote_volume_24h ≼ c.1)

    kept_volumes-All :
        (rest : Dict String (Option F))
        → ((x : String) (v : F) → Quotes rest x v → Quotes quoted x v)
        → All HasVolume (kept_volumes cfg.min_quote_volume_24h rest)
    unfolding kept_volumes is_liquid
    kept_volumes-All [] h = tt
    kept_volumes-All ((k, none) ∷ rest) h = kept_volumes-All rest λ x v q. h x v (inr q)
    kept_volumes-All ((k, some v) ∷ rest) h =
        let others = kept_volumes-All rest λ x w q. h x w (inr q) in
        if_cases (All HasVolume) (is_liquid cfg.min_quote_volume_24h (k, some v))
          (λ e. ((h k v (inl (refl, refl)), ground arith, ground arith), others)) (λ _. others)

  abbrev Liquid : String × F → Type 0
  Liquid c = IsLiquid c.0 c.1

  IsLiquid-of_allowed :
      (quoted : Dict String (Option F)) (tradable : Option (List String)) (c : String × F)
      → w.fetch_quote_volumes ≡ VolumesAnswer.volumes quoted
      → limit_of w.tradable_symbols ≡ some tradable
      → HasVolume quoted c
      → is_allowed w (map w.upper (cfg.exclude_symbols ++ pinned)) tradable c ≡ true
      → Liquid c
  unfolding is_allowed
  IsLiquid-of_allowed quoted tradable c e l h a = record {
    quoted = quoted;
    is_answer = e;
    is_quoted = h.0;
    is_positive = h.1;
    clears_floor = h.2;
    not_excluded = ground arith;
    is_tradable = IsTradable-of_limit w.upper w.tradable_symbols tradable c.0 l (ground arith);
  }

  liquid_candidates-All :
      (quoted : Dict String (Option F)) (tradable : Option (List String))
      → w.fetch_quote_volumes ≡ VolumesAnswer.volumes quoted
      → limit_of w.tradable_symbols ≡ some tradable
      → All Liquid (liquid_candidates cfg w pinned quoted tradable)
  unfolding liquid_candidates filter_by_liquidity
  liquid_candidates-All quoted tradable e l =
      let allowed = is_allowed w (map w.upper (cfg.exclude_symbols ++ pinned)) tradable in
      let sorted = filter_by_liquidity quoted cfg.min_quote_volume_24h in
      let volumes =
        sort_by-All by_volume (HasVolume quoted) _ (kept_volumes-All quoted quoted λ x v q. q) in
      take-All Liquid cfg.max_candidates (select allowed sorted) (
        All-map Liquid (select allowed sorted)
          (λ c h. IsLiquid-of_allowed quoted tradable c e l h.0 h.1)
          (select-All (HasVolume quoted) allowed sorted volumes))

  -- a candidate with metrics, before the band
  abbrev Measured : String × F × ScreenMetrics F → Type 0
  Measured c =
      IsLiquid c.0 c.1
      × (fetch : String → Option (List (Ohlcv F))) × (candles : List (Ohlcv F)) × (w.fetch_snapshot
          ≡ some fetch)
      × (fetch c.0 ≡ some candles)
      × (compute_screen_metrics (closed_bars candles day now) cfg.momentum_days cfg.lookback_days
          ≡ Screening.screened c.2)

  screened-All :
      (c : String × F) (o : Screening F) (others : List (String × F × ScreenMetrics F))
      → ((m : ScreenMetrics F) → o ≡ Screening.screened m → Measured (c.0, c.1, m))
      → All Measured others
      → All Measured (elim o [
        | Screening.screened metrics ↦ (c.0, c.1, metrics) ∷ others
        | Screening.invalid_window ↦ others
        | Screening.too_short ↦ others
      ])
  screened-All c (Screening.screened m) others h k = (h m refl, k)
  screened-All c Screening.invalid_window others h k = k
  screened-All c Screening.too_short others h k = k

  measured-All :
      (fetch : String → Option (List (Ohlcv F))) (cs : List (String × F))
      → w.fetch_snapshot ≡ some fetch
      → All Liquid cs
      → All Measured (measured cfg now fetch cs)
  unfolding measured
  measured-All fetch [] e h = tt
  measured-All fetch (c ∷ cs) e h =
      let others = measured-All fetch cs e h.1 in
      option_both (All Measured) (fetch c.0) (λ _. others)
        λ candles k.
          screened-All c
            (compute_screen_metrics (closed_bars candles day now) cfg.momentum_days
              cfg.lookback_days)
            _ (λ m q. (h.0, fetch, candles, e, k, q)) others

  abbrev Admitted : ScreenedSymbol F → Type 0
  Admitted c = IsAdmitted c.symbol

  passed_band-All :
      (cs : List (String × F × ScreenMetrics F))
      → All Measured cs
      → All Admitted (passed_band cfg.min_daily_volatility cfg.max_daily_volatility cs)
  unfolding passed_band
  passed_band-All [] h = tt
  passed_band-All (c ∷ cs) h =
      let others = passed_band-All cs h.1 in
      if_cases (All Admitted) (in_band cfg.min_daily_volatility cfg.max_daily_volatility c.2)
        (λ e. (
          record {
            volume = c.1;
            is_liquid = h.0.0;
            fetch = h.0.1;
            candles = h.0.2;
            metrics = c.2;
            is_method = h.0.3;
            is_fetched = h.0.4;
            is_screened = h.0.5;
            is_in_band = e;
          },
          others,
        ))
        (λ _. others)

  ranked_from-All :
      (n : ℕ) (cs : List (ScreenedSymbol F)) → All Admitted cs → All Admitted (ranked_from n cs)
  unfolding ranked_from
  ranked_from-All n [] h = tt
  ranked_from-All n (c ∷ cs) h = (h.0, ranked_from-All (suc n) cs h.1)

  abbrev AllRanked : Option (List (ScreenedSymbol F)) → Type 0
  AllRanked none = Unit
  AllRanked (some cs) = All Admitted cs

  screen_quoted-All :
      (quoted : Dict String (Option F)) (limit : Option (Option (List String)))
      (snapshots : Option (String → Option (List (Ohlcv F))))
      → w.fetch_quote_volumes ≡ VolumesAnswer.volumes quoted
      → limit_of w.tradable_symbols ≡ limit
      → w.fetch_snapshot ≡ snapshots
      → AllRanked (screen_quoted cfg w pinned now quoted limit snapshots)
  unfolding screen_quoted rank_candidates
  screen_quoted-All quoted none snapshots e l m = tt
  screen_quoted-All quoted (some tradable) none e l m = tt
  screen_quoted-All quoted (some tradable) (some fetch) e l m = ranked_from-All 1 _ (
      sort_by-All by_momentum Admitted _
        (passed_band-All _ (measured-All fetch _ m (liquid_candidates-All quoted tradable e l))))

  screen_answered-All :
      (a : VolumesAnswer F)
      → w.fetch_quote_volumes ≡ a
      → AllRanked (screen_answered cfg w pinned now a)
  unfolding screen_answered
  screen_answered-All VolumesAnswer.no_volumes_method e = tt
  screen_answered-All VolumesAnswer.volumes_failed e = tt
  screen_answered-All VolumesAnswer.not_a_mapping e = tt
  screen_answered-All (VolumesAnswer.volumes quoted) e =
      screen_quoted-All quoted (limit_of w.tradable_symbols) w.fetch_snapshot e refl refl

  screen-All : AllRanked (screen cfg w pinned now)
  unfolding screen
  screen-All = screen_answered-All w.fetch_quote_volumes refl

  prioritized_by-All :
      (a : MentionsAnswer) (cs : List (ScreenedSymbol F))
      → All Admitted cs
      → All Admitted (prioritized_by cfg a cs)
  unfolding prioritized_by prioritize_mentioned note_mentions
  prioritized_by-All MentionsAnswer.no_counter cs h = h
  prioritized_by-All MentionsAnswer.count_failed cs h = h
  prioritized_by-All (MentionsAnswer.counted mentions) cs h =
      sort_by-All (false_first (is_unmentioned cfg.min_mentions)) Admitted _
        (map-All Admitted Admitted (note_mentions mentions) cs (λ c k. k) h)

  prioritized-All :
      (cs : List (ScreenedSymbol F)) → All Admitted cs → All Admitted (prioritized cfg w cs)
  unfolding prioritized
  prioritized-All [] h = tt
  prioritized-All (c ∷ cs) h = prioritized_by-All _ (c ∷ cs) h

  filled_with-All :
      (f : Faults) (core : List String) (rows : List WatchlistEntry) (cs : List (ScreenedSymbol F))
      → All Admitted cs
      → All IsAdmitted (filled_with cfg w f core now rows cs).added
  filled_with-All f core rows cs h =
      fill_slots-added IsAdmitted f core (now + cfg.ttl)
        (map (λ c. c.symbol) (prioritized cfg w cs)) _ _ tt
        (map-All Admitted IsAdmitted (λ c. c.symbol) (prioritized cfg w cs) (λ c k. k)
          (prioritized-All cs h))

module _ {F : Type 0} ⦃d : Float F⦄ ⦃s : Statistics F⦄ (cfg : WatchlistSettings F)
    (w : Surroundings F) (f : Faults) where
  abbrev pub AddedOnly : (String → Type 0) → Refreshed → Type 0
  AddedOnly P (Refreshed.refresh_failed e) = Unit
  AddedOnly P (Refreshed.refreshed r) = All P r.added

  result_of-AddedOnly :
      (P : String → Type 0) (core held : List String) (deleted evaluated : ℕ) (t : Filled)
      → All P t.added
      → AddedOnly P (result_of core held deleted evaluated t)
  result_of-AddedOnly P core held deleted evaluated t h = if_both (AddedOnly P) t.raised _ tt h

  fill_ranked-AddedOnly :
      (core held : List String) (now deleted : ℕ) (rows : List WatchlistEntry)
      (o : Option (List (ScreenedSymbol F)))
      → AllRanked cfg w (core ++ held) now o
      → AddedOnly
          (IsAdmitted cfg w (core ++ held) now)
          (fill_ranked cfg w f core held now deleted rows o).1
  unfolding fill_ranked
  fill_ranked-AddedOnly core held now deleted rows none h = tt
  fill_ranked-AddedOnly core held now deleted rows (some ranked) h =
      result_of-AddedOnly (IsAdmitted cfg w (core ++ held) now) core held deleted (length ranked)
        (filled_with cfg w f core now rows ranked)
        (filled_with-All cfg w (core ++ held) now f core rows ranked h)

  -- A refresh that returns has added only symbols that passed the liquidity floor, the exclusions
  -- (upper-cased; core and held symbols are excluded too), the venue's list and the volatility band.
  pub refresh-added :
      (core held : List String) (now : ℕ) (rows : List WatchlistEntry)
      → AddedOnly
          (IsAdmitted cfg w (from_keys core ++ from_keys held) now)
          (refresh cfg w f core held now rows).1
  unfolding refresh refresh_live
  refresh-added core held now rows =
      let P = AddedOnly (IsAdmitted cfg w (from_keys core ++ from_keys held) now) in
      if_both {A = List WatchlistEntry × Refreshed} (λ x. P x.1) f.delete_fails _ tt
        (if_both {A = List WatchlistEntry × Refreshed} (λ x. P x.1) f.read_fails _ tt
          (fill_ranked-AddedOnly (from_keys core) (from_keys held) now _ _ _
            (screen-All cfg w (from_keys core ++ from_keys held) now)))
