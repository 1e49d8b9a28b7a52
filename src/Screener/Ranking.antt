-- ===== src/Screener/Ranking.antt =====
-- The rank that a candidate gets, and what a mention changes.
use mathlib.Core.Path.{subst}
use mathlib.Core.List.{Perm}
use mathlib.Core.List.Perm
use smarty_trader.Prelude.{
  ℕ, suc, ◌≡◌, refl, sym, ap, true, false, not, String, Option, List, [], ◌∷◌, ◌++◌, map, select,
  arith, string_eq, leb, ltb, if◌then◌else◌, ◌∙◌,
}
use smarty_trader.Prelude.Dict.{Dict, get_or}
use smarty_trader.Prelude.Sort.{sort_by, sort_by-test, sort_by-InOrder, sort_by-perm, InOrder}
use smarty_trader.Prelude.Texts.{text_before-asymmetric}
use smarty_trader.Float.{Float, ReversesOrder, ◌<?◌, ◌=?◌}
use smarty_trader.Screener.{
  ScreenMetrics, ScreenedSymbol, in_band, passed_band, by_momentum, ranked_from, rank_candidates,
  note_mentions, is_unmentioned, prioritize_mentioned,
}

module _ {F : Type 0} ⦃d : Float F⦄ where
  abbrev pub triple : ScreenedSymbol F → String × F × ScreenMetrics F
  triple c = (c.symbol, c.quote_volume_24h, c.metrics)

  abbrev pub Numbered : ℕ → List (ScreenedSymbol F) → Type 0
  Numbered n [] = Unit
  Numbered n (c ∷ cs) = (c.rank ≡ n) × Numbered (suc n) cs

  -- The momentum never rises from a candidate to the next, and where it is equal the volume does
  -- not.
  abbrev pub Descending : List (ScreenedSymbol F) → Type 0
  Descending [] = Unit
  Descending (x ∷ []) = Unit
  Descending (x ∷ y ∷ ys) =
      ((x.metrics.momentum <? y.metrics.momentum) ≡ false)
      × ((x.metrics.momentum =? y.metrics.momentum) ≡ true
          → (x.quote_volume_24h <? y.quote_volume_24h) ≡ false)
      × Descending (y ∷ ys)

  triples-ranked_from :
      (n : ℕ) (cs : List (ScreenedSymbol F)) → map triple (ranked_from n cs) ≡ map triple cs
  unfolding ranked_from
  triples-ranked_from n [] = refl
  triples-ranked_from n (c ∷ cs) = ap (◌∷◌ (triple c)) (triples-ranked_from (suc n) cs)

  triples-passed_band :
      (least : F) (most : Option F) (cs : List (String × F × ScreenMetrics F))
      → map triple (passed_band least most cs) ≡ select (λ c. in_band least most c.2) cs
  unfolding passed_band
  triples-passed_band least most [] = refl
  triples-passed_band least most (c ∷ cs) = ground (arith, triples-passed_band least most cs)

  ranked_from-Numbered : (n : ℕ) (cs : List (ScreenedSymbol F)) → Numbered n (ranked_from n cs)
  unfolding ranked_from
  ranked_from-Numbered n [] = tt
  ranked_from-Numbered n (c ∷ cs) = (refl, ranked_from-Numbered (suc n) cs)

  module _ (laws : ReversesOrder F) where
    by_momentum-asymmetric :
        (x y : ScreenedSymbol F) → by_momentum x y ≡ true → by_momentum y x ≡ false
    unfolding by_momentum
    by_momentum-asymmetric x y h = ground (
      arith,
      laws.eq_symm (d.neg x.metrics.momentum) (d.neg y.metrics.momentum),
      laws.eq_symm (d.neg x.quote_volume_24h) (d.neg y.quote_volume_24h),
      laws.lt_asymm (d.neg x.metrics.momentum) (d.neg y.metrics.momentum),
      laws.lt_asymm (d.neg x.quote_volume_24h) (d.neg y.quote_volume_24h),
      text_before-asymmetric x.symbol y.symbol,
    )

    ranked_from-Descending :
        (n : ℕ) (cs : List (ScreenedSymbol F))
        → InOrder by_momentum cs
        → Descending (ranked_from n cs)
    unfolding ranked_from by_momentum
    ranked_from-Descending n [] h = tt
    ranked_from-Descending n (x ∷ []) h = tt
    ranked_from-Descending n (x ∷ y ∷ ys) h = ground (
      arith,
      ranked_from-Descending (suc n) (y ∷ ys) h.1,
      laws.eq_symm x.metrics.momentum y.metrics.momentum,
      laws.eq-neg y.metrics.momentum x.metrics.momentum,
      laws.eq-neg y.quote_volume_24h x.quote_volume_24h,
      laws.lt-neg y.metrics.momentum x.metrics.momentum,
      laws.lt-neg y.quote_volume_24h x.quote_volume_24h,
      laws.lt_of_eq x.metrics.momentum y.metrics.momentum,
      laws.lt_of_eq x.quote_volume_24h y.quote_volume_24h,
      laws.eq_symm x.quote_volume_24h y.quote_volume_24h,
    )

    -- The ranking lists exactly the candidates within the volatility band, numbers them from 1, and
    -- neither the momentum nor, at equal momentum, the volume ever rises along it.
    pub rank_candidates-ranked :
        (candidates : List (String × F × ScreenMetrics F)) (least : F) (most : Option F)
        → let ranked = rank_candidates candidates least most in
          Perm (map triple ranked) (select (λ c. in_band least most c.2) candidates)
          × Numbered 1 ranked
          × Descending ranked
    unfolding rank_candidates
    rank_candidates-ranked candidates least most =
        let passed = passed_band least most candidates in
        let ordered = sort_by by_momentum passed in
        (
          subst (λ l. Perm l (select (λ c. in_band least most c.2) candidates))
              (sym (triples-ranked_from 1 ordered))
              (subst (Perm (map triple ordered)) (triples-passed_band least most candidates)
                (Perm.map triple (sort_by-perm by_momentum passed))),
          ranked_from-Numbered 1 ordered,
          ranked_from-Descending 1 ordered
              (sort_by-InOrder by_momentum by_momentum-asymmetric passed),
        )

  -- the candidate with the count of recent news items that name it
  abbrev pub counted : Dict String ℕ → ScreenedSymbol F → ScreenedSymbol F
  counted mentions c = record c { news_mentions = get_or c.symbol 0 mentions }

  -- the candidates that at least `m` items name, in the order of the list
  pub mentioned : Dict String ℕ → ℕ → List (ScreenedSymbol F) → List (ScreenedSymbol F)
  mentioned mentions m [] = []
  mentioned mentions m (c ∷ cs) =
      let rest = mentioned mentions m cs in
      if leb m (get_or c.symbol 0 mentions) then counted mentions c ∷ rest else rest

  -- the others
  pub unnamed : Dict String ℕ → ℕ → List (ScreenedSymbol F) → List (ScreenedSymbol F)
  unnamed mentions m [] = []
  unnamed mentions m (c ∷ cs) =
      let rest = unnamed mentions m cs in
      if ltb (get_or c.symbol 0 mentions) m then counted mentions c ∷ rest else rest

  select-mentioned :
      (mentions : Dict String ℕ) (m : ℕ) (cs : List (ScreenedSymbol F))
      → select (λ c. not (is_unmentioned m c)) (map (note_mentions mentions) cs)
        ≡ mentioned mentions m cs
  unfolding note_mentions is_unmentioned mentioned
  select-mentioned mentions m [] = refl
  select-mentioned mentions m (c ∷ cs) = ground (arith, select-mentioned mentions m cs)

  select-unnamed :
      (mentions : Dict String ℕ) (m : ℕ) (cs : List (ScreenedSymbol F))
      → select (is_unmentioned m) (map (note_mentions mentions) cs) ≡ unnamed mentions m cs
  unfolding note_mentions is_unmentioned unnamed
  select-unnamed mentions m [] = refl
  select-unnamed mentions m (c ∷ cs) = ground (arith, select-unnamed mentions m cs)

  -- The candidates that at least `m` recent news items name come first and those that fewer name
  -- come behind, each group in the order of the ranking and each candidate with its count and
  -- nothing else changed.
  pub prioritize_mentioned-ahead :
      (ranked : List (ScreenedSymbol F)) (mentions : Dict String ℕ) (m : ℕ)
      → prioritize_mentioned ranked mentions m
        ≡ mentioned mentions m ranked ++ unnamed mentions m ranked
  unfolding prioritize_mentioned
  prioritize_mentioned-ahead ranked mentions m =
      sort_by-test (is_unmentioned m) (map (note_mentions mentions) ranked)
      ∙ (λ i. select-mentioned mentions m ranked i ++ select-unnamed mentions m ranked i)
