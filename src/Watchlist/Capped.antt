-- ===== src/Watchlist/Capped.antt =====
-- The most on the dynamic symbols, over any sequence of the runner's jobs.
use mathlib.Core.Path.{subst}
use smarty_trader.Prelude.{
  ℕ, zero, suc, ◌+◌, ◌≤◌, ◌≡◌, refl, sym, ◌∙◌, ap, Bool, false, ◌||◌, String, Option, none, some,
  List, [], ◌∷◌, ◌++◌, length, select, string_eq, arith, length-append, if_both, if_cases, ltb,
}
use smarty_trader.Prelude.Keys.{member, from_keys, NoRepeats, NoRepeats-append_one}
use smarty_trader.Float.{Float}
use smarty_trader.Screener.{Statistics, ScreenedSymbol}
use smarty_trader.Watchlist.{WatchlistSettings, Surroundings, screen}
use smarty_trader.Watchlist.Table.{
  WatchlistEntry, Faults, Filled, symbols_of, list_candidate, fill_slots, delete_expired,
  get_active_watchlist, upsert_watchlist_entry,
}
use smarty_trader.Watchlist.Traded.{
  TradedSet, fill_ranked, refresh, refresh_live, refresh_watchlist, install, set_symbols, Refreshed,
}

abbrev pub IsCapped : ℕ → List WatchlistEntry → Type 0
IsCapped most rows = NoRepeats (symbols_of rows) × (length rows ≤ most)

symbols_of-upsert :
    (c : String) (expires : ℕ) (rows : List WatchlistEntry)
    → member c (symbols_of rows) ≡ false
    → symbols_of (upsert_watchlist_entry c expires rows) ≡ symbols_of rows ++ c ∷ []
unfolding upsert_watchlist_entry
symbols_of-upsert c expires [] h = refl
symbols_of-upsert c expires (r ∷ rows) h = ground (arith, symbols_of-upsert c expires rows)

module _ (p : WatchlistEntry → Bool) where
  member-select :
      (x : String) (rows : List WatchlistEntry)
      → member x (symbols_of rows) ≡ false
      → member x (symbols_of (select p rows)) ≡ false
  member-select x [] h = refl
  member-select x (r ∷ rows) h = ground (arith, member-select x rows)

  select-IsCapped :
      (most : ℕ) (rows : List WatchlistEntry) → IsCapped most rows → IsCapped most (select p rows)
  select-IsCapped most [] h = h
  select-IsCapped zero (r ∷ rows) h = absurd (omega (arith, h.1))
  select-IsCapped (suc most) (r ∷ rows) h =
      let rest = select-IsCapped most rows (h.0.1, omega (arith, h.1)) in
      if_both (IsCapped (suc most)) (p r) _
        ((member-select r.symbol rows h.0.0, rest.0), omega (arith, rest.1))
        (rest.0, omega (arith, rest.1))

  select_twice : (rows : List WatchlistEntry) → select p (select p rows) ≡ select p rows
  select_twice [] = refl
  select_twice (r ∷ rows) = ground (arith, select_twice rows)

-- the loop's invariant: every row is listed, and the rows and the free slots keep within the most
abbrev IsFilling : ℕ → ℕ → Filled → Type 0
IsFilling most slots t =
    (t.dynamic ≡ symbols_of t.rows) × NoRepeats t.dynamic × (length t.dynamic + slots ≤ most)

length-symbols_of : (rows : List WatchlistEntry) → length (symbols_of rows) ≡ length rows
length-symbols_of [] = refl
length-symbols_of (r ∷ rows) = ap suc (length-symbols_of rows)

IsCapped-of_filling : (most slots : ℕ) (t : Filled) → IsFilling most slots t → IsCapped most t.rows
IsCapped-of_filling most slots t h =
    (subst NoRepeats h.0 h.1, omega (arith, h.2, length-symbols_of t.rows, ap length h.0))

list_candidate-IsFilling :
    (most slots expires : ℕ) (c : String) (t : Filled)
    → member c t.dynamic ≡ false
    → IsFilling most (suc slots) t
    → IsFilling most slots (list_candidate expires c t)
unfolding list_candidate
list_candidate-IsFilling most slots expires c t free h = (
  ap (λ l. l ++ c ∷ []) h.0
      ∙ sym (symbols_of-upsert c expires t.rows (sym (ap (member c) h.0) ∙ free)),
  NoRepeats-append_one t.dynamic c h.1 free,
  omega (arith, h.2, length-append t.dynamic (c ∷ [])),
)

fill_slots-IsCapped :
    (f : Faults) (core : List String) (expires most : ℕ) (cs : List String) (slots : ℕ) (t : Filled)
    → IsFilling most slots t
    → IsCapped most (fill_slots f core expires cs slots t).rows
unfolding fill_slots
fill_slots-IsCapped f core expires most cs zero t h = IsCapped-of_filling most zero t h
fill_slots-IsCapped f core expires most [] (suc slots) t h =
    IsCapped-of_filling most (suc slots) t h
fill_slots-IsCapped f core expires most (c ∷ cs) (suc slots) t h =
    if_cases {A = Filled} (λ x. IsCapped most x.rows) (member c core || member c t.dynamic)
      (λ _. fill_slots-IsCapped f core expires most cs (suc slots) t h)
      (λ free.
        if_both {A = Filled} (λ x. IsCapped most x.rows) (f.write_fails c) _
          (IsCapped-of_filling most (suc slots) t h)
          (fill_slots-IsCapped f core expires most cs slots (list_candidate expires c t)
            (list_candidate-IsFilling most slots expires c t (ground arith) h)))

module _ {F : Type 0} ⦃d : Float F⦄ ⦃s : Statistics F⦄ (cfg : WatchlistSettings F) where
  abbrev limit : ℕ
  limit = cfg.max_dynamic_symbols

  fill_ranked-IsCapped :
      (w : Surroundings F) (f : Faults) (core held : List String) (now deleted : ℕ)
      (rows : List WatchlistEntry) (o : Option (List (ScreenedSymbol F)))
      → get_active_watchlist now rows ≡ rows
      → IsCapped limit rows
      → IsCapped limit (fill_ranked cfg w f core held now deleted rows o).0
  unfolding fill_ranked
  fill_ranked-IsCapped w f core held now deleted rows none e h = h
  fill_ranked-IsCapped w f core held now deleted rows (some ranked) e h =
      let listed = ap symbols_of e in
      fill_slots-IsCapped f core (now + cfg.ttl) limit _ _ _ (
        listed,
        subst NoRepeats (sym listed) h.0,
        omega (arith, h.1, length-symbols_of rows, ap length listed),
      )

  refresh_live-IsCapped :
      (w : Surroundings F) (f : Faults) (core held : List String) (now deleted : ℕ)
      (rows : List WatchlistEntry)
      → get_active_watchlist now rows ≡ rows
      → IsCapped limit rows
      → IsCapped limit (refresh_live cfg w f core held now deleted rows).0
  unfolding refresh_live
  refresh_live-IsCapped w f core held now deleted rows e h =
      fill_ranked-IsCapped w f core held now deleted rows (screen cfg w (core ++ held) now) e h

  refresh-IsCapped :
      (w : Surroundings F) (f : Faults) (core held : List String) (now : ℕ)
      (rows : List WatchlistEntry)
      → IsCapped limit rows
      → IsCapped limit (refresh cfg w f core held now rows).0
  unfolding refresh delete_expired get_active_watchlist
  refresh-IsCapped w f core held now rows h =
      let live = λ (r : WatchlistEntry). ltb now r.expires_at in
      let kept = select-IsCapped live limit rows h in
      if_both {A = List WatchlistEntry × Refreshed} (λ x. IsCapped limit x.0) f.delete_fails _ h
        (if_both {A = List WatchlistEntry × Refreshed} (λ x. IsCapped limit x.0) f.read_fails _ kept
          (refresh_live-IsCapped w f (from_keys core) (from_keys held) now _
            (delete_expired now rows) (select_twice live rows) kept))

  -- one run of the runner's job, with what it meets
  pub record Job : Type 0 where
    pub surroundings : Surroundings F
    pub faults : Faults
    pub core : List String
    pub held : Option (List String)
    pub now : ℕ

  pub run_jobs : List Job → TradedSet → TradedSet
  run_jobs [] t = t
  run_jobs (j ∷ js) t =
      run_jobs js (refresh_watchlist cfg j.surroundings j.faults j.core j.held j.now t)

  set_symbols-rows : (xs : List String) (t : TradedSet) → (set_symbols xs t).rows ≡ t.rows
  unfolding set_symbols
  set_symbols-rows [] t = refl
  set_symbols-rows (x ∷ xs) t = refl

  install-rows :
      (core : List String) (rows : List WatchlistEntry) (r : Refreshed) (t : TradedSet)
      → (install core rows r t).rows ≡ rows
  unfolding install
  install-rows core rows (Refreshed.refresh_failed e) t = refl
  install-rows core rows (Refreshed.refreshed r) t = set_symbols-rows r.symbols _

  refresh_watchlist-IsCapped :
      (w : Surroundings F) (f : Faults) (core : List String) (held : Option (List String)) (now : ℕ)
      (t : TradedSet)
      → IsCapped limit t.rows
      → IsCapped limit (refresh_watchlist cfg w f core held now t).rows
  unfolding refresh_watchlist
  refresh_watchlist-IsCapped w f core none now t h = h
  refresh_watchlist-IsCapped w f core (some held) now t h =
      let out = refresh cfg w f core held now t.rows in
      subst (IsCapped limit) (sym (install-rows core out.0 out.1 t))
        (refresh-IsCapped w f core held now t.rows h)

  -- Over any sequence of the runner's jobs, whatever fails in them, the stored symbols of an agent
  -- are distinct and never more than `max_dynamic_symbols`.
  pub run_jobs-IsCapped :
      (js : List Job) (t : TradedSet) → IsCapped limit t.rows → IsCapped limit (run_jobs js t).rows
  unfolding run_jobs
  run_jobs-IsCapped [] t h = h
  run_jobs-IsCapped (j ∷ js) t h =
      run_jobs-IsCapped js _
        (refresh_watchlist-IsCapped j.surroundings j.faults j.core j.held j.now t h)
