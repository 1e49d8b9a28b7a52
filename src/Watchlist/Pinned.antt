-- ===== src/Watchlist/Pinned.antt =====
-- What a refresh that gets its answers returns: core and held symbols stay in the traded set.
use smarty_trader.Prelude.{
  ℕ, zero, suc, ◌+◌, ◌-◌, ◌≡◌, refl, ◌∙◌, ap, false, ◌||◌, String, some, List, [], ◌∷◌, ◌++◌, map,
  length, string_eq, if◌then◌else◌, arith, if_both,
}
use smarty_trader.Prelude.Keys.{member, from_keys, member-union, from_keys-NoRepeats, NoRepeats}
use smarty_trader.Float.{Float}
use smarty_trader.Screener.{Statistics, ScreenedSymbol}
use smarty_trader.Watchlist.{WatchlistSettings, Surroundings, RefreshFailure, screen, prioritized}
use smarty_trader.Watchlist.Table.{
  WatchlistEntry, Faults, Filled, symbols_of, list_candidate, fill_slots, delete_expired,
  get_active_watchlist,
}
use smarty_trader.Watchlist.Traded.{
  WatchlistRefreshResult, Refreshed, result_with, filled_with, fill_ranked, refresh, refresh_live,
}

-- without a write that raises the loop does not raise
fill_slots-raised :
    (f : Faults) (core : List String) (expires : ℕ) (cs : List String) (slots : ℕ) (t : Filled)
    → ((x : String) → f.write_fails x ≡ false)
    → (fill_slots f core expires cs slots t).raised ≡ t.raised
unfolding fill_slots
fill_slots-raised f core expires cs zero t h = refl
fill_slots-raised f core expires [] (suc slots) t h = refl
fill_slots-raised f core expires (c ∷ cs) (suc slots) t h =
    if_both {A = Filled} (λ x. x.raised ≡ t.raised) (member c core || member c t.dynamic) _
      (fill_slots-raised f core expires cs (suc slots) t h)
      (rw (h c) (fill_slots-raised f core expires cs slots (list_candidate expires c t) h))

module _ {F : Type 0} ⦃d : Float F⦄ ⦃s : Statistics F⦄ (cfg : WatchlistSettings F)
    (w : Surroundings F) (f : Faults) where
  refresh_live-answered :
      (core held : List String) (now deleted : ℕ) (rows : List WatchlistEntry)
      (ranked : List (ScreenedSymbol F))
      → ((x : String) → f.write_fails x ≡ false)
      → screen cfg w (core ++ held) now ≡ some ranked
      → (refresh_live cfg w f core held now deleted rows).1
        ≡ Refreshed.refreshed (
            result_with core held deleted
              (length ranked)
              (filled_with cfg w f core now rows ranked))
  unfolding refresh_live fill_ranked
  refresh_live-answered core held now deleted rows ranked hw hs =
      let quiet =
        fill_slots-raised f core (now + cfg.ttl) (map (λ c. c.symbol) (prioritized cfg w ranked))
          (cfg.max_dynamic_symbols - length (symbols_of (get_active_watchlist now rows)))
          (record {
            rows = rows;
            dynamic = symbols_of (get_active_watchlist now rows);
            added = [];
            raised = false;
          })
          hw in
      ap (λ o. (fill_ranked cfg w f core held now deleted rows o).1) hs
      ∙ ap
          (λ b.
            if b
            then Refreshed.refresh_failed RefreshFailure.entry_write_failed
            else Refreshed.refreshed (
                result_with core held deleted (length ranked)
                  (filled_with cfg w f core now rows ranked)))
          quiet

  -- A refresh whose database calls succeed and whose screener pass gets its answers returns a
  -- traded set without repeats that has exactly the core symbols, the held symbols and the dynamic
  -- ones.
  pub refresh-pinned :
      (core held : List String) (now : ℕ) (rows : List WatchlistEntry)
      (ranked : List (ScreenedSymbol F))
      → f.delete_fails ≡ false
      → f.read_fails ≡ false
      → ((x : String) → f.write_fails x ≡ false)
      → screen cfg w (from_keys core ++ from_keys held) now ≡ some ranked
      → (r : WatchlistRefreshResult) × ((refresh cfg w f core held now rows).1
          ≡ Refreshed.refreshed r)
        × NoRepeats r.symbols
        × ((x : String)
            → member x r.symbols ≡ (member x core || member x r.dynamic || member x held))
  unfolding refresh
  refresh-pinned core held now rows ranked hd hr hw hs =
      let kept = delete_expired now rows in
      let filled = filled_with cfg w f (from_keys core) now kept ranked in
      (
        result_with (from_keys core) (from_keys held) (length rows - length kept) (length ranked)
            filled,
        ground (
          arith,
          refresh_live-answered (from_keys core) (from_keys held) now (length rows - length kept)
              kept ranked hw hs,
        ),
        from_keys-NoRepeats {K = String} (from_keys core ++ filled.dynamic ++ from_keys held),
        λ x. member-union x core filled.dynamic held,
      )
