-- ===== src/Watchlist/Traded.antt =====
-- `WatchlistManager.refresh` and the runner's job that installs its result.
use smarty_trader.Prelude.{
  ℕ, ◌+◌, ◌-◌, false, not, String, Option, none, some, List, [], ◌∷◌, ◌++◌, map, length, select,
  string_eq, if◌then◌else◌,
}
use smarty_trader.Prelude.Keys.{member, from_keys}
use smarty_trader.Float.{Float}
use smarty_trader.Screener.{Statistics, ScreenedSymbol}
use smarty_trader.Watchlist.{WatchlistSettings, Surroundings, RefreshFailure, screen, prioritized}
use smarty_trader.Watchlist.Table.{
  WatchlistEntry, Faults, Filled, symbols_of, fill_slots, delete_expired, get_active_watchlist,
}

pub record WatchlistRefreshResult : Type 0 where
  pub symbols : List String
  pub dynamic : List String
  pub added : List String
  pub expired_deleted : ℕ
  pub candidates_evaluated : ℕ

pub data Refreshed : Type 0 where
  refresh_failed : RefreshFailure → Refreshed
  refreshed : WatchlistRefreshResult → Refreshed

abbrev pub result_with : List String → List String → ℕ → ℕ → Filled → WatchlistRefreshResult
result_with core held deleted evaluated t = record {
  symbols = from_keys (core ++ t.dynamic ++ held);
  dynamic = t.dynamic;
  added = t.added;
  expired_deleted = deleted;
  candidates_evaluated = evaluated;
}

abbrev pub result_of : List String → List String → ℕ → ℕ → Filled → Refreshed
result_of core held deleted evaluated t =
    if t.raised
    then Refreshed.refresh_failed RefreshFailure.entry_write_failed
    else Refreshed.refreshed (result_with core held deleted evaluated t)

module _ {F : Type 0} ⦃d : Float F⦄ ⦃s : Statistics F⦄ (cfg : WatchlistSettings F)
    (w : Surroundings F) (f : Faults) where
  -- the rows as the loop over the ranked candidates leaves them
  abbrev pub filled_with : List String → ℕ → List WatchlistEntry → List (ScreenedSymbol F) → Filled
  filled_with core now rows ranked =
      let active = symbols_of (get_active_watchlist now rows) in
      fill_slots f core (now + cfg.ttl) (map (λ c. c.symbol) (prioritized cfg w ranked))
        (cfg.max_dynamic_symbols - length active)
        (record { rows = rows; dynamic = active; added = []; raised = false })

  -- what the candidates of the screener's pass, or its failure, lead to
  unfoldable pub fill_ranked :
      List String
      → List String
      → ℕ
      → ℕ
      → List WatchlistEntry
      → Option (List (ScreenedSymbol F))
      → List WatchlistEntry × Refreshed
  fill_ranked core held now deleted rows none =
      (rows, Refreshed.refresh_failed RefreshFailure.screener_failed)
  fill_ranked core held now deleted rows (some ranked) =
      let filled = filled_with core now rows ranked in
      (filled.rows, result_of core held deleted (length ranked) filled)

  -- the screener's pass and the free slots, over the rows that the purge left
  unfoldable pub refresh_live :
      List String → List String → ℕ → ℕ → List WatchlistEntry → List WatchlistEntry × Refreshed
  unfolding fill_ranked
  refresh_live core held now deleted rows =
      fill_ranked core held now deleted rows (screen cfg w (core ++ held) now)

  unfoldable pub refresh :
      List String → List String → ℕ → List WatchlistEntry → List WatchlistEntry × Refreshed
  unfolding refresh_live
  refresh core_symbols held_symbols now rows =
      let kept = delete_expired now rows in
      if f.delete_fails
      then (rows, Refreshed.refresh_failed RefreshFailure.storage_read_failed)
      else if f.read_fails
      then (kept, Refreshed.refresh_failed RefreshFailure.storage_read_failed)
      else refresh_live (from_keys core_symbols) (from_keys held_symbols) now
          (length rows - length kept) kept

-- what the runner keeps: the stored rows, the agent's symbols and the symbols outside the core list
pub record TradedSet : Type 0 where
  pub rows : List WatchlistEntry
  pub symbols : List String
  pub watchlist_extras : List String

-- `set_symbols` ignores an empty list.
unfoldable pub set_symbols : List String → TradedSet → TradedSet
set_symbols [] t = t
set_symbols (x ∷ xs) t = record t { symbols = x ∷ xs }

unfoldable pub install : List String → List WatchlistEntry → Refreshed → TradedSet → TradedSet
unfolding set_symbols
install core rows (Refreshed.refresh_failed e) t = record t { rows = rows }
install core rows (Refreshed.refreshed result) t =
    set_symbols result.symbols (record t {
      rows = rows;
      watchlist_extras = select (λ x. not (member x core)) result.symbols;
    })

module _ {F : Type 0} ⦃d : Float F⦄ ⦃s : Statistics F⦄ (cfg : WatchlistSettings F) where
  -- the job `_refresh_watchlist`: `held` is none where the positions cannot be read
  unfoldable pub refresh_watchlist :
      Surroundings F → Faults → List String → Option (List String) → ℕ → TradedSet → TradedSet
  unfolding refresh install
  refresh_watchlist w f core none now t = t
  refresh_watchlist w f core (some held) now t =
      let out = refresh cfg w f core held now t.rows in install core out.0 out.1 t

-- the last step of `_apply_overrides`, after the agent got the core list
unfoldable pub merge_extras : List String → TradedSet → TradedSet
unfolding set_symbols
merge_extras core t = elim t.watchlist_extras [
  | [] ↦ t
  | x ∷ xs ↦ set_symbols (from_keys (core ++ x ∷ xs)) t
]
