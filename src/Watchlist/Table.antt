-- ===== src/Watchlist/Table.antt =====
-- src/core/storage/watchlist.py: the rows of one agent, in the order in which they were added, and
-- the loop of `refresh` that fills the free slots.
use smarty_trader.Prelude.{
  ℕ, zero, suc, Bool, true, ◌||◌, String, List, [], ◌∷◌, ◌++◌, map, select, ltb, ◌==◌, string_eq,
  if◌then◌else◌,
}
use smarty_trader.Prelude.Keys.{member}

pub record WatchlistEntry : Type 0 where
  pub symbol : String
  pub expires_at : ℕ

abbrev pub symbols_of : List WatchlistEntry → List String
symbols_of rows = map (λ r. r.symbol) rows

unfoldable pub upsert_watchlist_entry : String → ℕ → List WatchlistEntry → List WatchlistEntry
upsert_watchlist_entry symbol expires [] = record { symbol = symbol; expires_at = expires } ∷ []
upsert_watchlist_entry symbol expires (r ∷ rows) =
    let others = upsert_watchlist_entry symbol expires rows in
    if r.symbol == symbol then record r { expires_at = expires } ∷ rows else r ∷ others

unfoldable pub get_active_watchlist : ℕ → List WatchlistEntry → List WatchlistEntry
get_active_watchlist now rows = select (λ r. ltb now r.expires_at) rows

-- the rows that stay; the call answers how many went
unfoldable pub delete_expired : ℕ → List WatchlistEntry → List WatchlistEntry
delete_expired now rows = select (λ r. ltb now r.expires_at) rows

-- Which calls of the database raise during one refresh.
pub record Faults : Type 0 where
  pub delete_fails : Bool
  pub read_fails : Bool
  pub write_fails : String → Bool

-- `rows`, `dynamic` and `added` as the loop leaves them, and whether a write raised
pub record Filled : Type 0 where
  pub rows : List WatchlistEntry
  pub dynamic : List String
  pub added : List String
  pub raised : Bool

-- a candidate gets its row
unfoldable pub list_candidate : ℕ → String → Filled → Filled
unfolding upsert_watchlist_entry
list_candidate expires c t = record t {
  rows = upsert_watchlist_entry c expires t.rows;
  dynamic = t.dynamic ++ c ∷ [];
  added = t.added ++ c ∷ [];
}

-- the candidates' loop: `slots` counts down, a symbol that is there is passed over
unfoldable pub fill_slots : Faults → List String → ℕ → List String → ℕ → Filled → Filled
unfolding list_candidate
fill_slots f core expires candidates zero t = t
fill_slots f core expires [] (suc slots) t = t
fill_slots f core expires (c ∷ cs) (suc slots) t =
    let passed = fill_slots f core expires cs (suc slots) t in
    let next = fill_slots f core expires cs slots (list_candidate expires c t) in
    if member c core || member c t.dynamic
    then passed
    else if f.write_fails c
    then record t { raised = true }
    else next
