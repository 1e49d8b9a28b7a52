-- ===== src/Books.antt =====
-- src/core/sleeves.py, `SleeveBook`: which strategy sleeve owns a position, and since when. What the
-- database knows of a decision is a row; the executor's hooks are functions of the symbol, empty
-- where the executor has none.
use smarty_trader.Prelude.{
  ℕ, Bool, true, false, not, ◌&&◌, String, Option, none, some, List, [], ◌∷◌, map, select, any,
  first, leb, ◌==◌, string_eq, nat_eq, or_else, is_some, if◌then◌else◌,
}
use smarty_trader.Prelude.Dict.{Dict, lookup, insert}
use smarty_trader.Prelude.Keys.{from_keys}
use smarty_trader.Float.{Float, ◌<?◌, zero_f}
use smarty_trader.Models.{Position}
use smarty_trader.Pipeline.{Ownership}
pub mod Owners
pub mod Equity
pub mod Sums
pub mod Limits
mod Tests

pub record SleeveSpec (F : Type 0) : Type 0 where
  pub name : String
  pub weight : Option F
  -- `max_holding_hours`, in microseconds
  pub max_holding : Option ℕ

-- The first sleeve owns what is of unknown origin; the constructor refuses an empty list.
pub record SleevesSettings (F : Type 0) : Type 0 where
  pub default_spec : SleeveSpec F
  pub others : List (SleeveSpec F)

-- the sleeve and the time of a decision, each None where unknown
abbrev pub DecisionMeta : Type 0
DecisionMeta = Option String × Option ℕ

abbrev pub unknown_meta : DecisionMeta
unknown_meta = (none, none)

module _ {F : Type 0} where
  abbrev pub strategies : SleevesSettings F → List (SleeveSpec F)
  strategies s = s.default_spec ∷ s.others

  unfoldable pub names : SleevesSettings F → List String
  names s = map (λ spec. spec.name) (strategies s)

  -- `SleevesSettings.get`
  unfoldable pub get : SleevesSettings F → Option String → Option (SleeveSpec F)
  get s none = none
  get s (some name) = first (λ spec. spec.name == name) (strategies s)

  -- `SleeveBook.spec`
  unfoldable pub spec : SleevesSettings F → Option String → SleeveSpec F
  unfolding get
  spec s name = or_else (get s name) s.default_spec

  -- is the name one of a configured sleeve?
  abbrev pub is_configured : SleevesSettings F → Option String → Bool
  is_configured s name = is_some (get s name)

abbrev pub meta_of : Dict ℕ DecisionMeta → ℕ → DecisionMeta
meta_of cache i = or_else (lookup i cache) unknown_meta

-- the ids that are not none
abbrev pub present : List (Option ℕ) → List ℕ
present [] = []
present (none ∷ ids) = present ids
present (some i ∷ ids) = i ∷ present ids

-- every id that was missing is cached, an unknown one as such
abbrev pub cache_each : Dict ℕ DecisionMeta → List ℕ → Dict ℕ DecisionMeta → Dict ℕ DecisionMeta
cache_each rows [] cache = cache
cache_each rows (i ∷ ids) cache = cache_each rows ids (insert i (meta_of rows i) cache)

-- `_load_meta`: `rows` are the stored decisions, none where the read raises
unfoldable pub load_meta :
    Option (Dict ℕ DecisionMeta) → List ℕ → Dict ℕ DecisionMeta → Option (Dict ℕ DecisionMeta)
load_meta rows ids cache = elim (select (λ i. not (is_some (lookup i cache))) (from_keys ids)) [
  | [] ↦ some cache
  | i ∷ missing ↦ elim rows [
    | none ↦ none
    | some found ↦ some (cache_each found (i ∷ missing) cache)
  ]
]

-- the first configured sleeve among the names
abbrev pub first_known : {F : Type 0} → SleevesSettings F → List (Option String) → Option String
first_known s [] = none
first_known s (name ∷ rest) = if is_configured s name then name else first_known s rest

-- the first time that is known
abbrev pub first_time : List (Option ℕ) → Option ℕ
first_time [] = none
first_time (none ∷ rest) = first_time rest
first_time (some at ∷ rest) = some at

-- What the executor reports of a symbol: entry decisions of the open lots, oldest first, and of
-- working BUY orders.
pub record Hooks : Type 0 where
  pub entry_decision_ids : String → List (Option ℕ)
  pub pending_entry_decision_ids : String → List (Option ℕ)

-- one round of the loop of `owners`
abbrev pub note_owner : String → Option Ownership → Dict String String → Dict String String
note_owner symbol none owned = owned
note_owner symbol (some o) owned = insert symbol o.strategy owned

module _ {F : Type 0} ⦃d : Float F⦄ where
  abbrev pub is_open : Position F → Bool
  is_open p = zero_f <? p.quantity

  abbrev pub is_held : List (Position F) → String → Bool
  is_held positions symbol = any (λ (p : Position F). p.symbol == symbol && is_open p) positions

  -- the sleeve of a working BUY on a flat symbol
  unfoldable pub pending_owner :
      SleevesSettings F → Dict ℕ DecisionMeta → List (Option ℕ) → Ownership
  pending_owner s cache pending = record {
    strategy =
        or_else (first_known s (map (λ i. (meta_of cache i).0) (present pending)))
          s.default_spec.name;
    opened_at = none;
  }

  -- the sleeve of the oldest lots
  unfoldable pub lots_owner : SleevesSettings F → Dict ℕ DecisionMeta → List ℕ → Ownership
  lots_owner s cache ids = record {
    strategy = or_else (first_known s (map (λ i. (meta_of cache i).0) ids)) s.default_spec.name;
    opened_at = first_time (map (λ i. (meta_of cache i).1) ids);
  }

  -- `ownership` where the symbol is flat, with the cache after it
  unfoldable pub flat_ownership :
      SleevesSettings F
      → Option (Dict ℕ DecisionMeta)
      → List (Option ℕ)
      → Dict ℕ DecisionMeta
      → Option (Option Ownership × Dict ℕ DecisionMeta)
  unfolding load_meta pending_owner
  flat_ownership s rows [] cache = some (none, cache)
  flat_ownership s rows (p ∷ pending) cache = elim (load_meta rows (present (p ∷ pending)) cache) [
    | none ↦ none
    | some after ↦ some (some (pending_owner s after (p ∷ pending)), after)
  ]

  unfoldable pub held_ownership :
      SleevesSettings F
      → Option (Dict ℕ DecisionMeta)
      → List ℕ
      → Dict ℕ DecisionMeta
      → Option (Option Ownership × Dict ℕ DecisionMeta)
  unfolding load_meta lots_owner
  held_ownership s rows ids cache = elim (load_meta rows ids cache) [
    | none ↦ none
    | some after ↦ some (some (lots_owner s after ids), after)
  ]

  -- `ownership`, or none where the database raises
  unfoldable pub ownership :
      SleevesSettings F
      → Hooks
      → Option (Dict ℕ DecisionMeta)
      → List (Position F)
      → String
      → Dict ℕ DecisionMeta
      → Option (Option Ownership × Dict ℕ DecisionMeta)
  unfolding flat_ownership held_ownership
  ownership s hooks rows positions symbol cache =
      if is_held positions symbol
      then held_ownership s rows (present (hooks.entry_decision_ids symbol)) cache
      else flat_ownership s rows (hooks.pending_entry_decision_ids symbol) cache

  unfoldable pub owners_of :
      SleevesSettings F
      → Hooks
      → Option (Dict ℕ DecisionMeta)
      → List (Position F)
      → List String
      → Dict String String
      → Dict ℕ DecisionMeta
      → Option (Dict String String × Dict ℕ DecisionMeta)
  unfolding ownership
  owners_of s hooks rows positions [] owned cache = some (owned, cache)
  owners_of s hooks rows positions (symbol ∷ symbols) owned cache =
      elim (ownership s hooks rows positions symbol cache) [
        | none ↦ none
        | some (o, after) ↦
            owners_of s hooks rows positions symbols (note_owner symbol o owned) after
      ]

  -- `owners`: the owner of every open position
  unfoldable pub owners :
      SleevesSettings F
      → Hooks
      → Option (Dict ℕ DecisionMeta)
      → List (Position F)
      → Dict ℕ DecisionMeta
      → Option (Dict String String × Dict ℕ DecisionMeta)
  unfolding owners_of
  owners s hooks rows positions cache =
      let opened = select is_open positions in
      owners_of s hooks rows opened (from_keys (map (λ (p : Position F). p.symbol) opened)) [] cache
