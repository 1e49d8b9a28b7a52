-- ===== src/Books/Equity.antt =====
-- src/core/sleeves.py: each sleeve's capital, book and snapshots; the sums that the database forms
-- are those of src/core/storage/sleeves.py.
use smarty_trader.Prelude.{
  ℕ, Bool, true, false, ◌&&◌, String, Option, none, some, List, [], ◌∷◌, map, select, length, leb,
  nat_beq, ◌==◌, string_eq, or_else, if◌then◌else◌,
}
use smarty_trader.Prelude.Dict.{Dict, lookup, get_or, insert}
use smarty_trader.Float.{Float, ◌⊕◌, ◌⊖◌, ◌⊗◌, ◌=?◌, zero_f, sum_f}
use smarty_trader.Models.{Position, PortfolioState, total_value, pnl, direction}
use smarty_trader.Risk.Trackers.{
  RiskEngine, update_daily_value, seed_peak_equity, restore_daily_baseline,
}
use smarty_trader.Books.{SleeveSpec, SleevesSettings, names, strategies, is_open}

pub record Allocation (F : Type 0) : Type 0 where
  pub base_equity : F
  pub weights : Dict String F
  pub created_at : ℕ

pub record SleeveEquity (F : Type 0) : Type 0 where
  pub strategy : String
  pub portfolio : PortfolioState F
  pub realized_pnl : F
  pub unrealized_pnl : F

-- a filled order with a realised profit
pub record ClosingFill (F : Type 0) : Type 0 where
  pub fill_strategy : Option String
  pub fill_pnl : F
  pub filled_at : ℕ

module _ {F : Type 0} ⦃d : Float F⦄ where
  unfoldable pub equity : SleeveEquity F → F
  equity b = total_value b.portfolio

  abbrev pub weights_of : List (SleeveSpec F) → Dict String F
  weights_of [] = []
  weights_of (spec ∷ specs) = (spec.name, or_else spec.weight zero_f) ∷ weights_of specs

  -- Each entry of the first dict is in the second.
  abbrev pub is_within : Dict String F → Dict String F → Bool
  is_within [] w = true
  is_within ((k, x) ∷ rest) w =
      elim (lookup k w) [ none ↦ false | some y ↦ x =? y ] && is_within rest w

  abbrev pub same_weights : Dict String F → Dict String F → Bool
  same_weights v w = nat_beq (length v) (length w) && is_within v w

  -- cash, committed cash, and the positions at their entry price
  unfoldable pub cost_basis : PortfolioState F → F
  cost_basis portfolio =
      portfolio.cash
      ⊕ portfolio.pending_value
      ⊕ sum_f (
          map (λ (p : Position F). p.quantity ⊗ p.avg_entry_price ⊗ direction p.side)
            portfolio.positions)

  unfoldable pub fresh_allocation : Dict String F → PortfolioState F → ℕ → Allocation F
  unfolding cost_basis
  fresh_allocation weights portfolio now = record {
    base_equity = cost_basis portfolio;
    weights = weights;
    created_at = now;
  }

  -- `ensure_allocation`: a new row where there is none or the weights have changed
  unfoldable pub ensure_allocation :
      SleevesSettings F → PortfolioState F → ℕ → Option (Allocation F) → Allocation F
  unfolding fresh_allocation
  ensure_allocation s portfolio now row =
      let weights = weights_of (strategies s) in
      elim row [
        | none ↦ fresh_allocation weights portfolio now
        | some stored ↦
            if same_weights stored.weights weights
            then stored
            else fresh_allocation weights portfolio now
      ]

  abbrev pub is_owner : Dict String String → String → Position F → Bool
  is_owner owned name p = elim (lookup p.symbol owned) [ none ↦ false | some n ↦ n == name ]

  abbrev pub owned_by : Dict String String → String → List (Position F) → List (Position F)
  owned_by owned name positions = select (λ p. is_open p && is_owner owned name p) positions

  abbrev pub is_fill_of : String → ℕ → ClosingFill F → Bool
  is_fill_of name since f =
      elim f.fill_strategy [ none ↦ false | some n ↦ n == name ] && leb since f.filled_at

  -- `get_strategy_realized_pnl`
  unfoldable pub realized_since : List (ClosingFill F) → ℕ → String → F
  realized_since fills since name =
      sum_f (map (λ (f : ClosingFill F). f.fill_pnl) (select (is_fill_of name since) fills))

  -- the book of a sleeve from the positions that it owns
  unfoldable pub book_of : Allocation F → String → List (Position F) → F → SleeveEquity F
  book_of a name owned realized =
      let unrealized = sum_f (map pnl owned) in
      let capital = get_or name zero_f a.weights ⊗ a.base_equity in
      let market =
        sum_f (map (λ (p : Position F). p.quantity ⊗ p.current_price ⊗ direction p.side) owned) in
      record {
        strategy = name;
        portfolio = record {
          cash = capital ⊕ realized ⊕ unrealized ⊖ market;
          positions = owned;
          pending_value = zero_f;
        };
        realized_pnl = realized;
        unrealized_pnl = unrealized;
      }

  -- `sleeve_equity`, with the owners at hand
  unfoldable pub sleeve_equity :
      Allocation F
      → List (ClosingFill F)
      → Dict String String
      → PortfolioState F
      → String
      → SleeveEquity F
  unfolding realized_since book_of
  sleeve_equity a fills owned portfolio name =
      book_of a name (owned_by owned name portfolio.positions)
        (realized_since fills a.created_at name)

  abbrev pub update_engine :
      ℕ → F → String → Dict String (RiskEngine F) → Dict String (RiskEngine F)
  update_engine now value name engines = elim (lookup name engines) [
    | none ↦ engines
    | some e ↦ insert name (update_daily_value now value e) engines
  ]

  -- `record_snapshots`: the sleeves in turn, each with its engine's trackers
  unfoldable pub record_each :
      Allocation F
      → List (ClosingFill F)
      → Dict String String
      → PortfolioState F
      → ℕ
      → List String
      → Dict String (RiskEngine F)
      → List (SleeveEquity F) × Dict String (RiskEngine F)
  unfolding sleeve_equity equity
  record_each a fills owned portfolio now [] engines = ([], engines)
  record_each a fills owned portfolio now (name ∷ rest) engines =
      let book = sleeve_equity a fills owned portfolio name in
      let others =
        record_each a fills owned portfolio now rest
          (update_engine now (equity book) name engines) in
      (book ∷ others.0, others.1)

  unfoldable pub record_snapshots :
      SleevesSettings F
      → Option (Allocation F)
      → List (ClosingFill F)
      → Dict String String
      → PortfolioState F
      → ℕ
      → Dict String (RiskEngine F)
      → List (SleeveEquity F) × Dict String (RiskEngine F)
  unfolding record_each
  record_snapshots s none fills owned portfolio now engines = ([], engines)
  record_snapshots s (some a) fills owned portfolio now engines =
      record_each a fills owned portfolio now (names s) engines

  -- `restore` of one sleeve's trackers: the peak since the allocation and today's first equity
  unfoldable pub restore_trackers : ℕ → Option F → Option F → RiskEngine F → RiskEngine F
  restore_trackers now peak first e = elim first [
    | none ↦ seed_peak_equity peak e
    | some value ↦ restore_daily_baseline now value (seed_peak_equity peak e)
  ]
