-- ===== src/Pipeline/Run.antt =====
-- `DecisionPipeline.run`: a cycle from the fetch to the decision of `Decide`.
use smarty_trader.Prelude.{
  ℕ, Bool, false, String, Option, none, some, List, ◌&&◌, not, ◌==◌, string_eq, leb, last?, is_some,
  if◌then◌else◌,
}
use smarty_trader.Prelude.Dict.{lookup, insert}
use smarty_trader.Float.{Float}
use smarty_trader.Models.{Ohlcv}
use smarty_trader.Candles.{bar_close_time, closed_bars}
use smarty_trader.Sizing.{ExitReason}
use smarty_trader.Pipeline.{
  Venue, Snapshot, Ownership, Answers, Setup, Cycle, Outcome, CycleError, SkipReason,
  PipelineResult, blank, mark_positions,
}
use smarty_trader.Pipeline.Exits.{close_for_exit, breached_level, overdue}
use smarty_trader.Pipeline.Decide.{decide}

-- The last decision on the symbol, from memory or else from storage, is at or after the bar's close.
-- A decision from storage is remembered.
unfoldable pub awaiting_new_bar :
    {F S : Type 0} → String → Option ℕ → List (Ohlcv F) → Option ℕ → Cycle F S → Bool × Cycle F S
awaiting_new_bar symbol duration closed stored c = elim (last? closed) [
  | none ↦ (false, c)
  | some bar ↦ elim (bar_close_time duration bar) [
    | none ↦ (false, c)
    | some closes ↦ elim (lookup symbol c.last_decision_at) [
      | some last ↦ (leb closes last, c)
      | none ↦ elim stored [
        | none ↦ (false, c)
        | some last ↦
            (leb closes last, record c { last_decision_at = insert symbol last c.last_decision_at })
      ]
    ]
  ]
]

-- the sleeve decides on its own book
abbrev pub has_own_book : {F : Type 0} → Setup F → Bool
has_own_book p = elim p.sleeves [ none ↦ false | some b ↦ b.per_sleeve_books && is_some p.strategy ]

abbrev pub is_own : Option String → String → Bool
is_own none owner = false
is_own (some strategy) owner = owner == strategy

-- `_sleeve_ownership`: `none` is an error
abbrev pub ownership_of : {F : Type 0} → Setup F → Answers F → Option (Option Ownership)
ownership_of p a = elim p.sleeves [ none ↦ some none | some b ↦ a.ownership ]

abbrev pub strategy_in : Option (Option Ownership) → Option String
strategy_in none = none
strategy_in (some none) = none
strategy_in (some (some o)) = some o.strategy

abbrev pub owner_of : {F : Type 0} → Setup F → Answers F → Option String
owner_of p a = strategy_in (ownership_of p a)

abbrev pub labelled : {F S : Type 0} → Option String → Outcome F S → Outcome F S
labelled owner (r, c) = (record r { strategy = owner }, c)

abbrev pub failed : {F : Type 0} → Setup F → CycleError → PipelineResult F
failed p why = record blank { error = some why; strategy = p.strategy }

abbrev pub skipped : {F : Type 0} → Setup F → SkipReason → PipelineResult F
skipped p why = record blank { skip_reason = some why; strategy = p.strategy }

module _ {F S : Type 0} ⦃d : Float F⦄ where
  -- Steps 2 and 3: a sleeve with its own book decides on that, and spends no more than the account has.
  unfoldable pub prepare :
      Setup F → Venue F S → Answers F → String → F → ℕ → Cycle F S → Outcome F S
  unfolding decide
  prepare p v a symbol price fetched_at c =
      if not a.indicators_computed
      then (failed p CycleError.indicators_failed, c)
      else elim (v.portfolio c.venue) [
        | none ↦ (failed p CycleError.portfolio_failed, c)
        | some portfolio ↦
            if has_own_book p
            then elim a.sleeve_portfolio [
              | none ↦ (failed p CycleError.portfolio_failed, c)
              | some book ↦
                  decide p v a symbol price fetched_at portfolio book (some portfolio.cash) c
            ]
            else decide p v a symbol price fetched_at portfolio portfolio none c
      ]

  -- Step 1d: bar timing
  unfoldable pub ask_on_new_bar :
      Setup F → Venue F S → Answers F → String → Option ℕ → Snapshot F → F → Cycle F S → Outcome F S
  unfolding prepare awaiting_new_bar closed_bars
  ask_on_new_bar p v a symbol duration snapshot price c =
      let closed = closed_bars snapshot.candles duration snapshot.fetched_at in
      let (waiting, c') = awaiting_new_bar symbol duration closed a.stored_decision_at c in
      if not p.decide_on_new_bar_only
      then prepare p v a symbol price snapshot.fetched_at c
      else if waiting
      then (skipped p SkipReason.awaiting_bar, c')
      else prepare p v a symbol price snapshot.fetched_at c'

  -- Step 1c': the owning sleeve's time stop, and the lock on what another sleeve holds
  unfoldable pub check_ownership :
      Setup F
      → Venue F S
      → Answers F
      → String
      → Option ℕ
      → Snapshot F
      → F
      → Option Ownership
      → Cycle F S
      → Outcome F S
  unfolding ask_on_new_bar
  check_ownership p v a symbol duration snapshot price none c =
      ask_on_new_bar p v a symbol duration snapshot price c
  check_ownership p v a symbol duration snapshot price (some o) c =
      elim (overdue p v symbol price snapshot.fetched_at o c) [
        | some position ↦ labelled (some o.strategy) (
            close_for_exit p v a.outcome_now symbol position price ExitReason.time_stop
              (some o.strategy) c)
        | none ↦
            if is_own p.strategy o.strategy
            then ask_on_new_bar p v a symbol duration snapshot price c
            else (skipped p (SkipReason.held_by o.strategy), c)
      ]

  -- Steps 1b and 1c: marks and exit levels
  unfoldable pub check_levels :
      Setup F → Venue F S → Answers F → String → Option ℕ → Snapshot F → F → Cycle F S → Outcome F S
  unfolding check_ownership
  check_levels p v a symbol duration snapshot price c = elim (breached_level p v symbol price c) [
    | some (position, why) ↦
        labelled (owner_of p a)
          (close_for_exit p v a.outcome_now symbol position price why (owner_of p a) c)
    | none ↦ elim (ownership_of p a) [
      | none ↦ (failed p CycleError.ownership_failed, c)
      | some o ↦ check_ownership p v a symbol duration snapshot price o c
    ]
  ]

  -- `duration` is the length of the timeframe's bars, if the timeframe has a known form.
  unfoldable pub run_cycle :
      Setup F → Venue F S → Answers F → String → Option ℕ → Cycle F S → Outcome F S
  unfolding check_levels mark_positions
  run_cycle p v a symbol duration c = elim a.snapshot [
    | none ↦ (record blank { error = some CycleError.fetch_failed }, c)
    | some snapshot ↦ elim (last? snapshot.candles) [
      | none ↦ (record blank { error = some CycleError.no_market_data }, c)
      | some bar ↦
          check_levels p v a symbol duration snapshot bar.close (mark_positions v symbol bar c)
    ]
  ]
