-- ===== src/Pipeline/Ordered.antt =====
-- A whole cycle is orderly: at most one order, and that after an approval or to close a position.
use mathlib.Core.Path.{subst}
use mathlib.Core.List.{Mem, mem-cons_self, mem-cons_of_mem}
use smarty_trader.Prelude.{
  or_else, ◌||◌, true, [], string_eq, if_cases, if_both, option_both, ℕ, ◌≡◌, refl, ap, sym, not,
  ◌∙◌, String, Option, none, some, List, ◌∷◌, last?, arith, Bool-cases, inl, inr, Option-cases,
}
use smarty_trader.Float.{Float, ◌<?◌, ◌≤?◌, zero_f}
use smarty_trader.Models.{Position, PortfolioState, Ohlcv}
use smarty_trader.Sizing.{ExitReason, exit_level_breach}
use smarty_trader.Pipeline.{
  CycleError, SkipReason, Venue, Snapshot, Ownership, Answers, Setup, Effect, Cycle, Outcome,
  mark_positions,
}
use smarty_trader.Pipeline.Exits.{
  time_stop_due, close_for_exit, breached_level, overdue, first_open, first_breach, is_open,
}
use smarty_trader.Pipeline.Closing.{is_open-parts}
use smarty_trader.Pipeline.Decide.{decide, gate, planned_quantity}
use smarty_trader.Pipeline.Run.{
  prepare, ask_on_new_bar, check_ownership, check_levels, run_cycle, awaiting_new_bar, has_own_book,
  is_own, ownership_of, owner_of, failed, skipped,
}
use smarty_trader.Candles.{closed_bars}
use smarty_trader.Pipeline.Effects.{mark_positions-log, gate-log}
use smarty_trader.Pipeline.Orderly.{
  Orderly, close_for_exit-Orderly, labelled-Orderly, conclude-Orderly,
}

module _ {F : Type 0} ⦃d : Float F⦄ where
  first_open-found :
      (symbol : String) (ps : List (Position F)) (x : Position F)
      → first_open symbol ps ≡ some x
      → Mem x ps × (is_open symbol x ≡ true)
  unfolding first_open
  first_open-found symbol [] x h = absurd (ground (arith, h))
  first_open-found symbol (p ∷ ps) x h = elim (Bool-cases (is_open symbol p)) [
    | inl e ↦
        let same : some p ≡ some x = rw (e) at h in
        subst (λ y. Mem y (p ∷ ps) × (is_open symbol y ≡ true)) (ap (λ o. or_else o p) same)
          (mem-cons_self, e)
    | inr e ↦
        let found = first_open-found symbol ps x (rw (e) at h) in
        (mem-cons_of_mem p found.0, found.1)
  ]

  first_breach-found :
      (symbol : String) (mark : F) (ps : List (Position F)) (x : Position F) (why : ExitReason)
      → first_breach symbol mark ps ≡ some (x, why)
      → Mem x ps × (is_open symbol x ≡ true)
  unfolding first_breach
  first_breach-found symbol mark [] x why h = absurd (ground (arith, h))
  first_breach-found symbol mark (p ∷ ps) x why h = elim (Bool-cases (is_open symbol p)) [
    | inr e ↦
        let found = first_breach-found symbol mark ps x why (rw (e) at h) in
        (mem-cons_of_mem p found.0, found.1)
    | inl e ↦ elim (Option-cases (exit_level_breach p mark)) [
      | inl clear ↦
          let found = first_breach-found symbol mark ps x why (rw (e, clear) at h) in
          (mem-cons_of_mem p found.0, found.1)
      | inr (w, reached) ↦
          let same : some (p, w) ≡ some (x, why) = rw (e, reached) at h in
          subst (λ y. Mem y (p ∷ ps) × (is_open symbol y ≡ true))
            (ap (λ (o : Option (Position F × ExitReason)). (or_else o (p, w)).0) same)
            (mem-cons_self, e)
    ]
  ]

module _ {F S : Type 0} ⦃d : Float F⦄ (v : Venue F S) (a : Answers F) (symbol : String)
    (start : Cycle F S) where
  -- One of the positions that the venue lists once the bar's close is marked, of the symbol, with a
  -- quantity above zero, and that close is the mark.
  pub record IsHeld (position : Position F) (mark : F) : Type 0 where
    pub snapshot : Snapshot F
    pub answered : a.snapshot ≡ some snapshot
    pub bar : Ohlcv F
    pub newest : last? snapshot.candles ≡ some bar
    pub at_close : mark ≡ bar.close
    pub positions : List (Position F)
    pub read : v.positions (mark_positions v symbol bar start).venue ≡ some positions
    pub listed : Mem position positions
    pub of_symbol : position.symbol ≡ symbol
    pub above_zero : (zero_f <? position.quantity) ≡ true

module _ {F S : Type 0} ⦃d : Float F⦄ (symbol : String) (before : List (Effect F))
    (MayClose : Position F → F → Type 0) (p : Setup F) (v : Venue F S) (a : Answers F) where
  abbrev Fine : Outcome F S → Type 0
  Fine out = Orderly p v a symbol before MayClose out

  -- what the venue lists in a cycle may be closed at the price
  abbrev MayCloseIn : F → Cycle F S → Type 0
  MayCloseIn price c =
      (ps : List (Position F)) (x : Position F)
      → v.positions c.venue ≡ some ps
      → Mem x ps
      → is_open symbol x ≡ true
      → MayClose x price

  overdue-found :
      (price : F) (now : ℕ) (o : Ownership) (c : Cycle F S) (x : Position F)
      → MayCloseIn price c
      → overdue p v symbol price now o c ≡ some x
      → MayClose x price
  unfolding overdue
  overdue-found price now o c x may h =
      option_both (λ found. found ≡ some x → MayClose x price) p.sleeves
        (λ e k. absurd (ground (arith, k)))
        (λ b e.
          if_cases (λ found. found ≡ some x → MayClose x price)
            (not (time_stop_due b o now) || price ≤? zero_f) (λ _ k. absurd (ground (arith, k)))
            (λ _.
              option_both (λ found. found ≡ some x → MayClose x price) (v.positions c.venue)
                (λ _ k. absurd (ground (arith, k)))
                (λ ps readable k.
                  let found = first_open-found symbol ps x k in may ps x readable found.0 found.1)))
        h

  breached_level-found :
      (price : F) (c : Cycle F S) (x : Position F) (why : ExitReason)
      → MayCloseIn price c
      → breached_level p v symbol price c ≡ some (x, why)
      → MayClose x price
  unfolding breached_level
  breached_level-found price c x why may h =
      if_cases (λ found. found ≡ some (x, why) → MayClose x price)
        (not (c.engines p.own).settings.enforce_exit_levels || price ≤? zero_f)
        (λ _ k. absurd (ground (arith, k)))
        (λ _.
          option_both (λ found. found ≡ some (x, why) → MayClose x price) (v.positions c.venue)
            (λ _ k. absurd (ground (arith, k)))
            (λ ps readable k.
              let found = first_breach-found symbol price ps x why k in
              may ps x readable found.0 found.1))
        h

  decide-Orderly :
      (price : F) (fetched_at : ℕ) (portfolio book : PortfolioState F) (limit : Option F)
      (c : Cycle F S)
      → c.log ≡ before
      → Fine (decide p v a symbol price fetched_at portfolio book limit c)
  unfolding decide
  decide-Orderly price fetched_at portfolio book limit c h =
      let signal = record a.signal { symbol = symbol } in
      let planned = planned_quantity p v signal book limit price c in
      conclude-Orderly p v a symbol before MayClose signal price fetched_at planned
        (gate p a signal price planned portfolio book c)
        (gate-log p a signal price planned portfolio book c ∙ ap (λ l. Effect.asked ∷ l) h)
        (λ quantity sized allowed. record {
          portfolio = portfolio;
          book = book;
          limit = limit;
          asked_in = c;
          sized = sized;
          gated = ap (λ o. (gate p a signal price o portfolio book c).0) (sym sized);
          allowed = allowed;
        })

  awaiting_new_bar-log :
      (duration : Option ℕ) (closed : List (Ohlcv F)) (stored : Option ℕ) (c : Cycle F S)
      → (awaiting_new_bar symbol duration closed stored c).1.log ≡ c.log
  unfolding awaiting_new_bar
  awaiting_new_bar-log duration closed stored c = ground arith

  prepare-Orderly :
      (price : F) (fetched_at : ℕ) (c : Cycle F S)
      → c.log ≡ before
      → Fine (prepare p v a symbol price fetched_at c)
  unfolding prepare
  prepare-Orderly price fetched_at c h =
      if_both Fine (not a.indicators_computed) (failed p CycleError.indicators_failed, c)
        (Orderly.quiet h refl)
        (option_both Fine (v.portfolio c.venue) (λ e. Orderly.quiet h refl)
          (λ portfolio e. elim (Bool-cases (has_own_book p)) [
            | inr shared ↦ rw shared (decide-Orderly price fetched_at portfolio portfolio none c h)
            | inl own ↦ rw own (
                option_both Fine a.sleeve_portfolio (λ f. Orderly.quiet h refl)
                  (λ book f.
                    decide-Orderly price fetched_at portfolio book (some portfolio.cash) c h))
          ]))

  ask_on_new_bar-Orderly :
      (duration : Option ℕ) (snapshot : Snapshot F) (price : F) (c : Cycle F S)
      → c.log ≡ before
      → Fine (ask_on_new_bar p v a symbol duration snapshot price c)
  unfolding ask_on_new_bar
  ask_on_new_bar-Orderly duration snapshot price c h =
      let closed = closed_bars snapshot.candles duration snapshot.fetched_at in
      let asked = awaiting_new_bar symbol duration closed a.stored_decision_at c in
      let waited = awaiting_new_bar-log duration closed a.stored_decision_at c ∙ h in
      if_both Fine (not p.decide_on_new_bar_only) (prepare p v a symbol price snapshot.fetched_at c)
        (prepare-Orderly price snapshot.fetched_at c h)
        (if_both Fine asked.0 (skipped p SkipReason.awaiting_bar, asked.1)
          (Orderly.quiet waited refl) (prepare-Orderly price snapshot.fetched_at asked.1 waited))

  check_ownership-Orderly :
      (duration : Option ℕ) (snapshot : Snapshot F) (price : F) (o : Option Ownership)
      (c : Cycle F S)
      → MayCloseIn price c
      → c.log ≡ before
      → Fine (check_ownership p v a symbol duration snapshot price o c)
  unfolding check_ownership
  check_ownership-Orderly duration snapshot price none c may h =
      ask_on_new_bar-Orderly duration snapshot price c h
  check_ownership-Orderly duration snapshot price (some o) c may h =
      elim (Option-cases (overdue p v symbol price snapshot.fetched_at o c)) [
        | inr (position, late) ↦
            rw (late, check_ownership)
              (labelled-Orderly p v a symbol before MayClose (some o.strategy)
                (close_for_exit p v a.outcome_now symbol position price ExitReason.time_stop
                  (some o.strategy) c)
                (close_for_exit-Orderly p v a symbol before MayClose a.outcome_now position price
                  ExitReason.time_stop (some o.strategy) c
                  (overdue-found price snapshot.fetched_at o c position may late) h))
        | inl early ↦ elim (Bool-cases (is_own p.strategy o.strategy)) [
          | inl own ↦
              rw (early, own, check_ownership) (ask_on_new_bar-Orderly duration snapshot price c h)
          | inr other ↦ rw (early, other, check_ownership) (Orderly.quiet h refl)
        ]
      ]

  check_levels-Orderly :
      (duration : Option ℕ) (snapshot : Snapshot F) (price : F) (c : Cycle F S)
      → MayCloseIn price c
      → c.log ≡ before
      → Fine (check_levels p v a symbol duration snapshot price c)
  unfolding check_levels
  check_levels-Orderly duration snapshot price c may h =
      elim (Option-cases (breached_level p v symbol price c)) [
        | inr ((position, why), hit) ↦
            rw (hit, check_levels)
              (labelled-Orderly p v a symbol before MayClose (owner_of p a)
                (close_for_exit p v a.outcome_now symbol position price why (owner_of p a) c)
                (close_for_exit-Orderly p v a symbol before MayClose a.outcome_now position price
                  why (owner_of p a) c (breached_level-found price c position why may hit) h))
        | inl clear ↦ elim (Option-cases (ownership_of p a)) [
          | inl unknown ↦ rw (clear, unknown, check_levels) (Orderly.quiet h refl)
          | inr (o, known) ↦
              rw (clear, known, check_levels)
                (check_ownership-Orderly duration snapshot price o c may h)
        ]
      ]

module _ {F S : Type 0} ⦃d : Float F⦄ (symbol : String) (p : Setup F) (v : Venue F S)
    (a : Answers F) where
  -- Whatever the venue, the model and the storage answer, a cycle sends at most one order. Either it
  -- closes, without asking the model, a position of the symbol that the venue lists with a quantity
  -- above zero: all of it, on the other side, at the close of the newest bar. Or it is the order of
  -- the signal after its approval, for the very quantity that was sized and approved. Otherwise the
  -- cycle ends without an order, and its result has none.
  pub run_cycle-Orderly :
      (duration : Option ℕ) (c : Cycle F S)
      → Orderly p v a symbol c.log (IsHeld v a symbol c) (run_cycle p v a symbol duration c)
  unfolding run_cycle
  run_cycle-Orderly duration c =
      let MayClose = IsHeld v a symbol c in
      option_both (Fine symbol c.log MayClose p v a) a.snapshot (λ e. Orderly.quiet refl refl)
        (λ snapshot e.
          option_both (Fine symbol c.log MayClose p v a) (last? snapshot.candles)
            (λ f. Orderly.quiet refl refl)
            (λ bar f.
              check_levels-Orderly symbol c.log MayClose p v a duration snapshot bar.close
                (mark_positions v symbol bar c)
                (λ ps x readable member open_one. record {
                  snapshot = snapshot;
                  answered = e;
                  bar = bar;
                  newest = f;
                  at_close = refl;
                  positions = ps;
                  read = readable;
                  listed = member;
                  of_symbol = (is_open-parts symbol x open_one).0;
                  above_zero = (is_open-parts symbol x open_one).1;
                })
                (mark_positions-log v symbol bar c)))
