-- ===== src/Pipeline/Exiting.antt =====
-- A breached exit level closes the position before anything else is decided.
use mathlib.Core.Path.{subst}
use smarty_trader.Prelude.{
  ℕ, ◌≡◌, refl, ap, sym, ◌∙◌, Bool, true, false, String, Option, none, some, List, [], ◌∷◌, ◌++◌,
  ◌&&◌, any, is_some, last?, Bool-cases, inl, inr, Option-cases,
}
use smarty_trader.Float.{Float, ◌<?◌, ◌≤?◌, zero_f}
use smarty_trader.Models.{Position, PositionSide, Ohlcv, OrderResult}
use smarty_trader.Sizing.{ExitReason, closing_side, exit_level_breach}
use smarty_trader.Pipeline.{
  Venue, Snapshot, Answers, Setup, Effect, Cycle, Outcome, mark_positions, is_order_working, send,
}
use smarty_trader.Pipeline.Closing.{closing_order, exit_order-closing_order, is_open-parts}
use smarty_trader.Pipeline.Exits.{
  is_open, first_breach, breached_level, exit_order, close_for_exit, closed_with,
}
use smarty_trader.Pipeline.Run.{check_levels, run_cycle, owner_of, labelled}
use smarty_trader.Pipeline.Effects.{note_fill-log, send-log, mark_positions-log}

module _ {F : Type 0} ⦃d : Float F⦄ (symbol : String) (mark : F) where
  abbrev pub is_breached : Position F → Bool
  is_breached p = is_open symbol p && is_some (exit_level_breach p mark)

  -- An open position of the symbol in `ps` whose level the mark has breached, and why.
  pub record Breach (ps : List (Position F)) : Type 0 where
    pub position : Position F
    pub why : ExitReason
    pub front : List (Position F)
    pub back : List (Position F)
    pub split : ps ≡ front ++ (position ∷ back)
    pub opened : is_open symbol position ≡ true
    pub reached : exit_level_breach position mark ≡ some why

  abbrev Found : List (Position F) → Type 0
  Found ps = (b : Breach ps) × (first_breach symbol mark ps ≡ some (b.position, b.why))

  breach_behind :
      (p : Position F) (ps : List (Position F))
      → first_breach symbol mark (p ∷ ps) ≡ first_breach symbol mark ps
      → Found ps
      → Found (p ∷ ps)
  breach_behind p ps same (b, found) = (
    record {
      position = b.position;
      why = b.why;
      front = p ∷ b.front;
      back = b.back;
      split = ap (λ l. p ∷ l) b.split;
      opened = b.opened;
      reached = b.reached;
    },
    same ∙ found,
  )

  first_breach_hit : (ps : List (Position F)) → any is_breached ps ≡ true → Found ps
  unfolding first_breach
  first_breach_hit [] h = cc
  first_breach_hit (p ∷ ps) h = elim (Bool-cases (is_open symbol p)) [
    | inl held ↦ elim (Option-cases (exit_level_breach p mark)) [
      | inr (why, reached) ↦ (
        record {
          position = p;
          why = why;
          front = [];
          back = ps;
          split = refl;
          opened = held;
          reached = reached;
        },
        rw (held, reached),
      )
      | inl clear ↦
          breach_behind p ps (rw (held, clear)) (first_breach_hit ps (rw (held, clear) at h))
    ]
    | inr closed ↦ breach_behind p ps (rw closed) (first_breach_hit ps (rw closed at h))
  ]

module _ {F S : Type 0} ⦃d : Float F⦄ (p : Setup F) (v : Venue F S) (a : Answers F)
    (symbol : String) (duration : Option ℕ) (c : Cycle F S) (bar : Ohlcv F) where
  -- the state after the marks
  abbrev marked : Cycle F S
  marked = mark_positions v symbol bar c

  -- the result of a close for `b`
  pub record Closes (ps : List (Position F)) (out : Outcome F S) : Type 0 where
    pub breach : Breach symbol bar.close ps
    pub of_symbol : breach.position.symbol ≡ symbol
    pub above_zero : (zero_f <? breach.position.quantity) ≡ true
    pub log : out.1.log ≡ Effect.placed (closing_order symbol breach.position bar.close) ∷ c.log
    pub reason : out.0.exit_reason ≡ some breach.why
    pub unasked : out.0.signal ≡ none

  closed_with-log :
      (owner : Option String) (now : ℕ) (why : ExitReason)
      (out : Option (OrderResult F) × Cycle F S)
      → let r = closed_with p owner now why out in
        (r.1.log ≡ out.1.log) × (r.0.exit_reason ≡ some why) × (r.0.signal ≡ none)
  unfolding closed_with
  closed_with-log owner now why (none, c') = (refl, refl, refl)
  closed_with-log owner now why (some o, c') = (note_fill-log p owner now o c', refl, refl)

  breached_level-first :
      (ps : List (Position F))
      → (marked.engines p.own).settings.enforce_exit_levels ≡ true
      → (bar.close ≤? zero_f) ≡ false
      → v.positions marked.venue ≡ some ps
      → breached_level p v symbol bar.close marked ≡ first_breach symbol bar.close ps
  unfolding breached_level
  breached_level-first ps on priced readable = rw (on, priced, readable)

  check_levels-close :
      (snapshot : Snapshot F) (position : Position F) (why : ExitReason)
      → breached_level p v symbol bar.close marked ≡ some (position, why)
      → is_order_working v symbol (closing_side position.side) marked ≡ false
      → check_levels p v a symbol duration snapshot bar.close marked
        ≡ labelled (owner_of p a) (
            closed_with p
              (owner_of p a)
              a.outcome_now
              why
              (send v (exit_order symbol position bar.close) marked))
  unfolding check_levels close_for_exit
  check_levels-close snapshot position why hit free = rw (hit, free, check_levels, close_for_exit)

  run_cycle-levels :
      (snapshot : Snapshot F)
      → a.snapshot ≡ some snapshot
      → last? snapshot.candles ≡ some bar
      → run_cycle p v a symbol duration c
        ≡ check_levels p v a symbol duration snapshot bar.close marked
  unfolding run_cycle
  run_cycle-levels snapshot fetched latest = rw (fetched, latest, run_cycle)

  close-Closes :
      (ps : List (Position F)) (b : Breach symbol bar.close ps)
      → Closes ps (
          labelled (owner_of p a) (
            closed_with p
              (owner_of p a)
              a.outcome_now
              b.why
              (send v (exit_order symbol b.position bar.close) marked)))
  close-Closes ps b =
      let sent = send v (exit_order symbol b.position bar.close) marked in
      let (logged, reason, unasked) = closed_with-log (owner_of p a) a.outcome_now b.why sent in
      record {
        breach = b;
        of_symbol = (is_open-parts symbol b.position b.opened).0;
        above_zero = (is_open-parts symbol b.position b.opened).1;
        log =
            logged
            ∙ send-log v (exit_order symbol b.position bar.close) marked
            ∙ ap (λ l. Effect.placed (exit_order symbol b.position bar.close) ∷ l)
                (mark_positions-log v symbol bar c)
            ∙ ap (λ r. Effect.placed r ∷ c.log)
                (exit_order-closing_order symbol b.position bar.close);
        reason = reason;
        unasked = unasked;
      }

  -- Where exit levels are enforced, the price is positive and the positions can be read, a breached
  -- level of an open position of the symbol is closed in that very cycle, in full and at the mark, if
  -- no exit of it is working at the venue: the model is not asked, and no verdict of the gate, no
  -- sleeve and no bar timing holds the close back.
  pub run_cycle-Closes :
      (snapshot : Snapshot F) (ps : List (Position F))
      → a.snapshot ≡ some snapshot
      → last? snapshot.candles ≡ some bar
      → (marked.engines p.own).settings.enforce_exit_levels ≡ true
      → (bar.close ≤? zero_f) ≡ false
      → v.positions marked.venue ≡ some ps
      → any (is_breached symbol bar.close) ps ≡ true
      → ((side : PositionSide) → is_order_working v symbol (closing_side side) marked ≡ false)
      → Closes ps (run_cycle p v a symbol duration c)
  run_cycle-Closes snapshot ps fetched latest on priced readable breached free =
      let (b, found) = first_breach_hit symbol bar.close ps breached in
      let hit = breached_level-first ps on priced readable ∙ found in
      subst (Closes ps)
        (sym (
          run_cycle-levels snapshot fetched latest
          ∙ check_levels-close snapshot b.position b.why hit (free b.position.side)))
        (close-Closes ps b)
