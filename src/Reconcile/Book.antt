-- ===== src/Reconcile/Book.antt =====
-- src/execution/ccxt_executor.py: the book of the executor: its restart, its working orders, the
-- positions that it reports.
use smarty_trader.Prelude.{
  ℕ, ◌≡◌, refl, Bool, true, false, not, ◌&&◌, ◌||◌, String, Option, none, some, List, [], ◌∷◌,
  select, map, ◌==◌, string_eq, is_some, or_else, if_cases, arith, if◌then◌else◌,
}
use mathlib.Core.Logic.{inl, inr, ◌⊎◌}
use smarty_trader.Prelude.Dict.{Dict, lookup, insert, get_or}
use smarty_trader.Float.{◌≤?◌, Float, ◌⊗◌, ◌<?◌, zero_f, sum_f}
use smarty_trader.Models.{OrderSide, Position, PositionSide}
use smarty_trader.Tracker.{empty_tracker, quantity, average_price, symbols}
use smarty_trader.Tracker.Booking.{FillRecord, replay_fills}
use smarty_trader.Symbols.{before_slash}
use smarty_trader.Rehydration.{PendingOrderRecord}
use smarty_trader.Reconcile.{
  PendingOrder, VenueLedger, VenueExecutor, VenueAnswers, is_dust, write_off_dust,
}

abbrev pub is_buy_order : OrderSide → Bool
is_buy_order OrderSide.buy = true
is_buy_order OrderSide.sell = false

or_true : (x y : Bool) → (x || y) ≡ true → (x ≡ true) ⊎ (y ≡ true)
or_true true y h = inl refl
or_true false y h = inr h

module _ {F : Type 0} ⦃d : Float F⦄ where
  unfoldable pub load_fills : List (FillRecord F) → VenueExecutor F → VenueExecutor F
  load_fills fills ex =
      let replayed = replay_fills empty_tracker fills in
      record ex { ledger = record { tracker = replayed.tracker; exit_levels = replayed.levels } }

  -- a stored row without a time starts its time to live now
  abbrev pub pending_of_row : ℕ → PendingOrderRecord F → PendingOrder F
  pending_of_row now o = record {
    symbol = o.symbol;
    side = o.side;
    quantity = o.quantity;
    decision_id = o.decision_id;
    stop_loss = o.stop_loss;
    take_profit = o.take_profit;
    resolved = none;
    placed_at = some (or_else o.placed_at now);
    price = o.price;
  }

  unfoldable pub load_pending_orders :
      ℕ → List (PendingOrderRecord F) → VenueExecutor F → VenueExecutor F
  load_pending_orders now [] ex = ex
  load_pending_orders now (o ∷ rest) ex = load_pending_orders now rest (
      if o.order_id == "" || is_some (lookup o.order_id ex.open_orders)
      then ex
      else record ex { open_orders = insert o.order_id (pending_of_row now o) ex.open_orders })

  -- an order of the dictionary that the venue has not settled
  abbrev pub is_working_in : String → PendingOrder F → Bool
  is_working_in symbol p = p.symbol == symbol && not (is_some p.resolved)

  abbrev pub pending_orders : VenueExecutor F → List (PendingOrder F)
  pending_orders ex = map (λ (x : String × PendingOrder F). x.1) ex.open_orders

  unfoldable pub pending_decision_id : String → VenueExecutor F → Option ℕ
  pending_decision_id id ex = elim (lookup id ex.open_orders) [
    | none ↦ none
    | some p ↦ p.decision_id
  ]

  unfoldable pub pending_entry_decision_ids : String → VenueExecutor F → List (Option ℕ)
  pending_entry_decision_ids symbol ex =
      map (λ (p : PendingOrder F). p.decision_id)
        (select (λ (p : PendingOrder F). is_working_in symbol p && is_buy_order p.side)
          (pending_orders ex))

  abbrev pub committed : PendingOrder F → F
  committed p = p.quantity ⊗ or_else p.price zero_f

  unfoldable pub pending_buy_value : VenueExecutor F → F
  pending_buy_value ex = sum_f (
      map (λ (p : PendingOrder F). committed p)
        (select
          (λ (p : PendingOrder F).
            is_buy_order p.side && not (is_some p.resolved) && is_some p.price)
          (pending_orders ex)))

  -- a set, which is a list here: `in` is all that the pipeline asks of it
  unfoldable pub working_order_sides : String → VenueExecutor F → List OrderSide
  working_order_sides symbol ex =
      map (λ (p : PendingOrder F). p.side)
        (select (λ (p : PendingOrder F). is_working_in symbol p) (pending_orders ex))

  unfoldable pub write_off_each : VenueAnswers F → List String → VenueLedger F → VenueLedger F
  unfolding write_off_dust
  write_off_each a [] l = l
  write_off_each a (symbol ∷ rest) l = write_off_each a rest (write_off_dust a symbol l)

  -- the venue's balances: none is a failed read
  abbrev pub balance_of : Option (Dict String F) → String → Option F
  balance_of none symbol = none
  balance_of (some totals) symbol = lookup (before_slash symbol) totals

  -- `min(qty, held)`
  abbrev pub capped_by : F → Option F → F
  capped_by qty none = qty
  capped_by qty (some held) = if held <? qty then held else qty

  abbrev pub held_position : Dict String F → VenueLedger F → String → F → Position F
  held_position marks l symbol qty = record {
    symbol = symbol;
    quantity = qty;
    avg_entry_price = or_else (average_price l.tracker symbol) zero_f;
    current_price = get_or symbol (or_else (average_price l.tracker symbol) zero_f) marks;
    side = PositionSide.long;
    stop_loss = (get_or symbol (none, none) l.exit_levels).0;
    take_profit = (get_or symbol (none, none) l.exit_levels).1;
  }

  unfoldable pub positions_from :
      VenueAnswers F
      → Option (Dict String F)
      → Dict String F
      → VenueLedger F
      → List String
      → List (Position F)
  positions_from a totals marks l [] = []
  positions_from a totals marks l (symbol ∷ rest) =
      let others = positions_from a totals marks l rest in
      let qty = capped_by (quantity l.tracker symbol) (balance_of totals symbol) in
      if is_dust a symbol qty then others else held_position marks l symbol qty ∷ others

  -- `get_positions`, which writes the dust off first
  unfoldable pub get_positions :
      VenueAnswers F
      → Option (Dict String F)
      → Dict String F
      → VenueExecutor F
      → List (Position F) × VenueExecutor F
  unfolding positions_from write_off_each
  get_positions a totals marks ex =
      let l = write_off_each a (symbols ex.ledger.tracker) ex.ledger in
      (positions_from a totals marks l (symbols l.tracker), record ex { ledger = l })

  -- The quantity to report: what the ledger has, unless the venue answers with a smaller balance.
  abbrev pub IsCapped : Option F → F → F → Type 0
  IsCapped none tracked qty = qty ≡ tracked
  IsCapped (some held) tracked qty =
      (((held <? tracked) ≡ true) × (qty ≡ held)) ⊎ (((held <? tracked) ≡ false) × (qty ≡ tracked))

  -- The balances are by base asset; without an answer the ledger stands alone.
  abbrev pub IsBacked : Option (Dict String F) → VenueLedger F → String → F → Type 0
  IsBacked none l symbol qty = qty ≡ quantity l.tracker symbol
  IsBacked (some totals) l symbol qty =
      IsCapped (lookup (before_slash symbol) totals) (quantity l.tracker symbol) qty

  module _ (a : VenueAnswers F) (totals : Option (Dict String F)) (l : VenueLedger F) where
    -- Symbol by symbol, in the ledger's order: dust is left out, anything else is a long position.
    pub data Reports : List String → List (Position F) → Type 0 where
      finished : Reports [] []
      left_out :
          {symbol : String} {rest : List String} {ps : List (Position F)} (qty : F)
          → IsBacked totals l symbol qty
          → ((qty ≤? d.decimal 1 12) ≡ true) ⊎ ((qty <? a.min_amount symbol) ≡ true)
          → Reports rest ps
          → Reports (symbol ∷ rest) ps
      reported :
          {symbol : String} {rest : List String} {ps : List (Position F)} (p : Position F)
          → p.symbol ≡ symbol
          → p.side ≡ PositionSide.long
          → IsBacked totals l symbol p.quantity
          → (p.quantity ≤? d.decimal 1 12) ≡ false
          → (p.quantity <? a.min_amount symbol) ≡ false
          → Reports rest ps
          → Reports (symbol ∷ rest) (p ∷ ps)

  capped_by-IsCapped : (qty : F) (held : Option F) → IsCapped held qty (capped_by qty held)
  capped_by-IsCapped qty none = refl
  capped_by-IsCapped qty (some held) =
      if_cases (λ x. (((held <? qty) ≡ true) × (x ≡ held)) ⊎ (((held <? qty) ≡ false) × (x ≡ qty)))
        (held <? qty) (λ e. inl (e, refl)) (λ e. inr (e, refl))

  balance_of-IsBacked :
      (totals : Option (Dict String F)) (l : VenueLedger F) (symbol : String)
      → IsBacked totals l symbol (capped_by (quantity l.tracker symbol) (balance_of totals symbol))
  balance_of-IsBacked none l symbol = refl
  balance_of-IsBacked (some totals) l symbol =
      capped_by-IsCapped (quantity l.tracker symbol) (lookup (before_slash symbol) totals)

  positions_from-Reports :
      (a : VenueAnswers F) (totals : Option (Dict String F)) (marks : Dict String F)
      (l : VenueLedger F) (xs : List String)
      → Reports a totals l xs (positions_from a totals marks l xs)
  unfolding positions_from
  positions_from-Reports a totals marks l [] = Reports.finished
  positions_from-Reports a totals marks l (symbol ∷ rest) =
      let qty = capped_by (quantity l.tracker symbol) (balance_of totals symbol) in
      let backed = balance_of-IsBacked totals l symbol in
      let others = positions_from-Reports a totals marks l rest in
      let small = qty ≤? d.decimal 1 12 in
      let least = qty <? a.min_amount symbol in
      if_cases (λ ps. Reports a totals l (symbol ∷ rest) ps) (is_dust a symbol qty)
        (λ e. Reports.left_out qty backed (or_true small least e) others)
        (λ e.
          Reports.reported (held_position marks l symbol qty) refl refl backed (ground (arith, e))
            (ground (arith, e)) others)

  -- Over the symbols of the ledger from which the dust was written off, `get_positions` reports
  -- exactly those that are no dust, each once and in the ledger's order: more than 10^-12 and no
  -- less than the venue's minimum. The quantity of each is the venue's balance of the base asset
  -- where that is smaller than the ledger's, and the ledger's otherwise.
  pub get_positions-Reports :
      (a : VenueAnswers F) (totals : Option (Dict String F)) (marks : Dict String F)
      (ex : VenueExecutor F)
      → let out = get_positions a totals marks ex in
        Reports a totals out.1.ledger (symbols out.1.ledger.tracker) out.0
  unfolding get_positions
  get_positions-Reports a totals marks ex =
      let l = write_off_each a (symbols ex.ledger.tracker) ex.ledger in
      positions_from-Reports a totals marks l (symbols l.tracker)
