-- ===== src/Reconcile.antt =====
-- src/execution/ccxt_executor.py: the orders that the venue has left open, their polling, and the
-- booking of what they traded. The agent confirms a result when it has stored it; without
-- protective orders, whose part is Protection.
use smarty_trader.Prelude.{
  ℕ, ◌-◌, Bool, true, false, not, ◌&&◌, ◌||◌, String, Option, none, some, List, [], ◌∷◌, ◌++◌, ltb,
  leb, length, nat_beq, ◌==◌, string_eq, is_some, or_else, if◌then◌else◌,
}
use smarty_trader.Prelude.Dict.{Dict, lookup, insert, erase}
use smarty_trader.Float.{Float, ◌⊕◌, ◌<?◌, ◌≤?◌, ◌=?◌, zero_f}
use smarty_trader.Models.{OrderSide, OrderStatus, ClosedEntry}
use smarty_trader.Symbols.{base_currency, quote_currency}
use smarty_trader.Tracker.{PositionTracker, SellOutcome, quantity, discard}
use smarty_trader.Tracker.Booking.{FillSide, ExitLevels, book_fill}
pub mod Delivery
pub mod Once
pub mod Book
pub mod Place
mod Tests

-- a fee of a payload: none where its cost is no number
pub record FeeEntry (F : Type 0) : Type 0 where
  pub cost : Option F
  pub currency : String

-- what is read of the payload of an order
pub record RawOrder (F : Type 0) : Type 0 where
  pub status : Option String
  pub filled : Option F
  pub amount : Option F
  pub average : Option F
  pub price : Option F
  pub fees : List (FeeEntry F)
  pub fee : Option (FeeEntry F)
  pub fill_time : ℕ

pub data Note : Type 0 where
  partial_fill past_ttl not_tracked below_minimum : Note

-- the `OrderResult` of an order that the venue has settled
pub record Resolved (F : Type 0) : Type 0 where
  pub order_id : String
  pub symbol : String
  pub side : OrderSide
  pub quantity : F
  pub price : Option F
  pub status : OrderStatus
  pub reason : Option Note
  pub filled_at : Option ℕ
  pub fee_base : Option F
  pub fee_quote : Option F
  pub realized_pnl : Option F
  pub closed_entries : List (ClosedEntry F)

-- `_PendingOrder`
pub record PendingOrder (F : Type 0) : Type 0 where
  pub symbol : String
  pub side : OrderSide
  pub quantity : F
  pub decision_id : Option ℕ
  pub stop_loss : Option F
  pub take_profit : Option F
  pub resolved : Option (Resolved F)
  pub placed_at : Option ℕ
  pub price : Option F

pub record VenueLedger (F : Type 0) : Type 0 where
  pub tracker : PositionTracker F
  pub exit_levels : Dict String (ExitLevels F)

pub record VenueExecutor (F : Type 0) : Type 0 where
  pub ledger : VenueLedger F
  pub open_orders : Dict String (PendingOrder F)
  -- the client provides `fetch_order`
  pub can_fetch : Bool

-- one call of `reconcile_open_orders`: the clock, and what the venue answers about an order, at the
-- poll and after a cancellation
pub record VenueAnswers (F : Type 0) : Type 0 where
  pub now : ℕ
  pub polled : String → Option (RawOrder F)
  pub settled : String → Option (RawOrder F)
  pub min_amount : String → F
  pub upper : String → String
  -- in microseconds
  pub order_ttl : ℕ

-- `_STATUS_MAP`
abbrev pub status_named : String → OrderStatus
status_named s =
    if s == "closed"
    then OrderStatus.filled
    else if s == "canceled" || s == "cancelled" || s == "expired"
    then OrderStatus.cancelled
    else if s == "rejected"
    then OrderStatus.rejected
    else OrderStatus.pending

abbrev pub is_pending : OrderStatus → Bool
is_pending OrderStatus.pending = true
is_pending OrderStatus.filled = false
is_pending OrderStatus.rejected = false
is_pending OrderStatus.cancelled = false
is_pending (OrderStatus.other s) = false

abbrev pub raw_status : Option String → OrderStatus
raw_status none = OrderStatus.pending
raw_status (some s) = status_named s

abbrev pub fill_side : OrderSide → FillSide
fill_side OrderSide.buy = FillSide.buy
fill_side OrderSide.sell = FillSide.sell

module _ {F : Type 0} ⦃d : Float F⦄ where
  -- `x or y`: 0 counts as missing
  abbrev pub nonzero_or : Option F → Option F → Option F
  nonzero_or none y = y
  nonzero_or (some x) y = if x =? zero_f then y else some x

  abbrev pub fees_of : RawOrder F → List (FeeEntry F)
  fees_of raw = elim raw.fees [
    | [] ↦ elim raw.fee [ none ↦ [] | some fee ↦ fee ∷ [] ]
    | _ ↦ raw.fees
  ]

  -- the sums of the fees in the base currency and in the quote currency
  unfoldable pub fee_components :
      (String → String) → String → String → List (FeeEntry F) → F × F → F × F
  fee_components upper base quote [] sums = sums
  fee_components upper base quote (entry ∷ rest) sums =
      let cost = or_else entry.cost zero_f in
      let currency = upper entry.currency in
      fee_components upper base quote rest (
        if cost ≤? zero_f
        then sums
        else if not (base == "") && currency == base
        then (sums.0 ⊕ cost, sums.1)
        else if not (quote == "") && currency == quote
        then (sums.0, sums.1 ⊕ cost)
        else sums)

  unfoldable pub fees_in : VenueAnswers F → String → RawOrder F → F × F
  unfolding fee_components base_currency quote_currency
  fees_in a symbol raw =
      fee_components a.upper (base_currency a.upper symbol) (quote_currency a.upper symbol)
        (fees_of raw) (zero_f, zero_f)

  -- `x or None`
  abbrev pub reported : F → Option F
  reported x = if x =? zero_f then none else some x

  abbrev pub amount_or : RawOrder F → F → F
  amount_or raw requested = or_else (nonzero_or raw.amount none) requested

  abbrev pub resolve_as : OrderStatus → F → RawOrder F → F → OrderStatus × F × Option Note
  resolve_as OrderStatus.filled filled raw requested =
      (OrderStatus.filled, (if filled =? zero_f then amount_or raw requested else filled), none)
  resolve_as OrderStatus.pending filled raw requested =
      (OrderStatus.pending, amount_or raw requested, none)
  resolve_as (OrderStatus.other s) filled raw requested =
      (OrderStatus.other s, amount_or raw requested, none)
  resolve_as OrderStatus.rejected filled raw requested =
      if zero_f <? filled
      then (OrderStatus.filled, filled, some Note.partial_fill)
      else (OrderStatus.rejected, amount_or raw requested, none)
  resolve_as OrderStatus.cancelled filled raw requested =
      if zero_f <? filled
      then (OrderStatus.filled, filled, some Note.partial_fill)
      else (OrderStatus.cancelled, amount_or raw requested, none)

  unfoldable pub resolve_status : RawOrder F → F → OrderStatus × F × Option Note
  resolve_status raw requested =
      resolve_as (raw_status raw.status) (or_else raw.filled zero_f) raw requested

  abbrev pub is_dust : VenueAnswers F → String → F → Bool
  is_dust a symbol qty = qty ≤? d.decimal 1 12 || qty <? a.min_amount symbol

  unfoldable pub write_off_dust : VenueAnswers F → String → VenueLedger F → VenueLedger F
  unfolding quantity discard
  write_off_dust a symbol l =
      let qty = quantity l.tracker symbol in
      if zero_f <? qty && is_dust a symbol qty
      then record {
        tracker = (discard l.tracker symbol).1;
        exit_levels = erase symbol l.exit_levels;
      }
      else l

  -- `_record_fill`, which answers the profit and the entries that it closes
  abbrev pub noted_outcome :
      VenueAnswers F
      → String
      → OrderSide
      → Option (SellOutcome F)
      → VenueLedger F
      → Option F × List (ClosedEntry F) × VenueLedger F
  noted_outcome a symbol OrderSide.buy outcome l = (none, [], l)
  noted_outcome a symbol OrderSide.sell none l = (none, [], l)
  noted_outcome a symbol OrderSide.sell (some o) l =
      (some o.net_pnl, o.closed_entries, write_off_dust a symbol l)

  unfoldable pub record_fill :
      VenueAnswers F
      → PendingOrder F
      → F
      → F
      → RawOrder F
      → VenueLedger F
      → Option F × List (ClosedEntry F) × VenueLedger F
  unfolding book_fill write_off_dust fees_in
  record_fill a p qty fill raw l =
      let fees = fees_in a p.symbol raw in
      let booked =
        book_fill l.tracker p.symbol (fill_side p.side) qty fill fees.0 fees.1 p.decision_id in
      noted_outcome a p.symbol p.side booked.0 (record l { tracker = booked.1 })

  abbrev pub fill_price_of : RawOrder F → Option F
  fill_price_of raw = nonzero_or raw.average raw.price

  abbrev pub unbooked :
      String → PendingOrder F → RawOrder F → OrderStatus × F × Option Note → Resolved F
  unbooked id p raw (status, qty, note) = record {
    order_id = id;
    symbol = p.symbol;
    side = p.side;
    quantity = qty;
    price = fill_price_of raw;
    status = status;
    reason = note;
    filled_at = none;
    fee_base = none;
    fee_quote = none;
    realized_pnl = none;
    closed_entries = [];
  }

  -- the entry plan of a filled BUY
  abbrev pub armed : PendingOrder F → VenueLedger F → VenueLedger F
  armed p l = elim p.side [
    | OrderSide.buy ↦ record l {
      exit_levels = insert p.symbol (p.stop_loss, p.take_profit) l.exit_levels;
    }
    | OrderSide.sell ↦ l
  ]

  -- a fill without a price leaves the ledger as it is
  unfoldable pub book_result :
      VenueAnswers F
      → PendingOrder F
      → RawOrder F
      → Resolved F
      → VenueLedger F
      → Resolved F × VenueLedger F
  unfolding record_fill fees_in
  book_result a p raw r l = elim (fill_price_of raw) [
    | none ↦ (record r { filled_at = some raw.fill_time }, l)
    | some price ↦
        let fees = fees_in a p.symbol raw in
        let booked = record_fill a p r.quantity price raw l in
        (
          record r {
            filled_at = some raw.fill_time;
            fee_base = reported fees.0;
            fee_quote = reported fees.1;
            realized_pnl = booked.0;
            closed_entries = booked.1;
          },
          armed p booked.2,
        )
  ]

  -- a status that is not pending: the result, which is kept until it is confirmed
  unfoldable pub settle :
      VenueAnswers F
      → String
      → PendingOrder F
      → RawOrder F
      → OrderStatus × F × Option Note
      → VenueLedger F
      → PendingOrder F × VenueLedger F
  unfolding book_result
  settle a id p raw outcome l =
      let r = unbooked id p raw outcome in
      elim outcome.0 [
        | OrderStatus.filled ↦
            let booked = book_result a p raw r l in
            (record p { resolved = some booked.0 }, booked.1)
        | OrderStatus.pending ↦ (p, l)
        | _ ↦ (record p { resolved = some r }, l)
      ]

  -- `_expired`
  abbrev pub is_expired : VenueAnswers F → PendingOrder F → Bool
  is_expired a p = elim p.placed_at [
    | none ↦ false
    | some placed ↦ ltb 0 a.order_ttl && leb a.order_ttl (a.now - placed)
  ]

  abbrev pub note_ttl : OrderStatus × F × Option Note → OrderStatus × F × Option Note
  note_ttl (OrderStatus.cancelled, qty, none) = (OrderStatus.cancelled, qty, some Note.past_ttl)
  note_ttl outcome = outcome

  -- an order that is past its time is cancelled, and its last word is read
  unfoldable pub poll_order :
      VenueAnswers F → String → PendingOrder F → VenueLedger F → PendingOrder F × VenueLedger F
  unfolding settle resolve_status
  poll_order a id p l = elim (a.polled id) [
    | none ↦ (p, l)
    | some raw ↦
        let outcome = resolve_status raw p.quantity in
        if is_pending outcome.0 && is_expired a p
        then elim (a.settled id) [
          | none ↦ (p, l)
          | some final ↦ settle a id p final (note_ttl (resolve_status final p.quantity)) l
        ]
        else settle a id p raw outcome l
  ]

  -- the result that one order adds: an order that was resolved before has been listed already
  abbrev pub news_of : PendingOrder F → PendingOrder F → List (Resolved F)
  news_of before after = elim before.resolved [
    | some r ↦ []
    | none ↦ elim after.resolved [ none ↦ [] | some r ↦ r ∷ [] ]
  ]

  abbrev pub poll_unresolved :
      VenueAnswers F → String → PendingOrder F → VenueLedger F → PendingOrder F × VenueLedger F
  poll_unresolved a id p l = elim p.resolved [ none ↦ poll_order a id p l | some r ↦ (p, l) ]

  unfoldable pub reconcile_each :
      VenueAnswers F
      → Dict String (PendingOrder F)
      → VenueLedger F
      → List (Resolved F) × Dict String (PendingOrder F) × VenueLedger F
  unfolding poll_order
  reconcile_each a [] l = ([], [], l)
  reconcile_each a ((id, p) ∷ rest) l =
      let one = poll_unresolved a id p l in
      let others = reconcile_each a rest one.1 in
      (news_of p one.0 ++ others.0, (id, one.0) ∷ others.1, others.2)

  unfoldable pub redelivered : Dict String (PendingOrder F) → List (Resolved F)
  redelivered [] = []
  redelivered ((id, p) ∷ rest) = elim p.resolved [
    | none ↦ redelivered rest
    | some r ↦ r ∷ redelivered rest
  ]

  -- `reconcile_open_orders`; where all orders are resolved, none is polled, and a client
  -- that cannot be asked ends it with nothing
  unfoldable pub reconcile_open_orders :
      VenueAnswers F → VenueExecutor F → List (Resolved F) × VenueExecutor F
  unfolding reconcile_each redelivered
  reconcile_open_orders a ex =
      let known = redelivered ex.open_orders in
      if nat_beq (length known) (length ex.open_orders)
      then (known, ex)
      else if ex.can_fetch
      then (let polled = reconcile_each a ex.open_orders ex.ledger in
          (known ++ polled.0, record ex { ledger = polled.2; open_orders = polled.1 }))
      else ([], ex)

  -- `confirm_reconciled`
  unfoldable pub confirm_reconciled : String → VenueExecutor F → VenueExecutor F
  confirm_reconciled id ex = elim (lookup id ex.open_orders) [
    | none ↦ ex
    | some p ↦
        if is_some p.resolved then record ex { open_orders = erase id ex.open_orders } else ex
  ]
