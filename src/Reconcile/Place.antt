-- ===== src/Reconcile/Place.antt =====
-- `place_order` of src/execution/ccxt_executor.py: what is sent to the venue, and what its answer
-- does to the book.
use mathlib.Core.Logic.{◌⊎◌}
use mathlib.Core.Path.{subst}
use smarty_trader.Prelude.{
  sym, ap, ◌∙◌, ℕ, ◌≡◌, refl, Bool, false, not, ◌&&◌, ◌||◌, String, Option, none, some, [], ◌==◌,
  string_eq, or_else, if_cases, if◌then◌else◌, arith,
}
use smarty_trader.Prelude.Dict.{insert, erase}
use smarty_trader.Float.{Float, ◌⊕◌, ◌⊖◌, ◌⊗◌, ◌<?◌, ◌≤?◌, zero_f, one_f}
use smarty_trader.Models.{OrderSide, OrderStatus, is_filled}
use smarty_trader.Tracker.{quantity}
use smarty_trader.Reconcile.{
  RawOrder, Note, Resolved, PendingOrder, VenueLedger, VenueExecutor, VenueAnswers, is_pending,
  is_dust, nonzero_or, resolve_status, fees_in, reported, record_fill, armed,
}

-- the order that goes to the venue: at market where it has no limit
pub record Sent (F : Type 0) : Type 0 where
  pub symbol : String
  pub side : OrderSide
  pub amount : F
  pub limit : Option F

-- the ccxt client at one placement, and the settings of the orders
pub record VenueClient (F : Type 0) : Type 0 where
  pub amount_to_precision : String → F → F
  pub price_to_precision : String → F → F
  -- the id and the payload; none is an exception
  pub create_order : Sent F → Option (String × RawOrder F)
  pub fetch_order : String → Option (RawOrder F)
  -- the key of the row of an order that was never sent
  pub unsent_id : String
  pub exits_at_market : Bool
  pub exit_offset_pct : F
  pub entry_offset_pct : F

pub record Placement (F : Type 0) : Type 0 where
  pub sent : Option (Sent F)
  -- none where the call raises
  pub result : Option (Resolved F)
  pub executor : VenueExecutor F

-- the arguments of `place_order`, as the order that may be left open
pub record VenueRequest (F : Type 0) : Type 0 where
  pub symbol : String
  pub side : OrderSide
  pub quantity : F
  pub price : Option F
  pub decision_id : Option ℕ
  pub stop_loss : Option F
  pub take_profit : Option F

module _ {F : Type 0} ⦃d : Float F⦄ where
  -- `_order_terms`
  unfoldable pub limit_price : VenueClient F → String → OrderSide → Option F → Option F
  limit_price v symbol side none = none
  limit_price v symbol OrderSide.sell (some price) =
      if v.exits_at_market
      then none
      else some (v.price_to_precision symbol (price ⊗ (one_f ⊖ v.exit_offset_pct)))
  limit_price v symbol OrderSide.buy (some price) =
      some (v.price_to_precision symbol (price ⊗ (one_f ⊕ v.entry_offset_pct)))

  abbrev pub tracked_amount : VenueClient F → VenueLedger F → String → F
  tracked_amount v l symbol = v.amount_to_precision symbol (quantity l.tracker symbol)

  -- a SELL closes what is tracked, at most
  unfoldable pub sendable : VenueClient F → VenueLedger F → String → OrderSide → F → Option F
  sendable v l symbol OrderSide.buy amount = some amount
  sendable v l symbol OrderSide.sell amount =
      let tracked = tracked_amount v l symbol in
      if tracked ≤? zero_f then none else some (if tracked <? amount then tracked else amount)

  abbrev pub unsent : VenueClient F → VenueRequest F → Note → VenueExecutor F → Placement F
  unsent v o note ex = record {
    sent = none;
    result = some (record {
      order_id = v.unsent_id;
      symbol = o.symbol;
      side = o.side;
      quantity = o.quantity;
      price = o.price;
      status = OrderStatus.rejected;
      reason = some note;
      filled_at = none;
      fee_base = none;
      fee_quote = none;
      realized_pnl = none;
      closed_entries = [];
    });
    executor = ex;
  }

  abbrev pub pending_of : ℕ → VenueRequest F → F → Option F → PendingOrder F
  pending_of now o amount price = record {
    symbol = o.symbol;
    side = o.side;
    quantity = amount;
    decision_id = o.decision_id;
    stop_loss = o.stop_loss;
    take_profit = o.take_profit;
    resolved = none;
    placed_at = some now;
    price = price;
  }

  -- `_confirm`: an acknowledgement is asked for once more
  abbrev pub confirmed_answer : VenueClient F → String → F → RawOrder F → RawOrder F
  confirmed_answer v id amount raw =
      if is_pending (resolve_status raw amount).0 && not (id == "")
      then or_else (v.fetch_order id) raw
      else raw

  abbrev pub without_flat : String → VenueLedger F → VenueLedger F
  without_flat symbol l =
      if quantity l.tracker symbol ≤? zero_f
      then record l { exit_levels = erase symbol l.exit_levels }
      else l

  abbrev pub with_ledger : VenueExecutor F → VenueLedger F → VenueExecutor F
  with_ledger ex l = record ex { ledger = l }

  abbrev pub result_of :
      VenueRequest F → String → RawOrder F → OrderStatus × F × Option Note → Option F → Resolved F
  result_of o id raw (status, qty, note) price = record {
    order_id = id;
    symbol = o.symbol;
    side = o.side;
    quantity = qty;
    price = price;
    status = status;
    reason = note;
    filled_at = if is_filled status then some raw.fill_time else none;
    fee_base = none;
    fee_quote = none;
    realized_pnl = none;
    closed_entries = [];
  }

  -- a fill at a price feeds the ledger; an order that is pending stays open
  unfoldable pub book_answer :
      VenueAnswers F
      → VenueRequest F
      → PendingOrder F
      → RawOrder F
      → Resolved F
      → VenueExecutor F
      → Resolved F × VenueExecutor F
  unfolding record_fill fees_in
  book_answer a o pending raw r ex =
      if is_filled r.status
      then elim r.price [
        | none ↦ (r, ex)
        | some price ↦
            let fees = fees_in a o.symbol raw in
            let booked = record_fill a pending r.quantity price raw ex.ledger in
            (
              record r {
                fee_base = reported fees.0;
                fee_quote = reported fees.1;
                realized_pnl = booked.0;
                closed_entries = booked.1;
              },
              with_ledger ex (without_flat o.symbol (armed pending booked.2)),
            )
      ]
      else if is_pending r.status && not (r.order_id == "")
      then (r, record ex { open_orders = insert r.order_id pending ex.open_orders })
      else (r, ex)

  unfoldable pub answered :
      VenueAnswers F
      → VenueClient F
      → VenueRequest F
      → Sent F
      → Option (String × RawOrder F)
      → VenueExecutor F
      → Placement F
  unfolding book_answer resolve_status
  answered a v o s none ex = record { sent = some s; result = none; executor = ex }
  answered a v o s (some (id, ack)) ex =
      let raw = confirmed_answer v id s.amount ack in
      let asked = nonzero_or s.limit o.price in
      let price = nonzero_or raw.average (nonzero_or raw.price asked) in
      let out =
        book_answer a o (pending_of a.now o s.amount asked) raw
          (result_of o id raw (resolve_status raw s.amount) price) ex in
      record { sent = some s; result = some out.0; executor = out.1 }

  unfoldable pub send :
      VenueAnswers F → VenueClient F → VenueRequest F → F → VenueExecutor F → Placement F
  unfolding answered limit_price
  send a v o amount ex =
      let s : Sent F = record {
        symbol = o.symbol;
        side = o.side;
        amount = amount;
        limit = limit_price v o.symbol o.side o.price;
      } in
      answered a v o s (v.create_order s) ex

  unfoldable pub send_if_tradable :
      VenueAnswers F → VenueClient F → VenueRequest F → Option F → VenueExecutor F → Placement F
  unfolding send
  send_if_tradable a v o none ex = unsent v o Note.not_tracked ex
  send_if_tradable a v o (some amount) ex =
      if amount ≤? zero_f || is_dust a o.symbol amount
      then unsent v o Note.below_minimum ex
      else send a v o amount ex

  unfoldable pub place_order :
      VenueAnswers F → VenueClient F → VenueRequest F → VenueExecutor F → Placement F
  unfolding send_if_tradable sendable
  place_order a v o ex =
      send_if_tradable a v o
        (sendable v ex.ledger o.symbol o.side (v.amount_to_precision o.symbol o.quantity)) ex

  answered-sent :
      (a : VenueAnswers F) (v : VenueClient F) (o : VenueRequest F) (s : Sent F)
      (r : Option (String × RawOrder F)) (ex : VenueExecutor F)
      → (answered a v o s r ex).sent ≡ some s
  unfolding answered
  answered-sent a v o s none ex = refl
  answered-sent a v o s (some (id, ack)) ex = refl

  -- what is sent is the amount that it was called with, and it can be traded
  abbrev pub SentAs : VenueAnswers F → VenueRequest F → Option F → Option (Sent F) → Type 0
  SentAs a o amount none = Unit
  SentAs a o amount (some s) =
      (amount ≡ some s.amount) × ((s.amount ≤? zero_f || is_dust a o.symbol s.amount) ≡ false)

  send_if_tradable-SentAs :
      (a : VenueAnswers F) (v : VenueClient F) (o : VenueRequest F) (amount : Option F)
      (ex : VenueExecutor F)
      → SentAs a o amount (send_if_tradable a v o amount ex).sent
  unfolding send_if_tradable send
  send_if_tradable-SentAs a v o none ex = tt
  send_if_tradable-SentAs a v o (some x) ex =
      let s : Sent F = record {
        symbol = o.symbol;
        side = o.side;
        amount = x;
        limit = limit_price v o.symbol o.side o.price;
      } in
      if_cases (λ (p : Placement F). SentAs a o (some x) p.sent)
        (x ≤? zero_f || is_dust a o.symbol x) (λ _. tt)
        (λ e.
          subst (λ out. SentAs a o (some x) out) (sym (answered-sent a v o s (v.create_order s) ex))
            (refl, e))

  -- not more than what is tracked
  abbrev pub IsCovered : VenueClient F → VenueLedger F → String → F → Type 0
  IsCovered v l symbol amount =
      ((tracked_amount v l symbol ≤? zero_f) ≡ false)
      × ((amount ≡ tracked_amount v l symbol) ⊎ ((tracked_amount v l symbol <? amount) ≡ false))

  sendable-IsCovered :
      (v : VenueClient F) (l : VenueLedger F) (symbol : String) (asked amount : F)
      → sendable v l symbol OrderSide.sell asked ≡ some amount
      → IsCovered v l symbol amount
  unfolding sendable
  sendable-IsCovered v l symbol asked amount h = ground (arith, h)

  -- A SELL never sells what the agent has not bought: where `place_order` sends a SELL to the
  -- venue, the ledger's quantity at the venue's precision is positive, the amount sent is that
  -- quantity or one that it is not below, and it is positive and no dust.
  pub place_order-IsCovered :
      (a : VenueAnswers F) (v : VenueClient F) (o : VenueRequest F) (ex : VenueExecutor F)
      (s : Sent F)
      → o.side ≡ OrderSide.sell
      → (place_order a v o ex).sent ≡ some s
      → IsCovered v ex.ledger o.symbol s.amount
        × ((s.amount ≤? zero_f || is_dust a o.symbol s.amount) ≡ false)
  unfolding place_order
  place_order-IsCovered a v o ex s sells sent =
      let asked = v.amount_to_precision o.symbol o.quantity in
      let amount = sendable v ex.ledger o.symbol o.side asked in
      let checked : SentAs a o amount (some s) =
        subst (λ out. SentAs a o amount out) sent (send_if_tradable-SentAs a v o amount ex) in
      (
        sendable-IsCovered v ex.ledger o.symbol asked s.amount
            (ap (λ side. sendable v ex.ledger o.symbol side asked) (sym sells) ∙ checked.0),
        checked.1,
      )
