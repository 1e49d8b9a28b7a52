-- ===== src/Reconcile/Tests.antt =====
-- A resting buy of 2.0 that the venue fills, and what the next calls say of it.
use smarty_trader.Prelude.{
  ◌≡◌, refl, String, Option, none, some, [], ◌∷◌, All, map, string_eq, ◌||◌, false, true,
}
use smarty_trader.Prelude.Int.{ℤ, pos, ◌-ℤ◌, ◌+ℤ◌, mul_ℤ, div_ℤ}
use smarty_trader.Prelude.Dict.{Dict, lookup}
use smarty_trader.Float.{fixed, ◌≤?◌, zero_f}
use smarty_trader.Models.{OrderSide, OrderStatus, Position}
use smarty_trader.Tracker.{
  symbols, average_price, empty_tracker, quantity, lots_quantity, on_buy, add_lot,
}
use smarty_trader.Tracker.Booking.{book_fill, book_buy}
use mathlib.Core.List.{Mem}
use smarty_trader.Symbols.{base_currency, quote_currency}
use smarty_trader.Reconcile.{
  RawOrder, Note, Resolved, PendingOrder, VenueExecutor, VenueAnswers, resolve_status,
  reconcile_open_orders, reconcile_each, redelivered, poll_order, settle, book_result, record_fill,
  fees_in, fee_components, confirm_reconciled, write_off_dust, is_dust,
}
use smarty_trader.Reconcile.Delivery.{rounds, reconcile_open_orders-delivered}
use smarty_trader.Reconcile.Book.{
  get_positions, positions_from, write_off_each, Reports, get_positions-Reports, pending_buy_value,
}
use smarty_trader.Reconcile.Place.{
  VenueClient, VenueRequest, Sent, place_order, send_if_tradable, send, answered, limit_price,
  sendable, IsCovered, place_order-IsCovered,
}
use smarty_trader.Reconcile.Once.{reconcile_open_orders-once}

abbrev payload : String → ℤ → RawOrder ℤ
payload status filled = record {
  status = some status;
  filled = some filled;
  amount = none;
  average = some (fixed.of_ℕ 100);
  price = none;
  fees = [];
  fee = none;
  fill_time = 9;
}

abbrev answers : Option (RawOrder ℤ) → VenueAnswers ℤ
answers polled = record {
  now = 10;
  polled = λ _. polled;
  settled = λ _. some (payload "canceled" (pos 0));
  min_amount = λ _. pos 0;
  upper = λ s. s;
  order_ttl = 5;
}

abbrev resting : PendingOrder ℤ
resting = record {
  symbol = "BTC/EUR";
  side = OrderSide.buy;
  quantity = fixed.of_ℕ 2;
  decision_id = some 7;
  stop_loss = some (fixed.of_ℕ 95);
  take_profit = none;
  resolved = none;
  placed_at = some 8;
  price = some (fixed.of_ℕ 100);
}

abbrev one_open : VenueExecutor ℤ
one_open = record {
  ledger = record { tracker = empty_tracker; exit_levels = [] };
  open_orders = ("a", resting) ∷ [];
  can_fetch = true;
}

abbrev bought : Resolved ℤ
bought = record {
  order_id = "a";
  symbol = "BTC/EUR";
  side = OrderSide.buy;
  quantity = fixed.of_ℕ 2;
  price = some (fixed.of_ℕ 100);
  status = OrderStatus.filled;
  reason = none;
  filled_at = some 9;
  fee_base = none;
  fee_quote = none;
  realized_pnl = none;
  closed_entries = [];
}

abbrev filled_now : VenueAnswers ℤ
filled_now = answers (some (payload "closed" (fixed.of_ℕ 2)))

told : (reconcile_open_orders filled_now one_open).0 ≡ bought ∷ []
unfolding reconcile_open_orders reconcile_each redelivered poll_order resolve_status settle
    book_result record_fill fees_in fee_components base_currency quote_currency book_fill book_buy
    on_buy add_lot ◌-ℤ◌ ◌+ℤ◌ mul_ℤ div_ℤ
told = refl

booked :
    quantity (reconcile_open_orders filled_now one_open).1.ledger.tracker "BTC/EUR" ≡ fixed.of_ℕ 2
unfolding reconcile_open_orders reconcile_each redelivered poll_order resolve_status settle
    book_result record_fill fees_in fee_components base_currency quote_currency book_fill book_buy
    on_buy add_lot quantity lots_quantity ◌-ℤ◌ ◌+ℤ◌ mul_ℤ div_ℤ
booked = refl

kept :
    lookup "a" (reconcile_open_orders filled_now one_open).1.open_orders
    ≡ some (record resting { resolved = some bought })
unfolding reconcile_open_orders reconcile_each redelivered poll_order resolve_status settle
    book_result record_fill fees_in fee_components base_currency quote_currency book_fill book_buy
    on_buy add_lot ◌-ℤ◌ ◌+ℤ◌ mul_ℤ div_ℤ
kept = refl

-- a cancellation that has traded something is a fill of that much
partly :
    resolve_status (payload "canceled" (fixed.of_ℕ 1)) (fixed.of_ℕ 2)
    ≡ (OrderStatus.filled, fixed.of_ℕ 1, some Note.partial_fill)
unfolding resolve_status
partly = refl

reconcile_open_orders-delivered_example :
    All
      (λ results. Mem bought results)
      (rounds (filled_now ∷ answers none ∷ answers (some (payload "open" (pos 0))) ∷ []) one_open).0
    × (lookup "a"
          (rounds
            (filled_now ∷ answers none ∷ answers (some (payload "open" (pos 0))) ∷ [])
            one_open).1.open_orders
        ≡ some (record resting { resolved = some bought }))
reconcile_open_orders-delivered_example =
    reconcile_open_orders-delivered filled_now
      (answers none ∷ answers (some (payload "open" (pos 0))) ∷ []) one_open "a"
      (record resting { resolved = some bought }) bought refl kept refl

abbrev resolved_order : PendingOrder ℤ
resolved_order = record resting { resolved = some bought }

abbrev two_open : VenueExecutor ℤ
two_open = record one_open { open_orders = ("a", resolved_order) ∷ ("b", resting) ∷ [] }

reconcile_open_orders-once_example :
    (reconcile_open_orders filled_now two_open).1.ledger
    ≡ (reconcile_open_orders filled_now (confirm_reconciled "a" two_open)).1.ledger
reconcile_open_orders-once_example =
    reconcile_open_orders-once filled_now two_open "a" resolved_order bought refl refl

-- the venue holds less than the ledger
abbrev balances : Option (Dict String ℤ)
balances = some (("BTC", fixed.of_ℕ 1) ∷ [])

abbrev after_fill : VenueExecutor ℤ
after_fill = (reconcile_open_orders filled_now one_open).1

reported_quantity :
    map (λ (p : Position ℤ). p.quantity) (get_positions filled_now balances [] after_fill).0
    ≡ fixed.of_ℕ 1 ∷ []
unfolding get_positions positions_from write_off_each write_off_dust symbols average_price
    reconcile_open_orders reconcile_each redelivered poll_order resolve_status settle book_result
    record_fill fees_in fee_components base_currency quote_currency book_fill book_buy on_buy
    add_lot quantity lots_quantity ◌-ℤ◌ ◌+ℤ◌ mul_ℤ div_ℤ
reported_quantity = refl

get_positions-Reports_example :
    let out = get_positions filled_now balances [] after_fill in
    Reports filled_now balances out.1.ledger (symbols out.1.ledger.tracker) out.0
get_positions-Reports_example = get_positions-Reports filled_now balances [] after_fill

committed_cash : pending_buy_value one_open ≡ fixed.of_ℕ 200
unfolding pending_buy_value ◌+ℤ◌ mul_ℤ
committed_cash = refl

-- a venue that acknowledges with the order's id only
abbrev client : VenueClient ℤ
client = record {
  amount_to_precision = λ _ x. x;
  price_to_precision = λ _ x. x;
  create_order = λ _. some ("b", record (payload "open" (pos 0)) { status = none });
  fetch_order = λ _. none;
  unsent_id = "rejected-1";
  exits_at_market = true;
  exit_offset_pct = pos 0;
  entry_offset_pct = pos 0;
}

abbrev sell_of : ℤ → VenueRequest ℤ
sell_of qty = record {
  symbol = "BTC/EUR";
  side = OrderSide.sell;
  quantity = qty;
  price = some (fixed.of_ℕ 100);
  decision_id = none;
  stop_loss = none;
  take_profit = none;
}

abbrev sent_sale : Sent ℤ
sent_sale = record {
  symbol = "BTC/EUR";
  side = OrderSide.sell;
  amount = fixed.of_ℕ 2;
  limit = none;
}

sale_is_capped :
    (place_order filled_now client (sell_of (fixed.of_ℕ 5)) after_fill).sent ≡ some sent_sale
unfolding place_order send_if_tradable send answered limit_price sendable reconcile_open_orders
    reconcile_each redelivered poll_order resolve_status settle book_result record_fill fees_in
    fee_components base_currency quote_currency book_fill book_buy on_buy add_lot quantity
    lots_quantity ◌-ℤ◌ ◌+ℤ◌ mul_ℤ div_ℤ
sale_is_capped = refl

place_order-IsCovered_example :
    IsCovered client after_fill.ledger "BTC/EUR" (fixed.of_ℕ 2)
    × ((fixed.of_ℕ 2 ≤? zero_f || is_dust filled_now "BTC/EUR" (fixed.of_ℕ 2)) ≡ false)
place_order-IsCovered_example =
    place_order-IsCovered filled_now client (sell_of (fixed.of_ℕ 5)) after_fill sent_sale refl
      sale_is_capped
