-- ===== src/Paper/Tests.antt =====
-- A paper account of 1000.0 with costs of 0.1 % each for slippage and fee, and its sessions.
use smarty_trader.Prelude.{◌≡◌, refl, none, some, List, [], ◌∷◌, arith}
use smarty_trader.Prelude.Int.{ℤ, pos, ◌-ℤ◌, ◌≤ℤ◌, ◌+ℤ◌, mul_ℤ}
use smarty_trader.Float.{fixed}
use smarty_trader.Models.{Position, PositionSide, OrderSide}
use smarty_trader.Costs.{cost_model, total_fee, commission}
use smarty_trader.Tracker.{
  empty_tracker, quantity, lots_quantity, on_buy, on_sell, add_lot, sell_lots, consume, consume_lot,
  put_back,
}
use smarty_trader.Paper.{
  PaperExecutor, OrderRequest, place_order, execute_buy, cancel_order, load_portfolio_state,
  log_order, execute, execute_sell, settle_buy, settle_sell, reference_price, costs_of, bought,
  reduced, update_price,
}
use smarty_trader.Paper.Orders.{Settled, place_order-Settled, execute_buy-cash_nonneg}
use smarty_trader.Paper.Session.{Event, Agree, run, run-Agree}
use smarty_trader.Paper.Restore.{IsCovered, load_portfolio_state-IsCovered}
use smarty_trader.Prelude.{All}

abbrev new_account : PaperExecutor ℤ
new_account = record {
  cash = pos 1_000_000_000_000_000;
  slippage_pct = pos 1_000_000_000;
  fee_pct = pos 1_000_000_000;
  min_commission = pos 0;
  fx_fee_pct = pos 0;
  positions = [];
  tracker = empty_tracker;
  orders = [];
}

abbrev order_of : OrderSide → ℤ → OrderRequest ℤ
order_of side qty = record {
  symbol = "BTC";
  side = side;
  quantity = qty;
  price = some (pos 100_000_000_000_000);
  decision_id = some 7;
  stop_loss = some (pos 95_000_000_000_000);
  take_profit = none;
}

-- a buy of 2.0, a mark, a sale of 0.5, a sale of more than is held, a cancellation
abbrev session : List Event
session =
    Event.order (order_of OrderSide.buy (pos 2_000_000_000_000)) "a" 1
    ∷ Event.mark "BTC" (pos 110_000_000_000_000)
    ∷ Event.order (order_of OrderSide.sell (pos 500_000_000_000)) "b" 2
    ∷ Event.order (order_of OrderSide.sell (pos 9_000_000_000_000)) "c" 3
    ∷ Event.cancel "a"
    ∷ []

session_holds : quantity (run session new_account).tracker "BTC" ≡ pos 1_500_000_000_000
unfolding run place_order reference_price execute execute_buy execute_sell settle_buy settle_sell
    bought reduced costs_of cost_model total_fee commission log_order cancel_order update_price
    on_buy on_sell add_lot sell_lots consume consume_lot put_back quantity lots_quantity ◌-ℤ◌ ◌+ℤ◌
    mul_ℤ
session_holds = refl

new_account-Agree : Agree new_account
unfolding quantity lots_quantity
new_account-Agree = record {
  positions_keys = tt;
  lots_keys = tt;
  lots_whole = λ s. tt;
  same = λ s. refl;
}

run-Agree_example : Agree (run session new_account)
run-Agree_example =
    run-Agree session new_account
      (
        (omega arith, (refl, refl)),
        ((omega arith, (refl, refl)), ((omega arith, (refl, refl)), tt)),
      )
      new_account-Agree

place_order-Settled_example :
    Settled new_account
      (place_order (order_of OrderSide.sell (pos 500_000_000_000)) "b" 2 new_account)
place_order-Settled_example =
    place_order-Settled (order_of OrderSide.sell (pos 500_000_000_000)) "b" 2 new_account

-- 20.0 at 100.0 is more than the cash.
execute_buy-cash_nonneg_example :
    pos 0
    ≤ℤ (execute_buy
        (order_of OrderSide.buy (pos 20_000_000_000_000))
        "a"
        (pos 100_000_000_000_000)
        1
        new_account).1.cash
execute_buy-cash_nonneg_example =
    execute_buy-cash_nonneg (order_of OrderSide.buy (pos 20_000_000_000_000)) "a"
      (pos 100_000_000_000_000) 1 new_account (omega arith)

abbrev held_coin : Position ℤ
held_coin = record {
  symbol = "BTC";
  quantity = pos 1_000_000_000_000;
  avg_entry_price = pos 100_000_000_000_000;
  current_price = pos 105_000_000_000_000;
  side = PositionSide.long;
  stop_loss = none;
  take_profit = none;
}

load_portfolio_state-IsCovered_example :
    let ex = (load_portfolio_state (pos 5_000_000_000_000) (held_coin ∷ []) [] new_account).2 in
    (ex.cash ≡ pos 5_000_000_000_000) × All (IsCovered ex.tracker) (held_coin ∷ [])
load_portfolio_state-IsCovered_example =
    load_portfolio_state-IsCovered (pos 5_000_000_000_000) (held_coin ∷ []) [] new_account
