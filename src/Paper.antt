-- ===== src/Paper.antt =====
-- src/execution/paper_executor.py: the simulated executor. A method gives its result and the
-- executor after it; the result `none` is an exception. Order ids and the time are arguments, since
-- the code draws them from `uuid4` and the clock.
pub mod Orders
pub mod Mirror
pub mod Session
pub mod Restore
mod Tests
use smarty_trader.Prelude.{
  ℕ, ◌+◌, Bool, true, false, String, Option, none, some, List, [], ◌∷◌, map, if◌then◌else◌,
  string_eq,
}
use smarty_trader.Prelude.Dict.{Dict, lookup, insert, erase}
use smarty_trader.Float.{Float, ◌⊕◌, ◌⊖◌, ◌⊗◌, ◌⊘◌, ◌<?◌, ◌≤?◌, ◌=?◌, zero_f, one_f}
use smarty_trader.Models.{
  Position, PositionSide, OrderSide, OrderStatus, OrderResult, RejectReason, is_pending,
}
use smarty_trader.Costs.{CostModel, cost_model, total_fee}
use smarty_trader.Tracker.{
  PositionTracker, empty_tracker, dust, quantity, on_buy, on_sell, entry_decision_ids,
}
use smarty_trader.Tracker.Booking.{FillRecord, replay_fills}

pub record PaperExecutor (F : Type 0) : Type 0 where
  pub cash : F
  pub slippage_pct : F
  pub fee_pct : F
  pub min_commission : F
  pub fx_fee_pct : F
  pub positions : Dict String (Position F)
  pub tracker : PositionTracker F
  pub orders : Dict String (OrderResult F)

pub record OrderRequest (F : Type 0) : Type 0 where
  pub symbol : String
  pub side : OrderSide
  pub quantity : F
  pub price : Option F
  pub decision_id : Option ℕ
  pub stop_loss : Option F
  pub take_profit : Option F

abbrev pub Method : Type 0 → Type 0 → Type 0
Method F A = PaperExecutor F → Option A × PaperExecutor F

-- `x if x is not None else y`
abbrev or_keep : {A : Type 0} → Option A → Option A → Option A
or_keep none old = old
or_keep (some a) old = some a

module _ {F : Type 0} ⦃d : Float F⦄ where
  -- `_cost_model`: `none` is the `ValueError` of a negative attribute
  unfoldable pub costs_of : PaperExecutor F → Option (CostModel F)
  unfolding cost_model
  costs_of ex = cost_model ex.slippage_pct ex.fee_pct ex.min_commission ex.fx_fee_pct

  abbrev pub rejection : OrderRequest F → String → Option F → RejectReason → OrderResult F
  rejection r id price why = record {
    order_id = id;
    symbol = r.symbol;
    side = r.side;
    quantity = r.quantity;
    price = price;
    status = OrderStatus.rejected;
    filled_at = none;
    reason = some why;
    realized_pnl = none;
    closed_entries = [];
  }

  abbrev pub fill : OrderRequest F → String → F → ℕ → OrderResult F
  fill r id price now = record {
    order_id = id;
    symbol = r.symbol;
    side = r.side;
    quantity = r.quantity;
    price = some price;
    status = OrderStatus.filled;
    filled_at = some now;
    reason = none;
    realized_pnl = none;
    closed_entries = [];
  }

  abbrev pub opened : OrderRequest F → F → Position F
  opened r price = record {
    symbol = r.symbol;
    quantity = r.quantity;
    avg_entry_price = price;
    current_price = price;
    side = PositionSide.long;
    stop_loss = r.stop_loss;
    take_profit = r.take_profit;
  }

  -- A buy adds to the position at the average price; the latest exit levels win.
  unfoldable pub added : OrderRequest F → F → Position F → Position F
  added r price p =
      let total_qty = p.quantity ⊕ r.quantity in
      record p {
        quantity = total_qty;
        avg_entry_price = (p.avg_entry_price ⊗ p.quantity ⊕ price ⊗ r.quantity) ⊘ total_qty;
        stop_loss = or_keep r.stop_loss p.stop_loss;
        take_profit = or_keep r.take_profit p.take_profit;
      }

  -- The position after a buy; `none` is a division by zero.
  unfoldable pub bought : OrderRequest F → F → Option (Position F) → Option (Position F)
  unfolding added
  bought r price none = some (opened r price)
  bought r price (some p) =
      if p.quantity ⊕ r.quantity =? zero_f then none else some (added r price p)

  unfoldable pub settle_buy : OrderRequest F → String → F → ℕ → F → Method F (OrderResult F)
  unfolding bought
  settle_buy r id price now fee ex =
      let cost = r.quantity ⊗ price in
      let paid = record ex { cash = ex.cash ⊖ (cost ⊕ fee) } in
      if ex.cash <? cost ⊕ fee
      then (some (rejection r id (some price) RejectReason.insufficient_cash), ex)
      else elim (bought r price (lookup r.symbol ex.positions)) [
        | none ↦ (none, paid)
        | some p ↦ (
          some (fill r id price now),
          record paid {
            positions = insert r.symbol p ex.positions;
            tracker = on_buy ex.tracker r.symbol r.quantity price fee r.decision_id;
          },
        )
      ]

  unfoldable pub execute_buy : OrderRequest F → String → F → ℕ → Method F (OrderResult F)
  unfolding settle_buy costs_of
  execute_buy r id price now ex = elim (costs_of ex) [
    | none ↦ (none, ex)
    | some m ↦ settle_buy r id price now (total_fee m (r.quantity ⊗ price)) ex
  ]

  unfoldable pub reduced :
      OrderRequest F → Position F → Dict String (Position F) → Dict String (Position F)
  reduced r p positions =
      let left = p.quantity ⊖ r.quantity in
      if left ≤? dust
      then erase r.symbol positions
      else insert r.symbol (record p { quantity = left }) positions

  unfoldable pub settle_sell :
      OrderRequest F → String → F → ℕ → Position F → F → Method F (OrderResult F)
  unfolding reduced
  settle_sell r id price now p fee ex =
      let (o, t) = on_sell ex.tracker r.symbol r.quantity price fee in
      (
        some (record (fill r id price now) {
          realized_pnl = some o.net_pnl;
          closed_entries = o.closed_entries;
        }),
        record ex {
          cash = ex.cash ⊕ (r.quantity ⊗ price ⊖ fee);
          tracker = t;
          positions = reduced r p ex.positions;
        },
      )

  unfoldable pub execute_sell : OrderRequest F → String → F → ℕ → Method F (OrderResult F)
  unfolding settle_sell costs_of
  execute_sell r id price now ex = elim (lookup r.symbol ex.positions) [
    | none ↦ (some (rejection r id (some price) RejectReason.insufficient_position), ex)
    | some p ↦
        if p.quantity <? r.quantity
        then (some (rejection r id (some price) RejectReason.insufficient_position), ex)
        else elim (costs_of ex) [
          | none ↦ (none, ex)
          | some m ↦ settle_sell r id price now p (total_fee m (r.quantity ⊗ price)) ex
        ]
  ]

  -- the requested price, or the mark of an open position
  unfoldable pub reference_price : OrderRequest F → PaperExecutor F → Option F
  reference_price r ex = elim r.price [
    | some p ↦ some p
    | none ↦ elim (lookup r.symbol ex.positions) [ none ↦ none | some p ↦ some p.current_price ]
  ]

  unfoldable pub execute : OrderRequest F → String → F → ℕ → OrderSide → Method F (OrderResult F)
  unfolding execute_buy execute_sell
  execute r id reference now OrderSide.buy ex =
      execute_buy r id (reference ⊗ (one_f ⊕ ex.slippage_pct)) now ex
  execute r id reference now OrderSide.sell ex =
      execute_sell r id (reference ⊗ (one_f ⊖ ex.slippage_pct)) now ex

  -- `self._orders[order_id] = result`, which an exception skips
  unfoldable pub log_order :
      String → Option (OrderResult F) × PaperExecutor F → Option (OrderResult F) × PaperExecutor F
  log_order id (none, ex) = (none, ex)
  log_order id (some o, ex) = (some o, record ex { orders = insert id o ex.orders })

  unfoldable pub place_order : OrderRequest F → String → ℕ → Method F (OrderResult F)
  unfolding reference_price execute log_order
  place_order r id now ex = elim (reference_price r ex) [
    | none ↦ (some (rejection r id none RejectReason.no_price), ex)
    | some reference ↦ log_order id (execute r id reference now r.side ex)
  ]

  unfoldable pub cancel_order : String → PaperExecutor F → Bool × PaperExecutor F
  cancel_order id ex = elim (lookup id ex.orders) [
    | none ↦ (false, ex)
    | some o ↦
        if is_pending o.status
        then (
          true,
          record ex { orders = insert id (record o { status = OrderStatus.cancelled }) ex.orders },
        )
        else (false, ex)
  ]

  unfoldable pub update_price : String → F → PaperExecutor F → PaperExecutor F
  update_price symbol price ex = elim (lookup symbol ex.positions) [
    | none ↦ ex
    | some p ↦ record ex {
      positions = insert symbol (record p { current_price = price }) ex.positions;
    }
  ]

  -- `{p.symbol: p for p in positions}`
  unfoldable pub by_symbol : Dict String (Position F) → List (Position F) → Dict String (Position F)
  by_symbol acc [] = acc
  by_symbol acc (p ∷ ps) = by_symbol (insert p.symbol p acc) ps

  -- One synthetic lot for what the replayed fills miss of a position; the count of such lots.
  unfoldable pub top_up : PositionTracker F × ℕ → Position F → PositionTracker F × ℕ
  top_up (t, n) p =
      let missing = p.quantity ⊖ quantity t p.symbol in
      if dust <? missing
      then (on_buy t p.symbol missing p.avg_entry_price zero_f none, n + 1)
      else (t, n)

  unfoldable pub top_up_all : PositionTracker F × ℕ → List (Position F) → PositionTracker F × ℕ
  unfolding top_up
  top_up_all acc [] = acc
  top_up_all acc (p ∷ ps) = top_up_all (top_up acc p) ps

  -- The two counts are `replayed_fills` and `synthetic_lots`.
  unfoldable pub load_portfolio_state :
      F → List (Position F) → List (FillRecord F) → PaperExecutor F → ℕ × ℕ × PaperExecutor F
  unfolding by_symbol top_up_all
  load_portfolio_state cash positions fills ex =
      let r = replay_fills empty_tracker fills in
      let (t, synthetic) = top_up_all (r.tracker, 0) positions in
      (
        r.replayed,
        synthetic,
        record ex { cash = cash; positions = by_symbol [] positions; tracker = t },
      )
