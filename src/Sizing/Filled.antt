-- ===== src/Sizing/Filled.antt =====
-- The paper account fills an entry that was sized with its own costs.
use smarty_trader.Prelude.{
  ℕ, ◌≡◌, refl, ap, ◌∙◌, false, Option, none, some, arith, String, string_eq,
}
use smarty_trader.Prelude.Dict.{lookup}
use smarty_trader.Prelude.Int.{ℤ, pos, ◌≤ℤ◌, ◌<ℤ◌, +ℤ_parts}
use smarty_trader.Float.{fixed, ◌⊕◌, ◌⊗◌, ◌<?◌, ◌=?◌, zero_f, one_f}
use smarty_trader.Models.{Action, TradeSignal, PortfolioState, Position, OrderSide, OrderResult}
use smarty_trader.Costs.{CostModel, total_fee}
use smarty_trader.Risk.{RiskSettings}
use smarty_trader.Paper.{
  PaperExecutor, OrderRequest, place_order, reference_price, execute, execute_buy, log_order,
  settle_buy, bought, added, costs_of, fill,
}
use smarty_trader.Paper.Orders.{place_order-some, execute_buy-some}
use smarty_trader.Paper.Mirror.{quantity_in}
use smarty_trader.Sizing.{calculate_quantity, signal_order}
use smarty_trader.Sizing.Paid.{IsNatural, cost_model-IsNatural, sized-Affords}

bought-some :
    (r : OrderRequest ℤ) (price : ℤ) (o : Option (Position ℤ))
    → pos 0 <ℤ r.quantity
    → pos 0 ≤ℤ quantity_in o
    → (p : Position ℤ) × (bought r price o ≡ some p)
unfolding bought
bought-some r price none h k = (_, refl)
bought-some r price (some p) h k =
    let nonzero : (p.quantity ⊕ r.quantity =? zero_f) ≡ false =
      ground (arith, +ℤ_parts p.quantity r.quantity) in
    (added r price p, rw (bought, nonzero))

settle_buy-fill :
    (r : OrderRequest ℤ) (id : String) (price : ℤ) (now : ℕ) (fee : ℤ) (ex : PaperExecutor ℤ)
    → pos 0 <ℤ r.quantity
    → pos 0 ≤ℤ quantity_in (lookup r.symbol ex.positions)
    → (r.quantity ⊗ price) ⊕ fee ≤ℤ ex.cash
    → (settle_buy r id price now fee ex).0 ≡ some (fill r id price now)
unfolding settle_buy
settle_buy-fill r id price now fee ex h k enough =
    let (p, e) = bought-some r price (lookup r.symbol ex.positions) h k in
    let pays : (ex.cash <? (r.quantity ⊗ price) ⊕ fee) ≡ false = ground arith in rw (pays, e)

costs_of-IsNatural :
    (ex : PaperExecutor ℤ) {m : CostModel ℤ} → costs_of ex ≡ some m → IsNatural ex.slippage_pct m
unfolding costs_of
costs_of-IsNatural ex h =
    cost_model-IsNatural ex.slippage_pct ex.fee_pct ex.min_commission ex.fx_fee_pct h

log_order_result :
    (id : String) (out : Option (OrderResult ℤ) × PaperExecutor ℤ) → (log_order id out).0 ≡ out.0
unfolding log_order
log_order_result id (none, ex) = refl
log_order_result id (some o, ex) = refl

module _ (signal : TradeSignal ℤ) (ex : PaperExecutor ℤ) (price q : ℤ) (decision : Option ℕ)
    (id : String) (now : ℕ) where
  abbrev order : OrderRequest ℤ
  order = signal_order signal OrderSide.buy q price decision

  abbrev filled_at : ℤ
  filled_at = price ⊗ (one_f ⊕ ex.slippage_pct)

  order_reference : reference_price order ex ≡ some price
  unfolding reference_price
  order_reference = refl

  order-execute :
      execute order id price now OrderSide.buy ex ≡ execute_buy order id filled_at now ex
  unfolding execute
  order-execute = refl

  place_order-fill :
      {m : CostModel ℤ}
      → costs_of ex ≡ some m
      → pos 0 <ℤ q
      → pos 0 ≤ℤ quantity_in (lookup signal.symbol ex.positions)
      → (q ⊗ filled_at) ⊕ total_fee m (q ⊗ filled_at) ≤ℤ ex.cash
      → (place_order order id now ex).0 ≡ some (fill order id filled_at now)
  place_order-fill {m} costs h k enough =
      let settled =
        settle_buy-fill order id filled_at now (total_fee m (q ⊗ filled_at)) ex h k enough in
      let bought = execute_buy-some order id filled_at now ex costs in
      let logged = log_order_result id (execute order id price now OrderSide.buy ex) in
      ap (λ o. o.0) (place_order-some order id now ex order_reference)
      ∙ logged
      ∙ ap (λ o. o.0) order-execute
      ∙ ap (λ o. o.0) bought
      ∙ settled

module _ (settings : RiskSettings ℤ) (signal : TradeSignal ℤ) (s : PortfolioState ℤ) (factor : ℤ)
    (cap : Option ℤ) (ex : PaperExecutor ℤ) (price : ℤ) (decision : Option ℕ) (id : String)
    (now : ℕ) (m : CostModel ℤ) where
  -- A BUY that is sized with the costs of a paper account, out of no more cash than the account has,
  -- is filled: never refused for want of cash, and no exception, for a fee of at most 100 %, a
  -- price and a quantity above zero, and no negative position in the symbol.
  pub place_order-sized :
      let q = calculate_quantity settings signal s (some price) factor (some m) cap in
      let order = signal_order signal OrderSide.buy q price decision in
      costs_of ex ≡ some m
      → m.fee_pct ≤ℤ one_f
      → signal.action ≡ Action.buy
      → pos 0 ≤ℤ s.cash
      → s.cash ≤ℤ ex.cash
      → pos 0 <ℤ price
      → pos 0 <ℤ q
      → pos 0 ≤ℤ quantity_in (lookup signal.symbol ex.positions)
      → (place_order order id now ex).0
        ≡ some (fill order id (price ⊗ (one_f ⊕ ex.slippage_pct)) now)
  place_order-sized costs small buy solvent enough price_pos q_pos held =
      place_order-fill signal ex price
        (calculate_quantity settings signal s (some price) factor (some m) cap) decision id now
        costs q_pos held
        (sized-Affords settings signal s factor cap ex.slippage_pct m price ex.cash
          (costs_of-IsNatural ex costs) small buy solvent enough price_pos)
