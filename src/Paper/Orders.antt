-- ===== src/Paper/Orders.antt =====
-- What an order does to the paper book, branch by branch.
use smarty_trader.Prelude.{
  ℕ, ◌≡◌, refl, true, false, ◌⊎◌, inl, inr, String, Option, none, some, [], ◌∷◌, arith, string_eq,
  Option-cases,
}
use smarty_trader.Prelude.Dict.{Dict, lookup, insert}
use smarty_trader.Prelude.Int.{ℤ, pos, ◌≤ℤ◌, -ℤ_parts}
use smarty_trader.Float.{Float, ◌⊕◌, ◌⊗◌, fixed}
use smarty_trader.Models.{OrderSide, OrderStatus, OrderResult, RejectReason, is_pending, is_filled}
use smarty_trader.Costs.{CostModel, total_fee}
use smarty_trader.Paper.{
  PaperExecutor, OrderRequest, settle_buy, execute_buy, execute_sell, execute, log_order,
  place_order, cancel_order, rejection, reference_price, costs_of, bought,
}

module _ {F : Type 0} ⦃d : Float F⦄ where
  -- The same money, positions and lots.
  abbrev pub SameBook : PaperExecutor F → PaperExecutor F → Type 0
  SameBook ex ex' =
      (ex'.cash ≡ ex.cash) × (ex'.positions ≡ ex.positions) × (ex'.tracker ≡ ex.tracker)

  -- How a call of `place_order` may end; after an exception nothing is said.
  abbrev pub Settled : PaperExecutor F → Option (OrderResult F) × PaperExecutor F → Type 0
  Settled ex (none, ex') = Unit
  Settled ex (some o, ex') =
      (is_filled o.status ≡ true) ⊎ ((o.status ≡ OrderStatus.rejected) × SameBook ex ex')

  execute_buy-Settled :
      (r : OrderRequest F) (id : String) (p : F) (now : ℕ) (ex : PaperExecutor F)
      → Settled ex (execute_buy r id p now ex)
  unfolding execute_buy
  execute_buy-Settled r id p now ex = ground arith

  execute_sell-Settled :
      (r : OrderRequest F) (id : String) (p : F) (now : ℕ) (ex : PaperExecutor F)
      → Settled ex (execute_sell r id p now ex)
  unfolding execute_sell
  execute_sell-Settled r id p now ex = ground arith

  execute-Settled :
      (r : OrderRequest F) (id : String) (p : F) (now : ℕ) (side : OrderSide) (ex : PaperExecutor F)
      → Settled ex (execute r id p now side ex)
  unfolding execute
  execute-Settled r id p now OrderSide.buy ex = execute_buy-Settled r id _ now ex
  execute-Settled r id p now OrderSide.sell ex = execute_sell-Settled r id _ now ex

  log_order-Settled :
      (id : String) (ex : PaperExecutor F) (out : Option (OrderResult F) × PaperExecutor F)
      → Settled ex out
      → Settled ex (log_order id out)
  unfolding log_order
  log_order-Settled id ex (none, ex') h = tt
  log_order-Settled id ex (some o, ex') h = h

  pub place_order-none :
      (r : OrderRequest F) (id : String) (now : ℕ) (ex : PaperExecutor F)
      → reference_price r ex ≡ none
      → place_order r id now ex ≡ (some (rejection r id none RejectReason.no_price), ex)
  unfolding place_order
  place_order-none r id now ex e = rw (e, place_order)

  pub place_order-some :
      (r : OrderRequest F) (id : String) (now : ℕ) (ex : PaperExecutor F) {p : F}
      → reference_price r ex ≡ some p
      → place_order r id now ex ≡ log_order id (execute r id p now r.side ex)
  unfolding place_order
  place_order-some r id now ex e = rw (e, place_order)

  -- A paper order that returns is filled at once, or it is rejected with cash, positions and lots
  -- left as they were.
  pub place_order-Settled :
      (r : OrderRequest F) (id : String) (now : ℕ) (ex : PaperExecutor F)
      → Settled ex (place_order r id now ex)
  place_order-Settled r id now ex = elim (Option-cases (reference_price r ex)) [
    | inl e ↦ rw (place_order-none r id now ex e) (inr (refl, (refl, refl, refl)))
    | inr (p, e) ↦
        rw (place_order-some r id now ex e)
          (log_order-Settled id ex _ (execute-Settled r id p now r.side ex))
  ]

  -- No order in the log waits.
  abbrev pub NonePending : Dict String (OrderResult F) → Type 0
  NonePending [] = Unit
  NonePending ((id, o) ∷ os) = (is_pending o.status ≡ false) × NonePending os

  insert-NonePending :
      (id : String) (o : OrderResult F) (os : Dict String (OrderResult F))
      → is_pending o.status ≡ false
      → NonePending os
      → NonePending (insert id o os)
  insert-NonePending id o [] p h = (p, tt)
  insert-NonePending id o (x ∷ os) p h = ground (arith, insert-NonePending id o os p h.1)

  lookup-NonePending :
      (id : String) (os : Dict String (OrderResult F)) {o : OrderResult F}
      → NonePending os
      → lookup id os ≡ some o
      → is_pending o.status ≡ false
  lookup-NonePending id [] {o} h e = cc
  lookup-NonePending id (x ∷ os) {o} h e = ground (arith, lookup-NonePending id os {o = o} h.1)

  log_order-NonePending :
      (id : String) (ex : PaperExecutor F) (out : Option (OrderResult F) × PaperExecutor F)
      → Settled ex out
      → out.1.orders ≡ ex.orders
      → NonePending ex.orders
      → NonePending (log_order id out).1.orders
  unfolding log_order
  log_order-NonePending id ex (none, ex') s e h = rw e h
  log_order-NonePending id ex (some o, ex') s e h =
      ground (arith, insert-NonePending id o ex'.orders)

  execute-orders :
      (r : OrderRequest F) (id : String) (p : F) (now : ℕ) (side : OrderSide) (ex : PaperExecutor F)
      → (execute r id p now side ex).1.orders ≡ ex.orders
  unfolding execute
  execute-orders r id p now OrderSide.buy ex = ground arith
  execute-orders r id p now OrderSide.sell ex = ground arith

  cancel_order_none :
      (id : String) (ex : PaperExecutor F)
      → NonePending ex.orders
      → cancel_order id ex ≡ (false, ex)
  unfolding cancel_order
  cancel_order_none id ex h = elim (Option-cases (lookup id ex.orders)) [
    | inl e ↦ rw (e, cancel_order)
    | inr (o, e) ↦ rw (e, cancel_order, lookup-NonePending id ex.orders h e)
  ]

  -- Whatever is ordered, no paper order waits in the log, and so a cancellation finds none: it
  -- answers `False` and changes nothing, for every id.
  pub place_order-NonePending :
      (r : OrderRequest F) (id : String) (now : ℕ) (ex : PaperExecutor F)
      → NonePending ex.orders
      → let ex' = (place_order r id now ex).1 in
        NonePending ex'.orders × ((other : String) → cancel_order other ex' ≡ (false, ex'))
  place_order-NonePending r id now ex h = elim (Option-cases (reference_price r ex)) [
    | inl e ↦ rw (place_order-none r id now ex e) (h, λ other. cancel_order_none other ex h)
    | inr (p, e) ↦
        let out = execute r id p now r.side ex in
        let kept =
          log_order-NonePending id ex out (execute-Settled r id p now r.side ex)
            (execute-orders r id p now r.side ex) h in
        rw (place_order-some r id now ex e)
          (kept, λ other. cancel_order_none other (log_order id out).1 kept)
  ]

pub execute_buy-none :
    {F : Type 0} ⦃d : Float F⦄ (r : OrderRequest F) (id : String) (p : F) (now : ℕ)
    (ex : PaperExecutor F)
    → costs_of ex ≡ none
    → execute_buy r id p now ex ≡ (none, ex)
unfolding execute_buy
execute_buy-none r id p now ex e = rw (e, execute_buy)

pub execute_buy-some :
    {F : Type 0} ⦃d : Float F⦄ (r : OrderRequest F) (id : String) (p : F) (now : ℕ)
    (ex : PaperExecutor F) {m : CostModel F}
    → costs_of ex ≡ some m
    → execute_buy r id p now ex ≡ settle_buy r id p now (total_fee m (r.quantity ⊗ p)) ex
unfolding execute_buy
execute_buy-some r id p now ex e = rw (e, execute_buy)

settle_buy-cash_nonneg :
    (r : OrderRequest ℤ) (id : String) (p : ℤ) (now : ℕ) (fee : ℤ) (ex : PaperExecutor ℤ)
    → pos 0 ≤ℤ ex.cash
    → pos 0 ≤ℤ (settle_buy r id p now fee ex).1.cash
unfolding settle_buy
settle_buy-cash_nonneg r id p now fee ex h =
    elim (Option-cases (bought r p (lookup r.symbol ex.positions))) [
      | inl e ↦ ground (arith, -ℤ_parts ex.cash (r.quantity ⊗ p ⊕ fee))
      | inr (q, e) ↦ ground (arith, -ℤ_parts ex.cash (r.quantity ⊗ p ⊕ fee))
    ]

-- A buy never takes the cash below zero, also where it is refused or raises.
pub execute_buy-cash_nonneg :
    (r : OrderRequest ℤ) (id : String) (p : ℤ) (now : ℕ) (ex : PaperExecutor ℤ)
    → pos 0 ≤ℤ ex.cash
    → pos 0 ≤ℤ (execute_buy r id p now ex).1.cash
execute_buy-cash_nonneg r id p now ex h = elim (Option-cases (costs_of ex)) [
  | inl e ↦ rw (execute_buy-none r id p now ex e) h
  | inr (m, e) ↦ rw (execute_buy-some r id p now ex e) (settle_buy-cash_nonneg r id p now _ ex h)
]
