-- ===== src/Paper/Session.antt =====
-- A session of the paper executor: orders, marks and cancellations in any order.
use smarty_trader.Prelude.{
  ℕ, ◌≡◌, ◌∙◌, sym, refl, inl, inr, String, Option, none, some, List, [], ◌∷◌, arith, string_eq,
  Bool-cases, Option-cases, ap,
}
use smarty_trader.Prelude.Dict.{lookup, lookup-insert_ne, lookup-insert_self, insert-DistinctKeys}
use smarty_trader.Prelude.Int.{ℤ, pos, ◌≤ℤ◌, ◌<ℤ◌, int_laws, ◌+ℤ◌}
use smarty_trader.Float.{fixed, ◌⊕◌, ◌⊗◌, ◌<?◌}
use smarty_trader.Models.{Position, OrderSide, OrderResult, is_pending}
use smarty_trader.Tracker.Whole.{IsWhole}
use smarty_trader.Paper.{
  PaperExecutor, OrderRequest, bought, settle_buy, execute_buy, settle_sell, execute_sell, execute,
  log_order, place_order, cancel_order, update_price, costs_of, reference_price,
}
use smarty_trader.Paper.Orders.{
  execute_buy-none, execute_buy-some, place_order-none, place_order-some,
}
use smarty_trader.Paper.Mirror.{Mirrors, quantity_in, buy-Mirrors, sell-Mirrors, change_at}

abbrev pub Agree : PaperExecutor ℤ → Type 0
Agree ex = Mirrors ex.positions ex.tracker

abbrev pub IsStep : OrderRequest ℤ → Type 0
IsStep r = (pos 0 <ℤ r.quantity) × IsWhole r.quantity

bought-quantity :
    (r : OrderRequest ℤ) (price : ℤ) (o : Option (Position ℤ)) {q : Position ℤ}
    → bought r price o ≡ some q
    → q.quantity ≡ quantity_in o +ℤ r.quantity
unfolding bought
bought-quantity r price none {q} e = ap quantity_in (sym e) ∙ omega int_laws
bought-quantity r price (some p) {q} e = ground arith

module _ (r : OrderRequest ℤ) (id : String) (p : ℤ) (now : ℕ) (step : IsStep r) where
  settle_buy-Agree :
      (fee : ℤ) (ex : PaperExecutor ℤ) → Agree ex → Agree (settle_buy r id p now fee ex).1
  unfolding settle_buy
  settle_buy-Agree fee ex m = elim (Bool-cases (ex.cash <? (r.quantity ⊗ p ⊕ fee))) [
    | inl short ↦ rw (short, settle_buy) m
    | inr covered ↦ elim (Option-cases (bought r p (lookup r.symbol ex.positions))) [
      | inl e ↦ rw (covered, settle_buy, e) m
      | inr (q, e) ↦
          rw (covered, settle_buy, e)
            (buy-Mirrors ex.positions ex.tracker m r p fee step.0 step.1 q
              (bought-quantity r p (lookup r.symbol ex.positions) e))
    ]
  ]

  execute_buy-Agree : (ex : PaperExecutor ℤ) → Agree ex → Agree (execute_buy r id p now ex).1
  execute_buy-Agree ex m = elim (Option-cases (costs_of ex)) [
    | inl e ↦ rw (execute_buy-none r id p now ex e) m
    | inr (c, e) ↦ rw (execute_buy-some r id p now ex e) (settle_buy-Agree _ ex m)
  ]

  settle_sell-Agree :
      (q : Position ℤ) (fee : ℤ) (ex : PaperExecutor ℤ)
      → lookup r.symbol ex.positions ≡ some q
      → r.quantity ≤ℤ q.quantity
      → Agree ex
      → Agree (settle_sell r id p now q fee ex).1
  unfolding settle_sell
  settle_sell-Agree q fee ex e enough m =
      sell-Mirrors ex.positions ex.tracker m r p fee step.0 step.1 q e enough

  execute_sell-Agree : (ex : PaperExecutor ℤ) → Agree ex → Agree (execute_sell r id p now ex).1
  unfolding execute_sell
  execute_sell-Agree ex m = elim (Option-cases (lookup r.symbol ex.positions)) [
    | inl e ↦ rw (e, execute_sell) m
    | inr (q, e) ↦ elim (Bool-cases (q.quantity <? r.quantity)) [
      | inl short ↦ rw (e, execute_sell, short) m
      | inr enough ↦ elim (Option-cases (costs_of ex)) [
        | inl raised ↦ rw (e, execute_sell, enough, raised) m
        | inr (c, priced) ↦
            rw (e, execute_sell, enough, priced) (settle_sell-Agree q _ ex e (ground arith) m)
      ]
    ]
  ]

execute-Agree :
    (r : OrderRequest ℤ) (id : String) (p : ℤ) (now : ℕ) (side : OrderSide) (ex : PaperExecutor ℤ)
    → IsStep r
    → Agree ex
    → Agree (execute r id p now side ex).1
unfolding execute
execute-Agree r id p now OrderSide.buy ex step m = execute_buy-Agree r id _ now step ex m
execute-Agree r id p now OrderSide.sell ex step m = execute_sell-Agree r id _ now step ex m

log_order-Agree :
    (id : String) (out : Option (OrderResult ℤ) × PaperExecutor ℤ)
    → Agree out.1
    → Agree (log_order id out).1
unfolding log_order
log_order-Agree id (none, ex) m = m
log_order-Agree id (some o, ex) m = m

place_order-Agree :
    (r : OrderRequest ℤ) (id : String) (now : ℕ) (ex : PaperExecutor ℤ)
    → IsStep r
    → Agree ex
    → Agree (place_order r id now ex).1
place_order-Agree r id now ex step m = elim (Option-cases (reference_price r ex)) [
  | inl e ↦ rw (place_order-none r id now ex e) m
  | inr (p, e) ↦
      rw (place_order-some r id now ex e)
        (log_order-Agree id _ (execute-Agree r id p now r.side ex step m))
]

update_price-Agree :
    (s : String) (price : ℤ) (ex : PaperExecutor ℤ) → Agree ex → Agree (update_price s price ex)
unfolding update_price
update_price-Agree s price ex m = elim (Option-cases (lookup s ex.positions)) [
  | inl e ↦ rw (e, update_price) m
  | inr (q, e) ↦
      let q' : Position ℤ = record q { current_price = price } in
      rw (e, update_price)
        (change_at ex.positions ex.tracker m s _ ex.tracker
          (insert-DistinctKeys s q' ex.positions m.positions_keys) m.lots_keys (m.lots_whole s)
          (ap quantity_in (lookup-insert_self s q' ex.positions)
            ∙ sym (ap quantity_in e)
            ∙ m.same s)
          (λ j ne. lookup-insert_ne s j q' ex.positions ne) (λ j ne. refl))
]

cancel_order-Agree : (id : String) (ex : PaperExecutor ℤ) → Agree ex → Agree (cancel_order id ex).1
unfolding cancel_order
cancel_order-Agree id ex m = elim (Option-cases (lookup id ex.orders)) [
  | inl e ↦ rw (e, cancel_order) m
  | inr (o, e) ↦ elim (Bool-cases (is_pending o.status)) [
    | inl waits ↦ rw (e, cancel_order, waits) m
    | inr settled ↦ rw (e, cancel_order, settled) m
  ]
]

-- What happens to an executor between its construction and its end.
pub data Event : Type 0 where
  order : OrderRequest ℤ → String → ℕ → Event
  mark : String → ℤ → Event
  cancel : String → Event

abbrev pub handle : Event → PaperExecutor ℤ → PaperExecutor ℤ
handle (order r id now) ex = (place_order r id now ex).1
handle (mark s price) ex = update_price s price ex
handle (cancel id) ex = (cancel_order id ex).1

unfoldable pub run : List Event → PaperExecutor ℤ → PaperExecutor ℤ
run [] ex = ex
run (e ∷ es) ex = run es (handle e ex)

-- every order is for a positive quantity in whole steps of 10^-8
abbrev pub InSteps : List Event → Type 0
InSteps [] = Unit
InSteps (order r id now ∷ es) = IsStep r × InSteps es
InSteps (mark s price ∷ es) = InSteps es
InSteps (cancel id ∷ es) = InSteps es

-- From a book that its lots mirror, after any sequence of orders in whole steps of 10^-8, marks and
-- cancellations (refused orders and exceptions included) the lots of each symbol are whole and
-- positive and add up to exactly its position.
pub run-Agree : (es : List Event) (ex : PaperExecutor ℤ) → InSteps es → Agree ex → Agree (run es ex)
unfolding run
run-Agree [] ex h m = m
run-Agree (order r id now ∷ es) ex h m = run-Agree es _ h.1 (place_order-Agree r id now ex h.0 m)
run-Agree (mark s price ∷ es) ex h m = run-Agree es _ h (update_price-Agree s price ex m)
run-Agree (cancel id ∷ es) ex h m = run-Agree es _ h (cancel_order-Agree id ex m)
