-- ===== src/Reconcile/Once.antt =====
-- An order feeds the ledger once: when it has its result, the ledger after a call is the one that
-- there would be without the order.
use smarty_trader.Prelude.{
  ℕ, suc, ◌≡◌, refl, sym, ap, ◌∙◌, String, none, some, [], ◌∷◌, string_eq, is_some, arith,
  if◌then◌else◌, nat_beq, nat_beq_iff, length,
}
use smarty_trader.Prelude.Dict.{Dict, lookup, erase}
use smarty_trader.Float.{Float}
use smarty_trader.Reconcile.{
  PendingOrder, Resolved, VenueLedger, VenueExecutor, VenueAnswers, poll_unresolved, reconcile_each,
  redelivered, reconcile_open_orders, confirm_reconciled,
}
use smarty_trader.Reconcile.Delivery.{poll_unresolved-kept}

both_shorter : (m n m' n' : ℕ) → m ≡ suc m' → n ≡ suc n' → nat_beq m n ≡ nat_beq m' n'
both_shorter m n m' n' h k = ground (arith, nat_beq_iff m n, nat_beq_iff m' n')

module _ {F : Type 0} ⦃d : Float F⦄ where
  reconcile_each-erase :
      (a : VenueAnswers F) (id : String) (p : PendingOrder F) (r : Resolved F)
      (xs : Dict String (PendingOrder F)) (l : VenueLedger F)
      → lookup id xs ≡ some p
      → p.resolved ≡ some r
      → (reconcile_each a xs l).2 ≡ (reconcile_each a (erase id xs) l).2
  unfolding reconcile_each
  reconcile_each-erase a id p r [] l found h = refl
  reconcile_each-erase a id p r ((j, q) ∷ rest) l found h = ground (
    arith,
    found,
    h,
    poll_unresolved-kept a j p r l,
    reconcile_each-erase a id p r rest (poll_unresolved a j q l).1,
  )

  length-erase :
      (id : String) (p : PendingOrder F) (xs : Dict String (PendingOrder F))
      → lookup id xs ≡ some p
      → length xs ≡ suc (length (erase id xs))
  length-erase id p [] found = absurd (ground (arith, found))
  length-erase id p ((j, q) ∷ rest) found = ground (arith, found, length-erase id p rest)

  length-redelivered :
      (id : String) (p : PendingOrder F) (r : Resolved F) (xs : Dict String (PendingOrder F))
      → lookup id xs ≡ some p
      → p.resolved ≡ some r
      → length (redelivered xs) ≡ suc (length (redelivered (erase id xs)))
  unfolding redelivered
  length-redelivered id p r [] found h = absurd (ground (arith, found))
  length-redelivered id p r ((j, q) ∷ rest) found h =
      ground (arith, found, h, length-redelivered id p r rest)

  ledger_after :
      (a : VenueAnswers F) (ex : VenueExecutor F)
      → (reconcile_open_orders a ex).1.ledger ≡ (
          if nat_beq (length (redelivered ex.open_orders)) (length ex.open_orders)
          then ex.ledger
          else if ex.can_fetch
          then (reconcile_each a ex.open_orders ex.ledger).2
          else ex.ledger)
  unfolding reconcile_open_orders
  ledger_after a ex = ground arith

  confirmed :
      (ex : VenueExecutor F) (id : String) (p : PendingOrder F) (r : Resolved F)
      → lookup id ex.open_orders ≡ some p
      → p.resolved ≡ some r
      → confirm_reconciled id ex ≡ (record ex { open_orders = erase id ex.open_orders })
  unfolding confirm_reconciled
  confirmed ex id p r found h =
      ap
        (λ o. elim o [
          | none ↦ ex
          | some q ↦
              if is_some q.resolved then record ex { open_orders = erase id ex.open_orders } else ex
        ])
        found
      ∙ ap (λ o. if is_some o then record ex { open_orders = erase id ex.open_orders } else ex) h

  -- The ledger is fed once: where an open order has its result, a call of `reconcile_open_orders`
  -- leaves the same lots and exit levels as a call after `confirm_reconciled` has dropped the
  -- order, so neither the repeated calls nor the confirmation book anything for it again.
  pub reconcile_open_orders-once :
      (a : VenueAnswers F) (ex : VenueExecutor F) (id : String) (p : PendingOrder F)
      (r : Resolved F)
      → lookup id ex.open_orders ≡ some p
      → p.resolved ≡ some r
      → (reconcile_open_orders a ex).1.ledger
        ≡ (reconcile_open_orders a (confirm_reconciled id ex)).1.ledger
  reconcile_open_orders-once a ex id p r found h =
      let xs = ex.open_orders in
      let dropped : VenueExecutor F = record ex { open_orders = erase id xs } in
      ledger_after a ex
      ∙ (ap
            (λ b.
              if b
              then ex.ledger
              else if ex.can_fetch
              then (reconcile_each a xs ex.ledger).2
              else ex.ledger)
            (both_shorter (length (redelivered xs)) (length xs) (length (redelivered (erase id xs)))
              (length (erase id xs)) (length-redelivered id p r xs found h)
              (length-erase id p xs found))
          ∙ (ap
                (λ l.
                  if nat_beq (length (redelivered (erase id xs))) (length (erase id xs))
                  then ex.ledger
                  else if ex.can_fetch
                  then l
                  else ex.ledger)
                (reconcile_each-erase a id p r xs ex.ledger found h)
              ∙ (sym (ledger_after a dropped)
                  ∙ ap (λ e. (reconcile_open_orders a e).1.ledger)
                      (sym (confirmed ex id p r found h)))))
