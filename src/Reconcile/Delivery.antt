-- ===== src/Reconcile/Delivery.antt =====
-- The two phases of `reconcile_open_orders`: a result is delivered by every call until the agent
-- confirms it.
use mathlib.Core.Logic.{inl, inr, ◌⊎◌}
use mathlib.Core.Path.{subst}
use mathlib.Core.List.{Mem, mem-cons_self, mem-cons_of_mem, mem-append_left, mem-append_right}
use smarty_trader.Prelude.{
  true, ◌≡◌, sym, ap, ◌∙◌, String, Option, none, some, List, [], ◌∷◌, ◌++◌, ◌==◌, string_eq, All,
  if_cases, Bool-cases, Option-cases, arith, nat_beq, length,
}
use smarty_trader.Prelude.Dict.{Dict, lookup}
use smarty_trader.Float.{Float}
use smarty_trader.Reconcile.{
  PendingOrder, Resolved, VenueLedger, VenueExecutor, VenueAnswers, poll_unresolved, poll_order,
  news_of, reconcile_each, redelivered, reconcile_open_orders,
}

module _ {F : Type 0} ⦃d : Float F⦄ where
  listed_if_resolved :
      (q : PendingOrder F) (r : Resolved F) (rest : List (Resolved F))
      → q.resolved ≡ some r
      → Mem r (elim q.resolved [ none ↦ rest | some s ↦ s ∷ rest ])
  listed_if_resolved q r rest h =
      subst (λ o. Mem r (elim o [ none ↦ rest | some s ↦ s ∷ rest ])) (sym h) mem-cons_self

  listed_after :
      (o : Option (Resolved F)) (r : Resolved F) (rest : List (Resolved F))
      → Mem r rest
      → Mem r (elim o [ none ↦ rest | some s ↦ s ∷ rest ])
  listed_after none r rest m = m
  listed_after (some s) r rest m = mem-cons_of_mem s m

  redelivered-Mem :
      (id : String) (p : PendingOrder F) (r : Resolved F) (xs : Dict String (PendingOrder F))
      → lookup id xs ≡ some p
      → p.resolved ≡ some r
      → Mem r (redelivered xs)
  unfolding redelivered
  redelivered-Mem id p r [] l h = absurd (ground (arith, l))
  redelivered-Mem id p r ((j, q) ∷ rest) l h = elim (Bool-cases (j == id)) [
    | inl e ↦ listed_if_resolved q r (redelivered rest) (ground (arith, e, l, h))
    | inr e ↦
        listed_after q.resolved r (redelivered rest)
          (redelivered-Mem id p r rest (ground (arith, e, l)) h)
  ]

  pub poll_unresolved-kept :
      (a : VenueAnswers F) (id : String) (p : PendingOrder F) (r : Resolved F) (l : VenueLedger F)
      → p.resolved ≡ some r
      → poll_unresolved a id p l ≡ (p, l)
  poll_unresolved-kept a id p r l h =
      ap (λ o. elim o [ none ↦ poll_order a id p l | some s ↦ (p, l) ]) h

  reconcile_each-kept :
      (a : VenueAnswers F) (id : String) (p : PendingOrder F) (r : Resolved F)
      (xs : Dict String (PendingOrder F)) (l : VenueLedger F)
      → lookup id xs ≡ some p
      → p.resolved ≡ some r
      → lookup id (reconcile_each a xs l).1 ≡ some p
  unfolding reconcile_each
  reconcile_each-kept a id p r [] l found h = found
  reconcile_each-kept a id p r ((j, q) ∷ rest) l found h = ground (
    arith,
    found,
    h,
    poll_unresolved-kept a j p r l,
    reconcile_each-kept a id p r rest (poll_unresolved a j q l).1,
  )

  listed_news :
      (q p : PendingOrder F) (r : Resolved F) (others : List (Resolved F))
      → q.resolved ≡ none
      → p.resolved ≡ some r
      → Mem r (news_of q p ++ others)
  listed_news q p r others unresolved h =
      subst (λ xs. Mem r (xs ++ others))
        (sym (
          ap (λ o. elim o [ some s ↦ [] | none ↦ elim p.resolved [ none ↦ [] | some s ↦ s ∷ [] ] ])
            unresolved
          ∙ ap (λ o. elim o [ none ↦ [] | some s ↦ s ∷ [] ]) h))
        mem-cons_self

  reconcile_each-Mem :
      (a : VenueAnswers F) (id : String) (p : PendingOrder F) (r : Resolved F)
      (xs : Dict String (PendingOrder F)) (l : VenueLedger F)
      → lookup id (reconcile_each a xs l).1 ≡ some p
      → p.resolved ≡ some r
      → Mem r (redelivered xs) ⊎ Mem r (reconcile_each a xs l).0
  unfolding reconcile_each redelivered
  reconcile_each-Mem a id p r [] l found h = absurd (ground (arith, found))
  reconcile_each-Mem a id p r ((j, q) ∷ rest) l found h =
      let one = poll_unresolved a j q l in
      let others = reconcile_each a rest one.1 in
      elim (Bool-cases (j == id)) [
        | inl e ↦ elim (Option-cases q.resolved) [
          | inl unresolved ↦
              inr (listed_news q one.0 r others.0 unresolved (ground (arith, e, found, h)))
          | inr (s, known) ↦ inl (
              listed_if_resolved q r (redelivered rest)
                (ground (arith, e, found, h, known, poll_unresolved-kept a j q s l)))
        ]
        | inr e ↦ elim (reconcile_each-Mem a id p r rest one.1 (ground (arith, e, found)) h) [
          | inl m ↦ inl (listed_after q.resolved r (redelivered rest) m)
          | inr m ↦ inr (mem-append_right (news_of q one.0) m)
        ]
      ]

  -- a sequence of cycles: what each of them is told, and the executor after them
  abbrev pub rounds :
      List (VenueAnswers F) → VenueExecutor F → List (List (Resolved F)) × VenueExecutor F
  rounds [] ex = ([], ex)
  rounds (a ∷ rest) ex =
      let one = reconcile_open_orders a ex in
      let others = rounds rest one.1 in (one.0 ∷ others.0, others.1)

  abbrev pub Told :
      String → PendingOrder F → Resolved F → List (Resolved F) × VenueExecutor F → Type 0
  Told id p r out = Mem r out.0 × (lookup id out.1.open_orders ≡ some p)

  reconcile-can_fetch :
      (a : VenueAnswers F) (ex : VenueExecutor F)
      → (reconcile_open_orders a ex).1.can_fetch ≡ ex.can_fetch
  unfolding reconcile_open_orders
  reconcile-can_fetch a ex = ground arith

  module _ (ex : VenueExecutor F) where
    -- a client that can be asked: the calls that the function makes of its answers
    called_with :
        (a : VenueAnswers F) (P : List (Resolved F) × VenueExecutor F → Type 0)
        → ex.can_fetch ≡ true
        → P (redelivered ex.open_orders, ex)
        → (let polled = reconcile_each a ex.open_orders ex.ledger in
            P (
              redelivered ex.open_orders ++ polled.0,
              record ex { ledger = polled.2; open_orders = polled.1 },
            ))
        → P (reconcile_open_orders a ex)
    unfolding reconcile_open_orders
    called_with a P can known polled =
        if_cases P (nat_beq (length (redelivered ex.open_orders)) (length ex.open_orders))
          (λ _. known)
          (λ _. if_cases P ex.can_fetch (λ _. polled) (λ no. absurd (ground (arith, can, no))))

  reconcile-resolved :
      (a : VenueAnswers F) (ex : VenueExecutor F) (id : String) (p : PendingOrder F)
      (r : Resolved F)
      → ex.can_fetch ≡ true
      → lookup id ex.open_orders ≡ some p
      → p.resolved ≡ some r
      → Told id p r (reconcile_open_orders a ex)
  reconcile-resolved a ex id p r can found h =
      let known = redelivered-Mem id p r ex.open_orders found h in
      let polled = reconcile_each a ex.open_orders ex.ledger in
      called_with ex a (λ out. Told id p r out) can (known, found)
        (
          mem-append_left polled.0 known,
          reconcile_each-kept a id p r ex.open_orders ex.ledger found h,
        )

  -- after a call, each order that has a result has been delivered by this very call
  reconcile-told :
      (a : VenueAnswers F) (ex : VenueExecutor F) (id : String) (p : PendingOrder F)
      (r : Resolved F)
      → ex.can_fetch ≡ true
      → lookup id (reconcile_open_orders a ex).1.open_orders ≡ some p
      → p.resolved ≡ some r
      → Mem r (reconcile_open_orders a ex).0
  reconcile-told a ex id p r can =
      let polled = reconcile_each a ex.open_orders ex.ledger in
      called_with ex a
        (λ (out : List (Resolved F) × VenueExecutor F).
          lookup id out.1.open_orders ≡ some p → p.resolved ≡ some r → Mem r out.0)
        can (λ found h. redelivered-Mem id p r ex.open_orders found h)
        (λ found h. elim (reconcile_each-Mem a id p r ex.open_orders ex.ledger found h) [
          | inl m ↦ mem-append_left polled.0 m
          | inr m ↦ mem-append_right (redelivered ex.open_orders) m
        ])

  rounds-kept :
      (rest : List (VenueAnswers F)) (ex : VenueExecutor F) (id : String) (p : PendingOrder F)
      (r : Resolved F)
      → ex.can_fetch ≡ true
      → lookup id ex.open_orders ≡ some p
      → p.resolved ≡ some r
      → All (λ results. Mem r results) (rounds rest ex).0
        × (lookup id (rounds rest ex).1.open_orders ≡ some p)
  rounds-kept [] ex id p r can found h = (tt, found)
  rounds-kept (a ∷ rest) ex id p r can found h =
      let told = reconcile-resolved a ex id p r can found h in
      let later =
        rounds-kept rest (reconcile_open_orders a ex).1 id p r (reconcile-can_fetch a ex ∙ can)
          told.1 h in
      ((told.0, later.0), later.1)

  -- A result is never lost, with a client that can be asked for orders: when an order has a result
  -- after a call of `reconcile_open_orders`, this call and each later one deliver it, whatever the
  -- venue answers then, and after all of them the order still stands as it is, with the same result.
  pub reconcile_open_orders-delivered :
      (a : VenueAnswers F) (rest : List (VenueAnswers F)) (ex : VenueExecutor F) (id : String)
      (p : PendingOrder F) (r : Resolved F)
      → ex.can_fetch ≡ true
      → lookup id (reconcile_open_orders a ex).1.open_orders ≡ some p
      → p.resolved ≡ some r
      → All (λ results. Mem r results) (rounds (a ∷ rest) ex).0
        × (lookup id (rounds (a ∷ rest) ex).1.open_orders ≡ some p)
  reconcile_open_orders-delivered a rest ex id p r can found h =
      let later =
        rounds-kept rest (reconcile_open_orders a ex).1 id p r (reconcile-can_fetch a ex ∙ can)
          found h in
      ((reconcile-told a ex id p r can found h, later.0), later.1)
