-- ===== src/Protection/Accounted.antt =====
-- What `poll` forgets: a watched order leaves with its fill reported, or in a state that is dead.
use mathlib.Core.Logic.{inl, inr, ◌⊎◌}
use mathlib.Core.Path.{subst}
use smarty_trader.Prelude.{
  ℕ, ◌≡◌, refl, sym, ap, ◌∙◌, Bool, true, not, ◌&&◌, String, Option, none, some, List, [], ◌∷◌,
  ◌++◌, ◌==◌, string_eq, All, All-append, any, any-append, if_cases, option_both, Bool-cases, arith,
}
use smarty_trader.Prelude.Dict.{
  lookup, erase, lookup-erase_ne, lookup-erase_self, DistinctKeys, erase-DistinctKeys,
  lookup-entries,
}
use smarty_trader.Float.{Float}
use smarty_trader.Protection.{
  RawAlgo, ProtectiveOrder, Child, Triggered, AlgoVenue, ProtectiveOrders, algo_state, state_answer,
  is_dead, has_filled, called, check, check_answer, report, state_of, poll_one, poll_each, poll,
  check_child, child_id_of,
}

module _ {F : Type 0} ⦃d : Float F⦄ (v : AlgoVenue F) where
  -- the fill of an algo order that the venue called effective, and whose child sold something
  abbrev pub Fired : Triggered F → Type 0
  Fired t =
      ((n : ℕ) × (raw : RawAlgo) × (v.fetch_algo n t.algo_id t.symbol ≡ some raw)
        × (algo_state raw ≡ "effective"))
      × (has_filled t.child ≡ true)

  abbrev pub is_fill_of : ProtectiveOrder F → Triggered F → Bool
  is_fill_of o t = t.algo_id == o.algo_id

  -- a reported fill, or an answer of the venue by which the order is dead
  abbrev pub Accounted : ProtectiveOrder F → List (Triggered F) → Type 0
  Accounted o fired =
      (any (is_fill_of o) fired ≡ true)
      ⊎ ((n : ℕ) × (is_dead (state_answer (v.fetch_algo n o.algo_id o.symbol)) ≡ true))

  abbrev pub Kept : String → ProtectiveOrder F → List (Triggered F) × ProtectiveOrders F → Type 0
  Kept s o r = (lookup s r.1.live ≡ some o) ⊎ ((lookup s r.1.live ≡ none) × Accounted o r.0)

  -- what one check may answer for an order
  abbrev Checked :
      ProtectiveOrder F → ProtectiveOrders F → Option (Triggered F) × ProtectiveOrders F → Type 0
  Checked o p (none, q) = q.live ≡ p.live
  Checked o p (some t, q) = (q.live ≡ p.live) × (is_fill_of o t ≡ true) × Fired t

  check_child-Fired :
      (o : ProtectiveOrder F) (n : ℕ) (raw : RawAlgo) (c : Option (Child F))
      (p : ProtectiveOrders F)
      → v.fetch_algo n o.algo_id o.symbol ≡ some raw
      → algo_state raw ≡ "effective"
      → Checked o p (check_child o raw c, called p)
  check_child-Fired o n raw none p h e = refl
  check_child-Fired o n raw (some c) p h e =
      if_cases (λ r. Checked o p (r, called p)) (has_filled c)
        (λ k. (refl, (string_eq.test_iff o.algo_id o.algo_id).1 refl, ((n, raw, h, e), k)))
        (λ _. refl)

  check_answer-Checked :
      (o : ProtectiveOrder F) (n : ℕ) (raw : RawAlgo) (p : ProtectiveOrders F)
      → v.fetch_algo n o.algo_id o.symbol ≡ some raw
      → Checked o p (check_answer v o raw p)
  unfolding check_answer
  check_answer-Checked o n raw p h =
      if_cases (λ r. Checked o p r) (algo_state raw == "effective" && not (child_id_of raw == ""))
        (λ e.
          check_child-Fired o n raw (v.fetch_child p.calls (child_id_of raw) o.symbol) p h
            (ground (arith, string_eq.test_iff (algo_state raw) "effective", e)))
        (λ _. refl)

  check-Checked : (o : ProtectiveOrder F) (p : ProtectiveOrders F) → Checked o p (check v o p)
  unfolding check
  check-Checked o p =
      option_both (λ r. Checked o p r) (v.fetch_algo p.calls o.algo_id o.symbol) (λ _. refl)
        (λ raw e. check_answer-Checked o p.calls raw (called p) e)

  -- what a poll of one order does to the watched ones
  abbrev Polled :
      String
      → ProtectiveOrder F
      → ProtectiveOrders F
      → List (Triggered F) × ProtectiveOrders F
      → Type 0
  Polled k o p r =
      All Fired r.0 × ((r.1.live ≡ p.live) ⊎ ((r.1.live ≡ erase k p.live) × Accounted o r.0))

  report-Polled :
      (k : String) (o : ProtectiveOrder F) (p : ProtectiveOrders F)
      (r : Option (Triggered F) × ProtectiveOrders F)
      → Checked o p r
      → Polled k o p (report k r)
  report-Polled k o p (none, q) h = (tt, inl h)
  report-Polled k o p (some t, q) h = ((h.2, tt), inr (ap (erase k) h.0, inl (ground (arith, h.1))))

  poll_one-Polled :
      (k : String) (o : ProtectiveOrder F) (p : ProtectiveOrders F)
      → Polled k o p (poll_one v k o p)
  unfolding poll_one
  poll_one-Polled k o p =
      if_cases (λ r. Polled k o p r) (state_of v o p == "effective")
        (λ _. report-Polled k o p (check v o (called p)) (check-Checked o (called p)))
        (λ _.
          if_cases (λ r. Polled k o p r) (is_dead (state_of v o p))
            (λ e. (tt, inr (refl, inr (p.calls, e)))) (λ _. (tt, inl refl)))

  poll_each-Fired :
      (xs : List (String × ProtectiveOrder F)) (p : ProtectiveOrders F)
      → All Fired (poll_each v xs p).0
  unfolding poll_each
  poll_each-Fired [] p = tt
  poll_each-Fired ((k, o) ∷ rest) p =
      All-append Fired (poll_one v k o p).0 (poll_each v rest (poll_one v k o p).1).0
        (poll_one-Polled k o p).0 (poll_each-Fired rest (poll_one v k o p).1)

  Polled-distinct :
      (k : String) (o : ProtectiveOrder F) (p : ProtectiveOrders F)
      (r : List (Triggered F) × ProtectiveOrders F)
      → Polled k o p r
      → DistinctKeys p.live
      → DistinctKeys r.1.live
  Polled-distinct k o p r (_, inl h) distinct = subst DistinctKeys (sym h) distinct
  Polled-distinct k o p r (_, inr h) distinct =
      subst DistinctKeys (sym h.0) (erase-DistinctKeys k p.live distinct)

  Polled-absent :
      (k s : String) (o : ProtectiveOrder F) (p : ProtectiveOrders F)
      (r : List (Triggered F) × ProtectiveOrders F)
      → Polled k o p r
      → DistinctKeys p.live
      → lookup s p.live ≡ none
      → lookup s r.1.live ≡ none
  Polled-absent k s o p r (_, inl h) distinct l = ap (lookup s) h ∙ l
  Polled-absent k s o p r (_, inr h) distinct l = elim (Bool-cases (k == s)) [
    | inl e ↦
        ap (lookup s) h.0
        ∙ (ap (λ j. lookup s (erase j p.live)) ((string_eq.test_iff k s).0 e)
            ∙ lookup-erase_self s p.live distinct)
    | inr e ↦
        ap (lookup s) h.0
        ∙ (lookup-erase_ne k s p.live (ground (arith, string_eq.test_iff k s, e)) ∙ l)
  ]

  poll_each-absent :
      (s : String) (xs : List (String × ProtectiveOrder F)) (p : ProtectiveOrders F)
      → DistinctKeys p.live
      → lookup s p.live ≡ none
      → lookup s (poll_each v xs p).1.live ≡ none
  unfolding poll_each
  poll_each-absent s [] p distinct l = l
  poll_each-absent s ((k, o) ∷ rest) p distinct l =
      poll_each-absent s rest (poll_one v k o p).1
        (Polled-distinct k o p (poll_one v k o p) (poll_one-Polled k o p) distinct)
        (Polled-absent k s o p (poll_one v k o p) (poll_one-Polled k o p) distinct l)

  Accounted-left :
      (o : ProtectiveOrder F) (xs ys : List (Triggered F)) → Accounted o xs → Accounted o (xs ++ ys)
  Accounted-left o xs ys (inl h) = inl (ground (arith, any-append (is_fill_of o) xs ys, h))
  Accounted-left o xs ys (inr h) = inr h

  Accounted-right :
      (o : ProtectiveOrder F) (xs ys : List (Triggered F)) → Accounted o ys → Accounted o (xs ++ ys)
  Accounted-right o xs ys (inl h) = inl (ground (arith, any-append (is_fill_of o) xs ys, h))
  Accounted-right o xs ys (inr h) = inr h

  -- what happens to the watched order `o` of `s` when the order of `k` is polled
  Polled-cases :
      (k s : String) (x o : ProtectiveOrder F) (p : ProtectiveOrders F)
      (r : List (Triggered F) × ProtectiveOrders F)
      → Polled k x p r
      → DistinctKeys p.live
      → lookup s p.live ≡ some o
      → (k ≡ s → x ≡ o)
      → Kept s o r
  Polled-cases k s x o p r (_, inl h) distinct l same = inl (ap (lookup s) h ∙ l)
  Polled-cases k s x o p r (_, inr h) distinct l same = elim (Bool-cases (k == s)) [
    | inl e ↦ inr (
      ap (lookup s) h.0
          ∙ (ap (λ j. lookup s (erase j p.live)) ((string_eq.test_iff k s).0 e)
              ∙ lookup-erase_self s p.live distinct),
      subst (λ y. Accounted y r.0) (same ((string_eq.test_iff k s).0 e)) h.1,
    )
    | inr e ↦ inl (
        ap (lookup s) h.0
        ∙ (lookup-erase_ne k s p.live (ground (arith, string_eq.test_iff k s, e)) ∙ l))
  ]

  Kept-left :
      (s : String) (o : ProtectiveOrder F) (xs : List (Triggered F))
      (r : List (Triggered F) × ProtectiveOrders F)
      → Kept s o r
      → Kept s o (xs ++ r.0, r.1)
  Kept-left s o xs r (inl h) = inl h
  Kept-left s o xs r (inr h) = inr (h.0, Accounted-right o xs r.0 h.1)

  poll_each-Kept :
      (s : String) (o : ProtectiveOrder F) (xs : List (String × ProtectiveOrder F))
      (p : ProtectiveOrders F)
      → DistinctKeys p.live
      → lookup s p.live ≡ some o
      → All (λ (x : String × ProtectiveOrder F). x.0 ≡ s → x.1 ≡ o) xs
      → Kept s o (poll_each v xs p)
  unfolding poll_each
  poll_each-Kept s o [] p distinct l same = inl l
  poll_each-Kept s o ((k, x) ∷ rest) p distinct l same =
      let one = poll_one v k x p in
      let still = Polled-distinct k x p one (poll_one-Polled k x p) distinct in
      elim (Polled-cases k s x o p one (poll_one-Polled k x p) distinct l same.0) [
        | inl h ↦
            Kept-left s o one.0 (poll_each v rest one.1)
              (poll_each-Kept s o rest one.1 still h same.1)
        | inr h ↦ inr (
          poll_each-absent s rest one.1 still h.0,
          Accounted-left o one.0 (poll_each v rest one.1).0 h.1,
        )
      ]

  -- Where no symbol has two watched orders: after `poll`, an order that was watched is watched as
  -- before, or it is gone and its fill is among the reported ones or the venue has answered that it
  -- is dead (canceled or failed). And each reported fill is of an algo order that the venue has
  -- called effective, with a child order that has filled.
  pub poll-Kept :
      (s : String) (o : ProtectiveOrder F) (p : ProtectiveOrders F)
      → DistinctKeys p.live
      → lookup s p.live ≡ some o
      → Kept s o (poll v p) × All Fired (poll v p).0
  unfolding poll
  poll-Kept s o p distinct l = (
    poll_each-Kept s o p.live p distinct l (lookup-entries s o p.live distinct l),
    poll_each-Fired p.live p,
  )
