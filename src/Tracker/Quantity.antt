-- ===== src/Tracker/Quantity.antt =====
-- How much of a symbol the ledger holds after a sale, where sums are exact (`Fixed`).
use smarty_trader.Prelude.{
  ℕ, suc, ◌≡◌, ◌∙◌, refl, Bool-cases, inl, inr, String, Option, List, [], ◌∷◌, ◌++◌, map, arith,
  length, All, string_eq,
}
use mathlib.Core.Path.{subst}
use smarty_trader.Prelude.Dict.{lookup-insert_self, lookup-erase_self, DistinctKeys}
use smarty_trader.Prelude.Int.{ℤ, pos, ◌+ℤ◌, ◌-ℤ◌, ◌≤ℤ◌, ◌<ℤ◌, leb_ℤ, int_laws, -ℤ_parts}
use smarty_trader.Float.{fixed, fixed-IsOrdered, sum, sum_f-eq-sum}
use smarty_trader.Tracker.{
  Lot, Ledger, Sale, PositionTracker, consume_lot, sell_lots, start, on_sell, on_buy, add_lot,
  lots_of, put_back, quantity, lots_quantity,
}
use smarty_trader.Tracker.Loop.{consume_inv, AllFinite, sell_lots-IsDone}

abbrev pub held : List (Lot ℤ) → ℤ
held [] = pos 0
held (l ∷ ls) = l.quantity +ℤ held ls

held-eq-sum : (lots : List (Lot ℤ)) → sum (map (λ (l : Lot ℤ). l.quantity) lots) ≡ held lots
held-eq-sum [] = refl
held-eq-sum (l ∷ ls) = rw (held-eq-sum ls)

pub lots_quantity-eq-held : (lots : List (Lot ℤ)) → lots_quantity lots ≡ held lots
unfolding lots_quantity
lots_quantity-eq-held lots = sum_f-eq-sum _ ∙ held-eq-sum lots

abbrev pub AllPositive : List (Lot ℤ) → Type 0
AllPositive = All (λ l. pos 0 <ℤ l.quantity)

-- Of an order for `qty` out of lots that held `had`: `r` is still to be sold out of lots that hold
-- `h`. At most one unit, 10^-12, is dropped, and that at the end.
record Counts (had qty r h : ℤ) : Type 0 where
  nonneg : pos 0 ≤ℤ r
  not_below : h +ℤ qty ≤ℤ had +ℤ r
  not_above : had +ℤ r ≤ℤ h +ℤ qty +ℤ pos 1
  so_far : (pos 0 <ℤ r) → had +ℤ r ≤ℤ h +ℤ qty

module _ (had qty : ℤ) where
  used_up :
      (q r h : ℤ) → Counts had qty r (q +ℤ h) → pos 0 <ℤ r → q ≤ℤ r → Counts had qty (r -ℤ q) h
  used_up q r h c go le = omega (int_laws, c.so_far go)

  sold_out :
      (q r h : ℤ) → Counts had qty r (q +ℤ h) → pos 0 <ℤ r → Counts had qty (r -ℤ r) (q -ℤ r +ℤ h)
  sold_out q r h c go = omega (int_laws, c.so_far go)

  dropped :
      (q r h : ℤ)
      → Counts had qty r (q +ℤ h)
      → pos 0 <ℤ r
      → r <ℤ q
      → q -ℤ r ≤ℤ pos 1
      → Counts had qty (r -ℤ r) h
  dropped q r h c go lt le = omega (int_laws, c.so_far go)

  abbrev IsCounted : Sale ℤ → Type 0
  IsCounted s = AllPositive s.lots × Counts had qty s.remaining (held s.lots)

  consume_lot-IsCounted :
      (fee : ℤ) (gain : ℤ → ℤ) (lot : Lot ℤ) (rest : List (Lot ℤ)) (s : Sale ℤ)
      → pos 0 <ℤ s.remaining
      → AllPositive (lot ∷ rest)
      → Counts had qty s.remaining (lot.quantity +ℤ held rest)
      → IsCounted (consume_lot gain qty fee lot rest s)
  unfolding consume_lot
  consume_lot-IsCounted fee gain lot rest s go p c = ground (
    arith,
    used_up lot.quantity s.remaining (held rest) c go,
    sold_out lot.quantity s.remaining (held rest) c go,
    dropped lot.quantity s.remaining (held rest) c go,
    -ℤ_parts lot.quantity s.remaining,
    -ℤ_parts lot.quantity lot.quantity,
  )

  sell_lots-IsCounted :
      (fee : ℤ) (gain : ℤ → ℤ) (lots : List (Lot ℤ))
      → AllPositive lots
      → Counts had qty qty (held lots)
      → IsCounted (sell_lots gain qty fee lots)
  unfolding sell_lots
  sell_lots-IsCounted fee gain lots p c =
      consume_inv IsCounted gain qty fee
        (λ s lot rest e go h.
          let h' : AllPositive (lot ∷ rest) × Counts had qty s.remaining (held (lot ∷ rest)) =
            subst (λ (ls : List (Lot ℤ)). AllPositive ls × Counts had qty s.remaining (held ls)) e
              h in
          consume_lot-IsCounted fee gain lot rest s (ground arith) h'.0 h'.1)
        (suc (length lots)) (start qty lots) lots refl (p, c)

all_sold :
    (had qty : ℤ) (s : Sale ℤ)
    → s.lots ≡ []
    → qty ≤ℤ had
    → Counts had qty s.remaining (held s.lots)
    → s.remaining ≤ℤ pos 0
all_sold had qty s e whole c =
    let c' : Counts had qty s.remaining (pos 0) =
      subst (λ (ls : List (Lot ℤ)). Counts had qty s.remaining (held ls)) e c in
    elim (Bool-cases (leb_ℤ s.remaining (pos 0))) [
      | inl le ↦ ground arith
      | inr gt ↦
          let go : pos 0 <ℤ s.remaining = ground arith in absurd (omega (int_laws, c'.so_far go))
    ]

AllPositive-AllFinite : (lots : List (Lot ℤ)) → AllPositive lots → AllFinite lots
AllPositive-AllFinite [] p = tt
AllPositive-AllFinite (l ∷ ls) p = (omega int_laws, AllPositive-AllFinite ls p.1)

pub lots_of-put_back :
    (symbol : String) (lots : List (Lot ℤ)) (book : Ledger ℤ)
    → DistinctKeys book
    → lots_of symbol (put_back symbol lots book) ≡ lots
unfolding put_back
lots_of-put_back symbol [] book h = ground (arith, lookup-erase_self symbol book h)
lots_of-put_back symbol (l ∷ ls) book h = ground (arith, lookup-insert_self symbol (l ∷ ls) book)

-- Out of lots of positive quantity that cover it, a sale takes what was sold, and no more than the
-- dust of 10^-12 beyond it; it leaves every lot that is kept with a positive quantity.
pub quantity-on_sell :
    (t : PositionTracker ℤ) (symbol : String) (qty price fee : ℤ)
    → DistinctKeys t.lots
    → AllPositive (lots_of symbol t.lots)
    → pos 0 ≤ℤ qty
    → qty ≤ℤ quantity t symbol
    → let t' = (on_sell t symbol qty price fee).1 in
      (quantity t' symbol +ℤ qty ≤ℤ quantity t symbol)
      × (quantity t symbol ≤ℤ quantity t' symbol +ℤ qty +ℤ pos 1)
      × AllPositive (lots_of symbol t'.lots)
unfolding on_sell quantity
quantity-on_sell t symbol qty price fee keys p nonneg enough =
    let lots = lots_of symbol t.lots in
    let gain : ℤ → ℤ = λ entry. price -ℤ entry in
    let s = sell_lots gain qty fee lots in
    let had = held lots in
    let whole : qty ≤ℤ had = rw lots_quantity-eq-held at enough in
    let counted = sell_lots-IsCounted had qty fee gain lots p (omega int_laws) in
    let c = counted.1 in
    let done = sell_lots-IsDone fixed-IsOrdered gain qty fee lots (AllPositive-AllFinite lots p) in
    let none_left : s.remaining ≤ℤ pos 0 = elim done [
      | inl e ↦ all_sold had qty s e whole c
      | inr stop ↦ ground arith
    ] in
    rw (lots_of-put_back symbol s.lots t.lots keys, lots_quantity-eq-held, lots_quantity-eq-held)
      (omega (int_laws), omega int_laws, counted.0)

pub held-append :
    (lots : List (Lot ℤ)) (l : Lot ℤ) → held (lots ++ (l ∷ [])) ≡ held lots +ℤ l.quantity
held-append [] l = omega int_laws
held-append (k ∷ ks) l = rw (held-append ks l) (omega int_laws)

module _ (book : Ledger ℤ) (symbol : String) (qty price fee : ℤ) (decision : Option ℕ) where
  pub lots_of-add_lot :
      pos 0 <ℤ qty
      → lots_of symbol (add_lot book symbol qty price fee decision)
        ≡ lots_of symbol book
          ++ (record { quantity = qty; price = price; fee_paid = fee; decision_id = decision } ∷ [])
  unfolding add_lot
  lots_of-add_lot p = ground (
    arith,
    lookup-insert_self symbol
        (lots_of symbol book
          ++ (record { quantity = qty; price = price; fee_paid = fee; decision_id = decision }
              ∷ []))
        book,
  )

-- A buy adds what was bought.
pub quantity-on_buy :
    (t : PositionTracker ℤ) (symbol : String) (qty price fee : ℤ) (decision : Option ℕ)
    → pos 0 <ℤ qty
    → quantity (on_buy t symbol qty price fee decision) symbol ≡ quantity t symbol +ℤ qty
unfolding on_buy quantity
quantity-on_buy t symbol qty price fee decision p =
    let lots = lots_of symbol t.lots in
    let lot : Lot ℤ = record {
      quantity = qty;
      price = price;
      fee_paid = fee;
      decision_id = decision;
    } in
    rw
      (
        lots_of-add_lot t.lots symbol qty price fee decision p,
        lots_quantity-eq-held (lots ++ (lot ∷ [])),
        lots_quantity-eq-held lots,
      )
      (held-append lots lot)
