-- ===== src/Tracker/Whole.antt =====
-- Quantities in whole steps of 10^-8, to which the sizing rounds. A sale is then exact, since no lot
-- is left with dust. Sums are exact (`Fixed`).
use smarty_trader.Prelude.{
  ℕ, suc, ◌%◌, ◌≡◌, refl, inl, inr, String, Option, List, [], ◌∷◌, ◌++◌, arith, length, All,
  All-append, string_eq,
}
use smarty_trader.Prelude.Dict.{DistinctKeys, insert-DistinctKeys, erase-DistinctKeys}
use smarty_trader.Prelude.Int.{
  ℤ, pos, ◌+ℤ◌, ◌-ℤ◌, ◌≤ℤ◌, ◌<ℤ◌, pos_part, neg_part, int_laws, parts_of_eq,
}
use mathlib.Core.Path.{subst}
use smarty_trader.Float.{fixed, fixed-IsOrdered}
use smarty_trader.Tracker.{
  Lot, Ledger, Sale, PositionTracker, consume_lot, sell_lots, start, on_sell, on_buy, add_lot,
  lots_of, put_back, quantity,
}
use smarty_trader.Tracker.Loop.{consume_inv, IsDone, AllFinite, sell_lots-IsDone}
use smarty_trader.Tracker.Quantity.{
  held, held-append, lots_of-add_lot, lots_quantity-eq-held, lots_of-put_back,
}

abbrev pub IsWhole : ℤ → Type 0
IsWhole x = (pos_part x % 10_000 ≡ 0) × (neg_part x ≡ 0)

abbrev pub IsWholeLot : Lot ℤ → Type 0
IsWholeLot l = (pos 0 <ℤ l.quantity) × IsWhole l.quantity

abbrev pub AllWhole : List (Lot ℤ) → Type 0
AllWhole = All IsWholeLot

-- A point in the loop of an order for `qty` out of lots that held `had`.
record IsExact (had qty : ℤ) (s : Sale ℤ) : Type 0 where
  lots_whole : AllWhole s.lots
  rest_whole : IsWhole s.remaining
  counted : held s.lots +ℤ qty ≡ had +ℤ s.remaining

pub sub-IsWhole : (a b : ℤ) → IsWhole a → IsWhole b → b ≤ℤ a → IsWhole (a -ℤ b)
unfolding ◌-ℤ◌
sub-IsWhole a b p q le = ground arith

add-IsWhole : (a b : ℤ) → IsWhole a → IsWhole b → IsWhole (a +ℤ b)
unfolding ◌+ℤ◌
add-IsWhole a b p q = ground arith

whole_gap : (a b : ℤ) → IsWhole a → IsWhole b → b <ℤ a → pos 1 <ℤ a -ℤ b
unfolding ◌-ℤ◌
whole_gap a b p q lt = ground arith

sub_self : (a : ℤ) → a -ℤ a ≡ pos 0
sub_self a = omega int_laws

module _ (had qty : ℤ) where
  after_part : (q r h : ℤ) → q +ℤ h +ℤ qty ≡ had +ℤ r → (q -ℤ r) +ℤ h +ℤ qty ≡ had +ℤ pos 0
  after_part q r h c = omega (int_laws, parts_of_eq c)

  after_all : (q r h : ℤ) → q +ℤ h +ℤ qty ≡ had +ℤ r → h +ℤ qty ≡ had +ℤ (r -ℤ q)
  after_all q r h c = omega (int_laws, parts_of_eq c)

  consume_lot-IsExact :
      (fee : ℤ) (gain : ℤ → ℤ) (lot : Lot ℤ) (rest : List (Lot ℤ)) (s : Sale ℤ)
      → pos 0 <ℤ s.remaining
      → AllWhole (lot ∷ rest)
      → IsWhole s.remaining
      → lot.quantity +ℤ held rest +ℤ qty ≡ had +ℤ s.remaining
      → IsExact had qty (consume_lot gain qty fee lot rest s)
  unfolding consume_lot
  consume_lot-IsExact fee gain lot rest s go w r c = ground (
    arith,
    sub-IsWhole lot.quantity s.remaining w.0.1 r,
    sub-IsWhole s.remaining lot.quantity r w.0.1,
    whole_gap lot.quantity s.remaining w.0.1 r,
    sub_self lot.quantity,
    sub_self s.remaining,
    after_part lot.quantity s.remaining (held rest) c,
    after_all lot.quantity s.remaining (held rest) c,
  )

  sell_lots-IsExact :
      (fee : ℤ) (gain : ℤ → ℤ) (lots : List (Lot ℤ))
      → AllWhole lots
      → IsWhole qty
      → had ≡ held lots
      → IsExact had qty (sell_lots gain qty fee lots)
  unfolding sell_lots
  sell_lots-IsExact fee gain lots w q e =
      consume_inv (IsExact had qty) gain qty fee
        (λ s lot rest eq go x.
          let w' : AllWhole (lot ∷ rest) = subst AllWhole eq x.lots_whole in
          let c : held (lot ∷ rest) +ℤ qty ≡ had +ℤ s.remaining =
            subst (λ (ls : List (Lot ℤ)). held ls +ℤ qty ≡ had +ℤ s.remaining) eq x.counted in
          consume_lot-IsExact fee gain lot rest s (ground arith) w' x.rest_whole c)
        (suc (length lots)) (start qty lots) lots refl
        (record { lots_whole = w; rest_whole = q; counted = rw e })

AllWhole-AllFinite : (lots : List (Lot ℤ)) → AllWhole lots → AllFinite lots
AllWhole-AllFinite [] w = tt
AllWhole-AllFinite (l ∷ ls) w = (omega int_laws, AllWhole-AllFinite ls w.1)

-- What the loop leaves of a covered order in whole steps: nothing.
sold_in_full :
    (had qty : ℤ) (s : Sale ℤ)
    → qty ≤ℤ had
    → IsExact had qty s
    → IsDone s
    → held s.lots ≡ had -ℤ qty
sold_in_full had qty s enough x (inl e) =
    let c : pos 0 +ℤ qty ≡ had +ℤ s.remaining =
      subst (λ (ls : List (Lot ℤ)). held ls +ℤ qty ≡ had +ℤ s.remaining) e x.counted in
    rw e (omega (int_laws, parts_of_eq c, x.rest_whole))
sold_in_full had qty s enough x (inr stop) =
    let le : s.remaining ≤ℤ pos 0 = ground arith in
    omega (int_laws, parts_of_eq x.counted, x.rest_whole)

put_back-DistinctKeys :
    (symbol : String) (lots : List (Lot ℤ)) (book : Ledger ℤ)
    → DistinctKeys book
    → DistinctKeys (put_back symbol lots book)
unfolding put_back
put_back-DistinctKeys symbol [] book h = erase-DistinctKeys symbol book h
put_back-DistinctKeys symbol (l ∷ ls) book h = insert-DistinctKeys symbol (l ∷ ls) book h

module _ (book : Ledger ℤ) (symbol : String) (qty price fee : ℤ) (decision : Option ℕ) where
  add_lot-DistinctKeys :
      DistinctKeys book → DistinctKeys (add_lot book symbol qty price fee decision)
  unfolding add_lot
  add_lot-DistinctKeys h = ground (
    arith,
    insert-DistinctKeys symbol
        (lots_of symbol book
          ++ (record { quantity = qty; price = price; fee_paid = fee; decision_id = decision }
              ∷ []))
        book h,
  )

module _ (t : PositionTracker ℤ) (symbol : String) where
  -- A sale in whole steps that the lots cover takes exactly what was sold.
  pub on_sell-whole :
      (qty price fee : ℤ)
      → DistinctKeys t.lots
      → AllWhole (lots_of symbol t.lots)
      → IsWhole qty
      → qty ≤ℤ quantity t symbol
      → let t' = (on_sell t symbol qty price fee).1 in
        (quantity t' symbol ≡ quantity t symbol -ℤ qty)
        × AllWhole (lots_of symbol t'.lots)
        × DistinctKeys t'.lots
  unfolding on_sell quantity
  on_sell-whole qty price fee keys w q enough =
      let lots = lots_of symbol t.lots in
      let gain : ℤ → ℤ = λ entry. price -ℤ entry in
      let s = sell_lots gain qty fee lots in
      let x = sell_lots-IsExact (held lots) qty fee gain lots w q refl in
      let done = sell_lots-IsDone fixed-IsOrdered gain qty fee lots (AllWhole-AllFinite lots w) in
      let whole : qty ≤ℤ held lots = rw (lots_quantity-eq-held lots) at enough in
      rw
        (
          lots_of-put_back symbol s.lots t.lots keys,
          lots_quantity-eq-held s.lots,
          lots_quantity-eq-held lots,
        )
        (
          sold_in_full (held lots) qty s whole x done,
          x.lots_whole,
          put_back-DistinctKeys symbol s.lots t.lots keys,
        )

  -- A buy in whole steps adds exactly what was bought.
  pub on_buy-whole :
      (qty price fee : ℤ) (decision : Option ℕ)
      → DistinctKeys t.lots
      → AllWhole (lots_of symbol t.lots)
      → pos 0 <ℤ qty
      → IsWhole qty
      → let t' = on_buy t symbol qty price fee decision in
        (quantity t' symbol ≡ quantity t symbol +ℤ qty)
        × AllWhole (lots_of symbol t'.lots)
        × DistinctKeys t'.lots
  unfolding on_buy quantity
  on_buy-whole qty price fee decision keys w p q =
      let lots = lots_of symbol t.lots in
      let lot : Lot ℤ = record {
        quantity = qty;
        price = price;
        fee_paid = fee;
        decision_id = decision;
      } in
      rw
        (
          lots_of-add_lot t.lots symbol qty price fee decision p,
          lots_quantity-eq-held (lots ++ (lot ∷ [])),
          lots_quantity-eq-held lots,
          held-append lots lot,
        )
        (
          refl,
          All-append IsWholeLot lots (lot ∷ []) w ((p, q), tt),
          add_lot-DistinctKeys t.lots symbol qty price fee decision keys,
        )

held-IsWhole : (lots : List (Lot ℤ)) → AllWhole lots → IsWhole (held lots)
held-IsWhole [] w = omega arith
held-IsWhole (l ∷ ls) w = add-IsWhole l.quantity (held ls) w.0.1 (held-IsWhole ls w.1)

pub quantity-IsWhole :
    (t : PositionTracker ℤ) (symbol : String)
    → AllWhole (lots_of symbol t.lots)
    → IsWhole (quantity t symbol)
unfolding quantity
quantity-IsWhole t symbol w = rw lots_quantity-eq-held (held-IsWhole _ w)
