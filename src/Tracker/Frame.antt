-- ===== src/Tracker/Frame.antt =====
-- An operation on one symbol leaves the lots of the others, and the other book, alone.
use smarty_trader.Prelude.{ℕ, ◌≡◌, ◌≢◌, String, Option, List, [], ◌∷◌, ◌++◌, arith, string_eq}
use smarty_trader.Prelude.Dict.{lookup-insert_ne, lookup-erase_ne}
use smarty_trader.Float.{Float}
use smarty_trader.Tracker.{
  Lot, Ledger, PositionTracker, lots_of, add_lot, on_buy, put_back, on_sell,
}

module _ {F : Type 0} ⦃d : Float F⦄ where
  pub lots_of-add_lot_ne :
      (book : Ledger F) (s j : String) (q p f : F) (i : Option ℕ)
      → s ≢ j
      → lots_of j (add_lot book s q p f i) ≡ lots_of j book
  unfolding add_lot
  lots_of-add_lot_ne book s j q p f i h = ground (
    arith,
    lookup-insert_ne s j
        (lots_of s book ++ (record { quantity = q; price = p; fee_paid = f; decision_id = i } ∷ []))
        book h,
  )

  pub lots_of-put_back_ne :
      (book : Ledger F) (s j : String) (lots : List (Lot F))
      → s ≢ j
      → lots_of j (put_back s lots book) ≡ lots_of j book
  unfolding put_back
  lots_of-put_back_ne book s j [] h = ground (arith, lookup-erase_ne s j book h)
  lots_of-put_back_ne book s j (l ∷ ls) h = ground (arith, lookup-insert_ne s j (l ∷ ls) book h)

  pub lots_of-on_buy_ne :
      (t : PositionTracker F) (s j : String) (q p f : F) (i : Option ℕ)
      → s ≢ j
      → lots_of j (on_buy t s q p f i).lots ≡ lots_of j t.lots
  unfolding on_buy
  lots_of-on_buy_ne t s j q p f i h = lots_of-add_lot_ne t.lots s j q p f i h

  pub lots_of-on_sell_ne :
      (t : PositionTracker F) (s j : String) (q p f : F)
      → s ≢ j
      → lots_of j (on_sell t s q p f).1.lots ≡ lots_of j t.lots
  unfolding on_sell
  lots_of-on_sell_ne t s j q p f h = lots_of-put_back_ne t.lots s j _ h
