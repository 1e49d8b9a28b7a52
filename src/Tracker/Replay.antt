-- ===== src/Tracker/Replay.antt =====
-- After a replay, exit levels stand only at symbols that are held.
use smarty_trader.Prelude.{
  ℕ, ◌≡◌, refl, ◌≢◌, false, inl, inr, String, Option, none, List, [], ◌∷◌, arith, string_eq, ◌==◌,
  Bool-cases,
}
use smarty_trader.Prelude.Dict.{
  Dict, lookup, lookup-insert_ne, lookup-erase_ne, lookup-erase_self, DistinctKeys,
  insert-DistinctKeys, erase-DistinctKeys,
}
use smarty_trader.Float.{Float, ◌⊕◌, ◌⊗◌, ◌≤?◌}
use smarty_trader.Tracker.{PositionTracker, quantity, on_buy, on_sell, dust}
use smarty_trader.Tracker.Frame.{lots_of-on_buy_ne, lots_of-on_sell_ne}
use smarty_trader.Tracker.Booking.{
  FillSide, FillRecord, ExitLevels, Replay, book_fill, note_levels, replay_fill, replay_from,
  replay_fills,
}

module _ {F : Type 0} ⦃d : Float F⦄ where
  quantity-on_buy_ne :
      (t : PositionTracker F) (s j : String) (q p f : F) (i : Option ℕ)
      → s ≢ j
      → quantity (on_buy t s q p f i) j ≡ quantity t j
  unfolding quantity
  quantity-on_buy_ne t s j q p f i h = rw (lots_of-on_buy_ne t s j q p f i h)

  quantity-on_sell_ne :
      (t : PositionTracker F) (s j : String) (q p f : F)
      → s ≢ j
      → quantity (on_sell t s q p f).1 j ≡ quantity t j
  unfolding quantity
  quantity-on_sell_ne t s j q p f h = rw (lots_of-on_sell_ne t s j q p f h)

  -- Booking a fill leaves the quantity of every other symbol as it was.
  pub quantity-book_fill_ne :
      (t : PositionTracker F) (s j : String) (side : FillSide) (q p fb fq : F) (i : Option ℕ)
      → s ≢ j
      → quantity (book_fill t s side q p fb fq i).1 j ≡ quantity t j
  unfolding book_fill
  quantity-book_fill_ne t s j FillSide.buy q p fb fq i h = quantity-on_buy_ne t s j _ p _ i h
  quantity-book_fill_ne t s j FillSide.sell q p fb fq i h =
      ground (arith, quantity-on_sell_ne t s j q p (fq ⊕ fb ⊗ p) h)
  quantity-book_fill_ne t s j FillSide.other q p fb fq i h =
      ground (arith, quantity-on_sell_ne t s j q p (fq ⊕ fb ⊗ p) h)

  -- Levels stand at a symbol once, and only while more than dust of it is held.
  pub record IsArmed (r : Replay F) : Type 0 where
    pub distinct : DistinctKeys r.levels
    pub held : (s : String) → lookup s r.levels ≢ none → (quantity r.tracker s ≤? dust) ≡ false

  note_levels-DistinctKeys :
      (f : FillRecord F) (side : FillSide) (levels : Dict String (ExitLevels F))
      → DistinctKeys levels
      → DistinctKeys (note_levels f side levels)
  unfolding note_levels
  note_levels-DistinctKeys f FillSide.buy levels h = insert-DistinctKeys f.symbol _ levels h
  note_levels-DistinctKeys f FillSide.sell levels h = h
  note_levels-DistinctKeys f FillSide.other levels h = h

  lookup-note_levels_ne :
      (f : FillRecord F) (side : FillSide) (levels : Dict String (ExitLevels F)) (s : String)
      → f.symbol ≢ s
      → lookup s (note_levels f side levels) ≡ lookup s levels
  unfolding note_levels
  lookup-note_levels_ne f FillSide.buy levels s h = lookup-insert_ne f.symbol s _ levels h
  lookup-note_levels_ne f FillSide.sell levels s h = refl
  lookup-note_levels_ne f FillSide.other levels s h = refl

  replay_fill-IsArmed : (r : Replay F) (f : FillRecord F) → IsArmed r → IsArmed (replay_fill r f)
  unfolding replay_fill
  replay_fill-IsArmed r f a =
      let levels = note_levels f f.side r.levels in
      let keys = note_levels-DistinctKeys f f.side r.levels a.distinct in
      record {
        distinct = ground (arith, erase-DistinctKeys f.symbol levels keys, keys, a.distinct);
        held = λ s. elim (Bool-cases (f.symbol == s)) [
          | inl same ↦
              let e : f.symbol ≡ s = (string_eq.test_iff f.symbol s).0 same in
              rw (← e) (ground (arith, a.held f.symbol, lookup-erase_self f.symbol levels keys))
          | inr other ↦
              let ne : f.symbol ≢ s = λ e. ground (arith, string_eq.test_iff f.symbol s) in
              ground (
                arith,
                a.held s,
                lookup-erase_ne f.symbol s levels ne,
                lookup-note_levels_ne f f.side r.levels s ne,
                quantity-book_fill_ne r.tracker f.symbol s f.side f.quantity f.price f.fee_base
                    f.fee_quote f.decision_id ne,
              )
        ];
      }

  replay_from-IsArmed :
      (r : Replay F) (fills : List (FillRecord F)) → IsArmed r → IsArmed (replay_from r fills)
  unfolding replay_from
  replay_from-IsArmed r [] a = a
  replay_from-IsArmed r (f ∷ fs) a =
      replay_from-IsArmed (replay_fill r f) fs (replay_fill-IsArmed r f a)

  -- After any replay of stored fills into a ledger, a symbol has exit levels only if the replayed
  -- ledger holds more than dust of it, and no symbol has them twice.
  pub replay_fills-IsArmed :
      (t : PositionTracker F) (fills : List (FillRecord F)) → IsArmed (replay_fills t fills)
  unfolding replay_fills
  replay_fills-IsArmed t fills =
      replay_from-IsArmed _ fills (record { distinct = tt; held = λ s h. absurd (h refl) })
