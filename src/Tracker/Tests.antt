-- ===== src/Tracker/Tests.antt =====
-- Concrete ledgers and sales, in fixed point: 1.0 is 10^12.
use smarty_trader.Prelude.{◌≡◌, refl, ◌≢◌, String, none, some, List, [], ◌∷◌, map, arith, string_eq}
use smarty_trader.Prelude.Int.{ℤ, pos, ◌-ℤ◌, ◌≤ℤ◌, ◌+ℤ◌}
use smarty_trader.Prelude.Dict.{DistinctKeys}
use smarty_trader.Float.{fixed, fixed-IsOrdered, sum_f, ◌⊖◌}
use smarty_trader.Tracker.{
  Lot, PositionTracker, empty_tracker, sell_lots, outcome, quantity, on_sell, on_buy, lots_of,
  lots_quantity, put_back, consume, consume_lot, add_lot,
}
use smarty_trader.Tracker.Loop.{IsDone, sell_lots-IsDone}
use smarty_trader.Tracker.Attribution.{entry_pnl, sell_lots-attributed}
use smarty_trader.Tracker.Quantity.{AllPositive, quantity-on_sell}
use smarty_trader.Tracker.Whole.{AllWhole, on_sell-whole}
use smarty_trader.Tracker.Booking.{
  FillRecord, FillSide, replay_fills, replay_from, replay_fill, book_fill, book_buy, book_sell,
  note_levels,
}
use smarty_trader.Tracker.Replay.{IsArmed, replay_fills-IsArmed}

-- 2.0 at 100.0 and 1.0 at 110.0
abbrev two_lots : List (Lot ℤ)
two_lots =
    record {
      quantity = pos 2_000_000_000_000;
      price = pos 100_000_000_000_000;
      fee_paid = pos 200_000_000_000;
      decision_id = some 1;
    }
    ∷ record {
      quantity = pos 1_000_000_000_000;
      price = pos 110_000_000_000_000;
      fee_paid = pos 0;
      decision_id = some 2;
    }
    ∷ []

abbrev two_lots_tracker : PositionTracker ℤ
two_lots_tracker = record { lots = ("BTC", two_lots) ∷ []; short_lots = [] }

abbrev gain_at_120 : ℤ → ℤ
gain_at_120 entry = pos 120_000_000_000_000 ⊖ entry

sold_two_and_a_half :
    quantity
      (on_sell two_lots_tracker "BTC" (pos 2_500_000_000_000) (pos 120_000_000_000_000) (pos 0)).1
      "BTC"
    ≡ pos 500_000_000_000
unfolding quantity on_sell lots_quantity put_back sell_lots consume consume_lot ◌-ℤ◌ ◌+ℤ◌
sold_two_and_a_half = refl

sell_lots-IsDone_example : IsDone (sell_lots gain_at_120 (pos 2_500_000_000_000) (pos 0) two_lots)
unfolding ◌-ℤ◌
sell_lots-IsDone_example =
    sell_lots-IsDone fixed-IsOrdered gain_at_120 (pos 2_500_000_000_000) (pos 0) two_lots
      (refl, (refl, tt))

sell_lots-attributed_example :
    let o = outcome (sell_lots gain_at_120 (pos 2_500_000_000_000) (pos 50_000_000_000) two_lots) in
    sum_f (map entry_pnl o.closed_entries) ≡ o.net_pnl
sell_lots-attributed_example =
    sell_lots-attributed gain_at_120 (pos 2_500_000_000_000) (pos 50_000_000_000) two_lots

two_lots_cover : pos 2_500_000_000_000 ≤ℤ quantity two_lots_tracker "BTC"
unfolding quantity lots_quantity ◌+ℤ◌
two_lots_cover = omega arith

quantity-on_sell_example :
    let t =
      (on_sell two_lots_tracker "BTC"
        (pos 2_500_000_000_000)
        (pos 120_000_000_000_000)
        (pos 0)).1 in
    (quantity t "BTC" +ℤ pos 2_500_000_000_000 ≤ℤ quantity two_lots_tracker "BTC")
    × (quantity two_lots_tracker "BTC" ≤ℤ quantity t "BTC" +ℤ pos 2_500_000_000_000 +ℤ pos 1)
    × AllPositive (lots_of "BTC" t.lots)
quantity-on_sell_example =
    quantity-on_sell two_lots_tracker "BTC" (pos 2_500_000_000_000) (pos 120_000_000_000_000)
      (pos 0) (refl, tt) (omega arith, (omega arith, tt)) (omega arith) two_lots_cover

on_sell-whole_example :
    let t =
      (on_sell two_lots_tracker "BTC"
        (pos 2_500_000_000_000)
        (pos 120_000_000_000_000)
        (pos 0)).1 in
    (quantity t "BTC" ≡ quantity two_lots_tracker "BTC" -ℤ pos 2_500_000_000_000)
    × AllWhole (lots_of "BTC" t.lots)
    × DistinctKeys t.lots
on_sell-whole_example =
    on_sell-whole two_lots_tracker "BTC" (pos 2_500_000_000_000) (pos 120_000_000_000_000) (pos 0)
      (refl, tt) ((omega arith, (refl, refl)), ((omega arith, (refl, refl)), tt)) (refl, refl)
      two_lots_cover

abbrev fill_of : FillSide → ℤ → FillRecord ℤ
fill_of side qty = record {
  symbol = "BTC";
  side = side;
  quantity = qty;
  price = pos 100_000_000_000_000;
  decision_id = none;
  stop_loss = some (pos 90_000_000_000_000);
  take_profit = none;
  fee_base = pos 0;
  fee_quote = pos 0;
  order_id = none;
}

-- a fill that opens a position and one that closes it
abbrev round_trip : List (FillRecord ℤ)
round_trip =
    fill_of FillSide.buy (pos 1_000_000_000_000)
    ∷ fill_of FillSide.sell (pos 1_000_000_000_000)
    ∷ []

round_trip_disarms : (replay_fills empty_tracker round_trip).levels ≡ []
unfolding replay_fills replay_from replay_fill book_fill book_buy book_sell note_levels on_buy
    add_lot on_sell sell_lots consume consume_lot put_back quantity lots_quantity ◌-ℤ◌ ◌+ℤ◌
round_trip_disarms = refl

replay_fills-IsArmed_example : IsArmed (replay_fills empty_tracker round_trip)
replay_fills-IsArmed_example = replay_fills-IsArmed empty_tracker round_trip

other_symbol : ◌≢◌ {A = String} "BTC" "ETH"
other_symbol e = ground (arith, string_eq.test_iff "BTC" "ETH")
