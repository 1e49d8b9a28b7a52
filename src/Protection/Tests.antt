-- ===== src/Protection/Tests.antt =====
-- Two watched orders: the venue has filled the one, and has canceled the other.
use smarty_trader.Prelude.{
  ◌≡◌, refl, String, none, some, [], ◌∷◌, true, false, ◌==◌, string_eq, if◌then◌else◌, All,
}
use smarty_trader.Prelude.Int.{ℤ, pos, ◌-ℤ◌}
use smarty_trader.Float.{fixed}
use smarty_trader.Protection.{
  RawAlgo, ProtectiveOrder, Child, Triggered, AlgoVenue, ProtectiveOrders, place, cancel, poll,
  poll_each, poll_one, check, check_answer, look_again, adopt, adopt_fired, matches,
}
use smarty_trader.Protection.Accounted.{Kept, Fired, poll-Kept}

abbrev algo : String → String → String → RawAlgo
algo id state child = record {
  id = some id;
  client_order_id = none;
  info = some (record {
    algo_client_id = some "taprot1";
    state = some state;
    ord_id = some child;
    ord_id_list = [];
    actual_side = some "sl";
  });
}

abbrev sold : Child ℤ
sold = record { filled = some (pos 2_000_000_000_000); average = some (fixed.of_ℕ 95) }

abbrev okx : AlgoVenue ℤ
okx = record {
  price = λ _ x. x;
  create_order = λ _ _. some (some "a3");
  cancel_algo = λ _ _ _. false;
  fetch_algo = λ _ id _.
      if id == "a1" then some (algo "a1" "effective" "c1") else some (algo id "canceled" "");
  fetch_child = λ _ _ _. some sold;
  fetch_closed = λ _ _ kind. if kind == "oco" then some (algo "a1" "effective" "c1" ∷ []) else none;
  fetch_open = λ _ _ _. none;
}

abbrev order_of : String → String → ProtectiveOrder ℤ
order_of id symbol = record {
  algo_id = id;
  symbol = symbol;
  quantity = fixed.of_ℕ 2;
  stop_loss = some (fixed.of_ℕ 95);
  take_profit = none;
}

abbrev watched : ProtectiveOrders ℤ
watched = record {
  live = ("BTC", order_of "a1" "BTC") ∷ ("ETH", order_of "a2" "ETH") ∷ [];
  failing = [];
  calls = 0;
}

abbrev stopped : Triggered ℤ
stopped = record { symbol = "BTC"; algo_id = "a1"; child_id = "c1"; side_hit = "sl"; child = sold }

polled : poll okx watched ≡ (stopped ∷ [], record { live = []; failing = []; calls = 4 })
unfolding poll poll_each poll_one check check_answer
polled = refl

-- a refused cancellation of a fired order reports its fill
cancelled_late : (cancel okx "BTC" watched).0 ≡ some stopped
unfolding cancel check check_answer look_again
cancelled_late = refl

-- A fired order whose child has not filled yet is neither reported nor watched any more.
abbrev slow_child : AlgoVenue ℤ
slow_child = record okx { fetch_child = λ _ _ _. some (record { filled = none; average = none }) }

lost :
    cancel slow_child "BTC" watched
    ≡ (none, record { live = ("ETH", order_of "a2" "ETH") ∷ []; failing = []; calls = 4 })
unfolding cancel check check_answer look_again
lost = refl

-- after a restart, a fill that storage knows is not reported again
adopted : (adopt okx ("BTC" ∷ []) [] watched).0 ≡ stopped ∷ []
unfolding adopt adopt_fired check_answer
adopted = refl

known : (adopt okx ("BTC" ∷ []) ("c1" ∷ []) watched).0 ≡ []
unfolding adopt adopt_fired check_answer
known = refl

placed :
    (place okx "SOL" (fixed.of_ℕ 2) (some (fixed.of_ℕ 95)) none watched).0
    ≡ some (order_of "a3" "SOL")
unfolding place
placed = refl

same : matches (order_of "a1" "BTC") (fixed.of_ℕ 2) (some (fixed.of_ℕ 95)) none ≡ true
unfolding matches ◌-ℤ◌
same = refl

poll-Kept_example :
    Kept okx "BTC" (order_of "a1" "BTC") (poll okx watched) × All (Fired okx) (poll okx watched).0
poll-Kept_example = poll-Kept okx "BTC" (order_of "a1" "BTC") watched (refl, (refl, tt)) refl
