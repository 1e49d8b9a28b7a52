-- ===== src/Protection.antt =====
-- src/execution/protective_orders.py: the sell orders with trigger prices that wait at the venue.
-- What the venue answers is a function of the call's number, which the state counts; an exception
-- of a call is none, and false for a refused cancellation.
use text.Mathlib.Text.{starts_with}
use smarty_trader.Prelude.{
  ℕ, suc, Bool, true, false, not, ◌&&◌, ◌||◌, String, Option, none, some, List, [], ◌∷◌, ◌++◌,
  select, ◌==◌, string_eq, is_some, or_else, if◌then◌else◌,
}
use smarty_trader.Prelude.Dict.{Dict, lookup, insert, erase}
use smarty_trader.Prelude.Keys.{member, add_key}
use smarty_trader.Float.{Float, ◌⊖◌, ◌<?◌, ◌≤?◌, ◌=?◌, zero_f, abs_f}
pub mod Accounted
mod Tests

-- an answer of the venue about an algo order, as far as it is read
pub record Info : Type 0 where
  pub algo_client_id : Option String
  pub state : Option String
  pub ord_id : Option String
  pub ord_id_list : List String
  pub actual_side : Option String

pub record RawAlgo : Type 0 where
  pub id : Option String
  pub client_order_id : Option String
  -- none where it is missing or no dict
  pub info : Option Info

abbrev pub no_info : Info
no_info = record {
  algo_client_id = none;
  state = none;
  ord_id = none;
  ord_id_list = [];
  actual_side = none;
}

-- `x or default`: an empty text counts as missing
abbrev pub text_or : Option String → String → String
text_or none other = other
text_or (some s) other = if s == "" then other else s

abbrev pub info_of : RawAlgo → Info
info_of raw = or_else raw.info no_info

-- `_is_ours`
abbrev pub is_ours : RawAlgo → Bool
is_ours raw =
    starts_with (text_or (info_of raw).algo_client_id (text_or raw.client_order_id "")) "taprot"

-- `_algo_state`
abbrev pub algo_state : RawAlgo → String
algo_state raw = text_or (info_of raw).state ""

abbrev pub first_text : List String → String
first_text [] = ""
first_text (s ∷ rest) = s

-- `_child_id`
abbrev pub child_id_of : RawAlgo → String
child_id_of raw = text_or (info_of raw).ord_id (first_text (info_of raw).ord_id_list)

-- `_DEAD_STATES`
abbrev pub is_dead : String → Bool
is_dead state = state == "canceled" || state == "order_failed"

-- `_state`
abbrev pub state_answer : Option RawAlgo → String
state_answer none = ""
state_answer (some raw) = algo_state raw

-- a status that still protects
abbrev pub is_working : String → Bool
is_working state = not (state == "") && not (is_dead state) && not (state == "effective")

abbrev pub is_news : List String → RawAlgo → Bool
is_news known raw =
    is_ours raw
    && algo_state raw == "effective"
    && not (child_id_of raw == "")
    && not (member (child_id_of raw) known)

pub record ProtectiveOrder (F : Type 0) : Type 0 where
  pub algo_id : String
  pub symbol : String
  pub quantity : F
  pub stop_loss : Option F
  pub take_profit : Option F

-- the market order that a fired one has left
pub record Child (F : Type 0) : Type 0 where
  pub filled : Option F
  pub average : Option F

pub record Triggered (F : Type 0) : Type 0 where
  pub symbol : String
  pub algo_id : String
  pub child_id : String
  pub side_hit : String
  pub child : Child F

-- `Triggered.reason`
abbrev pub reason_of : String → String
reason_of side_hit =
    if side_hit == "sl"
    then "venue stop-loss"
    else if side_hit == "tp"
    then "venue take-profit"
    else "venue protective order"

pub record AlgoRequest (F : Type 0) : Type 0 where
  pub symbol : String
  pub kind : String
  pub quantity : F
  pub stop_price : Option F
  pub take_price : Option F

-- the ccxt client, and `price_to_precision`
pub record AlgoVenue (F : Type 0) : Type 0 where
  pub price : String → F → F
  -- the id of the order that it has accepted
  pub create_order : ℕ → AlgoRequest F → Option (Option String)
  pub cancel_algo : ℕ → String → String → Bool
  pub fetch_algo : ℕ → String → String → Option RawAlgo
  pub fetch_child : ℕ → String → String → Option (Child F)
  pub fetch_closed : ℕ → String → String → Option (List RawAlgo)
  pub fetch_open : ℕ → String → String → Option (List RawAlgo)

pub record ProtectiveOrders (F : Type 0) : Type 0 where
  pub live : Dict String (ProtectiveOrder F)
  pub failing : List String
  pub calls : ℕ

module _ {F : Type 0} where
  abbrev pub called : ProtectiveOrders F → ProtectiveOrders F
  called p = record p { calls = suc p.calls }

  abbrev pub forget : String → ProtectiveOrders F → ProtectiveOrders F
  forget symbol p = record p { live = erase symbol p.live }

  abbrev pub watch : String → ProtectiveOrder F → ProtectiveOrders F → ProtectiveOrders F
  watch symbol order p = record p { live = insert symbol order p.live }

  -- `get`
  abbrev pub order_at : String → ProtectiveOrders F → Option (ProtectiveOrder F)
  order_at symbol p = lookup symbol p.live

  abbrev pub note_failure : String → ProtectiveOrders F → ProtectiveOrders F
  note_failure symbol p = record p { failing = add_key p.failing symbol }

  abbrev pub note_success : String → ProtectiveOrders F → ProtectiveOrders F
  note_success symbol p = record p { failing = select (λ s. not (s == symbol)) p.failing }

  abbrev pub at_precision : (F → F) → Option F → Option F
  at_precision price none = none
  at_precision price (some x) = some (price x)

  abbrev pub request_of : AlgoVenue F → String → F → Option F → Option F → AlgoRequest F
  request_of v symbol quantity stop take = record {
    symbol = symbol;
    kind = if is_some stop && is_some take then "oco" else "conditional";
    quantity = quantity;
    stop_price = at_precision (v.price symbol) stop;
    take_price = at_precision (v.price symbol) take;
  }

  abbrev pub placed_as : Option String → String → F → Option F → Option F → ProtectiveOrder F
  placed_as id symbol quantity stop take = record {
    algo_id = text_or id "";
    symbol = symbol;
    quantity = quantity;
    stop_loss = stop;
    take_profit = take;
  }

  unfoldable pub place :
      AlgoVenue F
      → String
      → F
      → Option F
      → Option F
      → ProtectiveOrders F
      → Option (ProtectiveOrder F) × ProtectiveOrders F
  place v symbol quantity stop take p =
      elim (v.create_order p.calls (request_of v symbol quantity stop take)) [
        | none ↦ (none, note_failure symbol (called p))
        | some id ↦ (
          some (placed_as id symbol quantity stop take),
          watch symbol (placed_as id symbol quantity stop take) (note_success symbol (called p)),
        )
      ]

  abbrev pub state_of : AlgoVenue F → ProtectiveOrder F → ProtectiveOrders F → String
  state_of v order p = state_answer (v.fetch_algo p.calls order.algo_id order.symbol)

module _ {F : Type 0} ⦃d : Float F⦄ where
  abbrev pub same_level : Option F → Option F → Bool
  same_level none none = true
  same_level none (some y) = false
  same_level (some x) none = false
  same_level (some x) (some y) = x =? y

  unfoldable pub matches : ProtectiveOrder F → F → Option F → Option F → Bool
  matches order quantity stop take =
      abs_f (order.quantity ⊖ quantity) ≤? d.decimal 1 12
      && same_level order.stop_loss stop
      && same_level order.take_profit take

  -- a fill that is not zero
  abbrev pub has_filled : Child F → Bool
  has_filled c = not (or_else c.filled zero_f =? zero_f)

  abbrev pub triggered_by : ProtectiveOrder F → RawAlgo → Child F → Triggered F
  triggered_by order raw c = record {
    symbol = order.symbol;
    algo_id = order.algo_id;
    child_id = child_id_of raw;
    side_hit = text_or (info_of raw).actual_side "";
    child = c;
  }

  abbrev pub check_child : ProtectiveOrder F → RawAlgo → Option (Child F) → Option (Triggered F)
  check_child order raw none = none
  check_child order raw (some c) = if has_filled c then some (triggered_by order raw c) else none

  -- `_check` of an answer that is at hand
  unfoldable pub check_answer :
      AlgoVenue F
      → ProtectiveOrder F
      → RawAlgo
      → ProtectiveOrders F
      → Option (Triggered F) × ProtectiveOrders F
  check_answer v order raw p =
      if algo_state raw == "effective" && not (child_id_of raw == "")
      then (check_child order raw (v.fetch_child p.calls (child_id_of raw) order.symbol), called p)
      else (none, p)

  -- `_check`
  unfoldable pub check :
      AlgoVenue F
      → ProtectiveOrder F
      → ProtectiveOrders F
      → Option (Triggered F) × ProtectiveOrders F
  unfolding check_answer
  check v order p = elim (v.fetch_algo p.calls order.algo_id order.symbol) [
    | none ↦ (none, called p)
    | some raw ↦ check_answer v order raw (called p)
  ]

  -- a refused cancellation: it has fired, or it is looked at once more
  unfoldable pub look_again :
      AlgoVenue F
      → String
      → ProtectiveOrder F
      → Option (Triggered F) × ProtectiveOrders F
      → Option (Triggered F) × ProtectiveOrders F
  look_again v symbol order (some t, p) = (some t, p)
  look_again v symbol order (none, p) =
      if is_some (lookup order.symbol p.live) then (none, p) else (
        none,
        (if is_working (state_of v order p) then watch symbol order (called p) else called p),
      )

  unfoldable pub cancel :
      AlgoVenue F → String → ProtectiveOrders F → Option (Triggered F) × ProtectiveOrders F
  unfolding look_again check
  cancel v symbol p = elim (lookup symbol p.live) [
    | none ↦ (none, p)
    | some order ↦
        let q = forget symbol p in
        if v.cancel_algo q.calls order.algo_id symbol
        then (none, called q)
        else look_again v symbol order (check v order (called q))
  ]

  abbrev pub report :
      String → Option (Triggered F) × ProtectiveOrders F → List (Triggered F) × ProtectiveOrders F
  report symbol (none, p) = ([], p)
  report symbol (some t, p) = (t ∷ [], forget symbol p)

  -- one order of `poll`
  unfoldable pub poll_one :
      AlgoVenue F
      → String
      → ProtectiveOrder F
      → ProtectiveOrders F
      → List (Triggered F) × ProtectiveOrders F
  unfolding check
  poll_one v symbol order p =
      let state = state_of v order p in
      if state == "effective"
      then report symbol (check v order (called p))
      else if is_dead state
      then ([], forget symbol (called p))
      else ([], called p)

  unfoldable pub poll_each :
      AlgoVenue F
      → List (String × ProtectiveOrder F)
      → ProtectiveOrders F
      → List (Triggered F) × ProtectiveOrders F
  unfolding poll_one
  poll_each v [] p = ([], p)
  poll_each v ((symbol, order) ∷ rest) p =
      let one = poll_one v symbol order p in
      let others = poll_each v rest one.1 in (one.0 ++ others.0, others.1)

  unfoldable pub poll : AlgoVenue F → ProtectiveOrders F → List (Triggered F) × ProtectiveOrders F
  unfolding poll_each
  poll v p = poll_each v p.live p

  -- `_listed`: both kinds, and a list that is not available is empty
  abbrev pub listed :
      (ℕ → String → String → Option (List RawAlgo))
      → String
      → ProtectiveOrders F
      → List RawAlgo × ProtectiveOrders F
  listed fetch symbol p = (
    or_else (fetch p.calls symbol "oco") []
        ++ or_else (fetch (suc p.calls) symbol "conditional") [],
    called (called p),
  )

  abbrev pub found_order : String → RawAlgo → ProtectiveOrder F
  found_order symbol raw = record {
    algo_id = text_or raw.id "";
    symbol = symbol;
    quantity = zero_f;
    stop_loss = none;
    take_profit = none;
  }

  abbrev pub listed_first :
      Option (Triggered F) × ProtectiveOrders F → List (Triggered F) × ProtectiveOrders F
  listed_first (none, p) = ([], p)
  listed_first (some t, p) = (t ∷ [], p)

  unfoldable pub adopt_fired :
      AlgoVenue F
      → String
      → List String
      → List RawAlgo
      → ProtectiveOrders F
      → List (Triggered F) × ProtectiveOrders F
  unfolding check_answer
  adopt_fired v symbol known [] p = ([], p)
  adopt_fired v symbol known (raw ∷ rest) p =
      let passed = adopt_fired v symbol known rest p in
      let one = listed_first (check_answer v (found_order symbol raw) raw p) in
      let others = adopt_fired v symbol known rest one.1 in
      if is_news known raw then (one.0 ++ others.0, others.1) else passed

  -- The answers to the cancellations are only logged.
  abbrev pub cancel_stale : List RawAlgo → ProtectiveOrders F → ProtectiveOrders F
  cancel_stale [] p = p
  cancel_stale (raw ∷ rest) p = cancel_stale rest (if is_ours raw then called p else p)

  unfoldable pub adopt :
      AlgoVenue F
      → List String
      → List String
      → ProtectiveOrders F
      → List (Triggered F) × ProtectiveOrders F
  unfolding adopt_fired
  adopt v [] known p = ([], p)
  adopt v (symbol ∷ rest) known p =
      let closed = listed v.fetch_closed symbol p in
      let fired = adopt_fired v symbol known closed.0 closed.1 in
      let standing = listed v.fetch_open symbol fired.1 in
      let others = adopt v rest known (cancel_stale standing.0 standing.1) in
      (fired.0 ++ others.0, others.1)
