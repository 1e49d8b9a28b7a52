-- ===== src/Rehydration.antt =====
-- src/core/rehydration.py: what a restart gives back to the risk engine and the executors, from the
-- stored orders. Where the code logs an exception and goes on, a read is none.
use text.Mathlib.Text.{starts_with}
use smarty_trader.Prelude.{
  ℕ, zero, suc, ◌+◌, Bool, true, false, not, ◌&&◌, ◌||◌, String, Option, none, some, List, [], ◌∷◌,
  map, select, leb, nat_beq, is_some, or_else, nat_eq, string_eq, ◌==◌, if◌then◌else◌,
}
use smarty_trader.Prelude.Dict.{Dict, lookup, get_or, insert}
use smarty_trader.Prelude.Keys.{member}
use smarty_trader.Prelude.Slices.{take}
use smarty_trader.Float.{Float, ◌<?◌, zero_f}
use smarty_trader.Models.{Position, OrderSide}
use smarty_trader.Tracker.Booking.{FillRecord, FillSide, ExitLevels}
use smarty_trader.Paper.{PaperExecutor, load_portfolio_state}
use smarty_trader.Risk.Trackers.{RiskEngine, minutes, restore_loss_streak, restore_daily_baseline}
pub mod Streak
mod Tests

-- a row of the orders' table, as far as a restart reads it
pub record StoredOrder (F : Type 0) : Type 0 where
  pub order_id : String
  pub symbol : String
  pub side : FillSide
  pub quantity : F
  pub price : Option F
  pub decision_id : Option ℕ
  pub fee_base : Option F
  pub fee_quote : Option F
  pub realized_pnl : F
  pub filled_at : Option ℕ
  pub created_at : Option ℕ

-- the latest snapshot of the portfolio
pub record SnapshotRow (F : Type 0) : Type 0 where
  pub cash : F
  pub positions : List (Position F)

pub record PendingOrderRecord (F : Type 0) : Type 0 where
  pub order_id : String
  pub symbol : String
  pub side : OrderSide
  pub quantity : F
  pub decision_id : Option ℕ
  pub stop_loss : Option F
  pub take_profit : Option F
  pub placed_at : Option ℕ
  pub price : Option F

-- `_is_paper_order`
unfoldable pub is_paper_order : String → Bool
is_paper_order order_id = starts_with order_id "paper-"

abbrev pub is_buy_side : FillSide → Bool
is_buy_side FillSide.buy = true
is_buy_side FillSide.sell = false
is_buy_side FillSide.other = false

-- `OrderSide(o.side)`, or none where it raises
abbrev pub order_side : FillSide → Option OrderSide
order_side FillSide.buy = some OrderSide.buy
order_side FillSide.sell = some OrderSide.sell
order_side FillSide.other = none

abbrev pub cooldown_of : ℕ → ℕ → ℕ → Option ℕ → Option ℕ
cooldown_of threshold pause streak none = none
cooldown_of threshold pause streak (some newest) =
    if leb threshold streak then some (newest + minutes pause) else none

module _ {F : Type 0} ⦃d : Float F⦄ where
  -- the fills of a paper account: those with a price
  unfoldable pub paper_fills : List (StoredOrder F) → List (FillRecord F)
  paper_fills [] = []
  paper_fills (o ∷ rest) = elim o.price [
    | none ↦ paper_fills rest
    | some price ↦
        record {
          symbol = o.symbol;
          side = o.side;
          quantity = o.quantity;
          price = price;
          decision_id = o.decision_id;
          stop_loss = none;
          take_profit = none;
          fee_base = zero_f;
          fee_quote = zero_f;
          order_id = none;
        }
        ∷ paper_fills rest
  ]

  -- `rehydrate_paper_executor`: `snapshot` is none where there is none or the read raises, and
  -- `orders` is none where the history cannot be read
  unfoldable pub rehydrate_paper_executor :
      Option (SnapshotRow F) → Option (List (StoredOrder F)) → PaperExecutor F → PaperExecutor F
  unfolding paper_fills
  rehydrate_paper_executor none orders ex = ex
  rehydrate_paper_executor (some row) orders ex =
      (load_portfolio_state row.cash row.positions (paper_fills (or_else orders [])) ex).2

  -- The decision of each symbol's latest buy.
  unfoldable pub last_buys : List (StoredOrder F) → Dict String ℕ → Dict String ℕ
  last_buys [] found = found
  last_buys (o ∷ rest) found =
      let kept = last_buys rest found in
      let noted = λ (i : ℕ). last_buys rest (insert o.symbol i found) in
      elim o.decision_id [ none ↦ kept | some i ↦ if is_buy_side o.side then noted i else kept ]

  abbrev pub no_levels : ExitLevels F
  no_levels = (none, none)

  -- `levels.get(o.decision_id or -1, (None, None))`, of the levels that were asked for
  unfoldable pub levels_of : Dict ℕ (ExitLevels F) → List ℕ → Option ℕ → ExitLevels F
  levels_of stored asked none = no_levels
  levels_of stored asked (some zero) = no_levels
  levels_of stored asked (some (suc i)) =
      if member (suc i) asked then get_or (suc i) no_levels stored else no_levels

  unfoldable pub venue_fill : Dict ℕ (ExitLevels F) → List ℕ → F → StoredOrder F → FillRecord F
  unfolding levels_of
  venue_fill stored asked price o =
      let levels = if is_buy_side o.side then levels_of stored asked o.decision_id else no_levels in
      record {
        symbol = o.symbol;
        side = o.side;
        quantity = o.quantity;
        price = price;
        decision_id = o.decision_id;
        stop_loss = levels.0;
        take_profit = levels.1;
        fee_base = or_else o.fee_base zero_f;
        fee_quote = or_else o.fee_quote zero_f;
        order_id = some o.order_id;
      }

  -- the filled orders that happened at the venue
  unfoldable pub is_venue_fill : StoredOrder F → Bool
  unfolding is_paper_order
  is_venue_fill o = is_some o.price && not (is_paper_order o.order_id)

  abbrev pub fills_of : Dict ℕ (ExitLevels F) → List ℕ → List (StoredOrder F) → List (FillRecord F)
  fills_of stored asked [] = []
  fills_of stored asked (o ∷ rest) = elim o.price [
    | none ↦ fills_of stored asked rest
    | some price ↦ venue_fill stored asked price o ∷ fills_of stored asked rest
  ]

  -- the fills that `rehydrate_venue_executor` hands to `load_fills`
  unfoldable pub venue_fills : Dict ℕ (ExitLevels F) → List (StoredOrder F) → List (FillRecord F)
  unfolding is_venue_fill venue_fill last_buys
  venue_fills stored orders =
      let rows = select is_venue_fill orders in
      fills_of stored (map (λ (b : String × ℕ). b.1) (last_buys rows [])) rows

  unfoldable pub is_venue_pending : StoredOrder F → Bool
  unfolding is_paper_order
  is_venue_pending o = not (o.order_id == "") && not (is_paper_order o.order_id)

  abbrev pub ids_of : List (StoredOrder F) → List ℕ
  ids_of [] = []
  ids_of (o ∷ rest) = elim o.decision_id [ none ↦ ids_of rest | some i ↦ i ∷ ids_of rest ]

  abbrev pub pending_of :
      Dict ℕ (ExitLevels F) → List ℕ → OrderSide → StoredOrder F → PendingOrderRecord F
  pending_of stored asked side o =
      let levels = levels_of stored asked o.decision_id in
      record {
        order_id = o.order_id;
        symbol = o.symbol;
        side = side;
        quantity = o.quantity;
        decision_id = o.decision_id;
        stop_loss = levels.0;
        take_profit = levels.1;
        placed_at = o.created_at;
        price = o.price;
      }

  -- One row of an unknown side fails them all.
  unfoldable pub pending_each :
      Dict ℕ (ExitLevels F) → List ℕ → List (StoredOrder F) → Option (List (PendingOrderRecord F))
  unfolding levels_of
  pending_each stored asked [] = some []
  pending_each stored asked (o ∷ rest) = elim (order_side o.side) [
    | none ↦ none
    | some side ↦ elim (pending_each stored asked rest) [
      | none ↦ none
      | some others ↦ some (pending_of stored asked side o ∷ others)
    ]
  ]

  -- the records that `rehydrate_venue_executor` hands to `load_pending_orders`
  unfoldable pub venue_pending :
      Dict ℕ (ExitLevels F) → List (StoredOrder F) → List (PendingOrderRecord F)
  unfolding is_venue_pending pending_each
  venue_pending stored orders =
      let rows = select is_venue_pending orders in
      or_else (pending_each stored (ids_of rows) rows) []

  -- `rehydrate_loss_streak`: the outcomes of closing fills, newest first
  unfoldable pub outcome_of : StoredOrder F → F × Option ℕ
  outcome_of o = (o.realized_pnl, if is_some o.filled_at then o.filled_at else o.created_at)

  -- the loop: the losses before the first other outcome, and the first time known among them
  unfoldable pub trailing_losses : List (F × Option ℕ) → ℕ → Option ℕ → ℕ × Option ℕ
  trailing_losses [] streak newest = (streak, newest)
  trailing_losses ((pnl, at) ∷ rest) streak newest =
      let longer = trailing_losses rest (suc streak) (if is_some newest then newest else at) in
      if pnl <? zero_f then longer else (streak, newest)

  unfoldable pub rehydrate_loss_streak : Option (List (StoredOrder F)) → RiskEngine F → RiskEngine F
  unfolding outcome_of trailing_losses
  rehydrate_loss_streak none e = e
  rehydrate_loss_streak (some fills) e =
      let (streak, newest) = trailing_losses (map outcome_of (take 50 fills)) 0 none in
      let cooldown =
        cooldown_of e.settings.consecutive_losses_threshold
          e.settings.consecutive_losses_cooldown_minutes streak newest in
      if leb 1 streak || is_some cooldown then restore_loss_streak streak cooldown e else e

  -- `rehydrate_risk_engine`: `first_today` is the total value of today's first snapshot
  unfoldable pub rehydrate_risk_engine :
      ℕ → Option F → Option (List (StoredOrder F)) → RiskEngine F → RiskEngine F
  unfolding rehydrate_loss_streak
  rehydrate_risk_engine now none fills e = rehydrate_loss_streak fills e
  rehydrate_risk_engine now (some value) fills e =
      rehydrate_loss_streak fills (restore_daily_baseline now value e)
