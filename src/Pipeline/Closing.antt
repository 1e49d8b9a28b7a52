-- ===== src/Pipeline/Closing.antt =====
-- The order that closes a position, spelled out: all of it, on the other side, and for no decision;
-- and which positions are open.
use mathlib.Core.Path.{◌≡◌, refl}
use mathlib.Core.Option.{none, some}
use Prim.Native.String.{String}
use native.Mathlib.Omega.{arith}
use smarty_trader.Prelude.{true, string_eq}
use smarty_trader.Float.{Float, ◌<?◌, zero_f}
use smarty_trader.Models.{OrderSide, Position, PositionSide}
use smarty_trader.Paper.{OrderRequest}
use smarty_trader.Sizing.{closing_side}
use smarty_trader.Pipeline.Exits.{exit_order, is_open}

abbrev pub opposite : PositionSide → OrderSide
opposite PositionSide.long = OrderSide.sell
opposite PositionSide.short = OrderSide.buy

pub closing_side-opposite : (side : PositionSide) → closing_side side ≡ opposite side
unfolding closing_side
closing_side-opposite PositionSide.long = refl
closing_side-opposite PositionSide.short = refl

module _ {F : Type 0} ⦃d : Float F⦄ where
  abbrev pub closing_order : String → Position F → F → OrderRequest F
  closing_order symbol p mark = record {
    symbol = symbol;
    side = opposite p.side;
    quantity = p.quantity;
    price = some mark;
    decision_id = none;
    stop_loss = none;
    take_profit = none;
  }

  pub exit_order-closing_order :
      (symbol : String) (p : Position F) (mark : F)
      → exit_order symbol p mark ≡ closing_order symbol p mark
  unfolding exit_order
  exit_order-closing_order symbol p mark = λ i. record {
    symbol = symbol;
    side = closing_side-opposite p.side i;
    quantity = p.quantity;
    price = some mark;
    decision_id = none;
    stop_loss = none;
    take_profit = none;
  }

  pub is_open-parts :
      (symbol : String) (x : Position F)
      → is_open symbol x ≡ true
      → (x.symbol ≡ symbol) × ((zero_f <? x.quantity) ≡ true)
  is_open-parts symbol x h = ground (arith, h, string_eq.test_iff x.symbol symbol)
