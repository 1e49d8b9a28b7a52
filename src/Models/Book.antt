-- ===== src/Models/Book.antt =====
-- src/core/models.py: positions and the portfolio, with their derived values.
use smarty_trader.Prelude.{String, Option, List, map, if◌then◌else◌}
use smarty_trader.Float.{Float, ◌⊕◌, ◌⊖◌, ◌⊗◌, ◌⊘◌, ◌=?◌, zero_f, one_f, sum_f}

pub data PositionSide : Type 0 where
  long short : PositionSide

pub record Position (F : Type 0) : Type 0 where
  pub symbol : String
  pub quantity : F
  pub avg_entry_price : F
  pub current_price : F
  pub side : PositionSide
  pub stop_loss : Option F
  pub take_profit : Option F

pub record PortfolioState (F : Type 0) : Type 0 where
  pub cash : F
  pub positions : List (Position F)
  pub pending_value : F

module _ {F : Type 0} ⦃d : Float F⦄ where
  -- `Position._direction`, also written out as a factor where the code sums market values
  unfoldable pub direction : PositionSide → F
  direction PositionSide.short = d.neg one_f
  direction PositionSide.long = one_f

  unfoldable pub pnl : Position F → F
  pnl p = (p.current_price ⊖ p.avg_entry_price) ⊗ p.quantity ⊗ direction p.side

  unfoldable pub pnl_pct : Position F → F
  pnl_pct p =
      if p.avg_entry_price =? zero_f
      then zero_f
      else (p.current_price ⊖ p.avg_entry_price) ⊘ p.avg_entry_price ⊗ direction p.side

  unfoldable pub market_value : Position F → F
  market_value p = p.quantity ⊗ p.current_price ⊗ direction p.side

  unfoldable pub total_value : PortfolioState F → F
  total_value s = s.cash ⊕ s.pending_value ⊕ sum_f (map market_value s.positions)

  unfoldable pub unrealized_pnl : PortfolioState F → F
  unrealized_pnl s = sum_f (map pnl s.positions)
