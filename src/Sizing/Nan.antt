-- ===== src/Sizing/Nan.antt =====
-- The stop rule and the exit levels on a stop that is no number.
use smarty_trader.Prelude.{◌≡◌, refl, false, Option, none, some, arith}
use smarty_trader.Float.{Float, ◌⊖◌, ◌⊘◌, ◌<?◌, ◌≤?◌, IsOrdered, PropagatesNan}
use smarty_trader.Models.{TradeSignal, Position, PositionSide}
use smarty_trader.Risk.{RiskSettings, approve}
use smarty_trader.Sizing.{exit_level_breach, stop_hit}
use smarty_trader.Risk.Checks.{check_geometry, check_stop, check_stop_loss}

module _ {F : Type 0} ⦃d : Float F⦄ where
  -- NaN is the one float that is not `<=` itself.
  abbrev pub IsNan : F → Type 0
  IsNan x = (x ≤? x) ≡ false

  module _ (laws : IsOrdered F) (nan : PropagatesNan F) where
    open laws use {number_of_le, le_of_lt}

    not_below : (x y : F) → IsNan y → (x ≤? y) ≡ false
    not_below x y h = ground (arith, number_of_le x y)

    not_above : (x y : F) → IsNan y → (x <? y) ≡ false
    not_above x y h = ground (arith, le_of_lt x y, number_of_le x y)

    check_geometry-nan :
        (settings : RiskSettings F) (stop price : F)
        → IsNan stop
        → check_geometry settings stop none price ≡ approve
    unfolding check_geometry
    check_geometry-nan settings stop price h = ground (
      arith,
      not_below price stop h,
      not_above settings.max_stop_distance_pct ((price ⊖ stop) ⊘ price)
          (nan.div_nan (price ⊖ stop) price (nan.sub_nan price stop h)),
    )

    check_stop-nan :
        (settings : RiskSettings F) (stop : F) (price : Option F)
        → IsNan stop
        → check_stop settings (some stop) none price ≡ approve
    unfolding check_stop
    check_stop-nan settings stop none h = refl
    check_stop-nan settings stop (some price) h =
        ground (arith, check_geometry-nan settings stop price h)

    stop_hit-nan :
        (side : PositionSide) (mark stop : F) → IsNan stop → stop_hit side mark stop ≡ false
    stop_hit-nan PositionSide.long mark stop h = not_below mark stop h
    stop_hit-nan PositionSide.short mark stop h = ground (arith, number_of_le stop mark)

    -- A BUY with a stop that is NaN and without a target passes the stop rule at every price, known or
    -- not, and no mark ever closes a position that carries that stop alone, on either side.
    pub check_stop_loss-nan :
        (settings : RiskSettings F) (signal : TradeSignal F) (stop : F) (price : Option F)
        (p : Position F) (mark : F)
        → IsNan stop
        → signal.stop_loss ≡ some stop
        → signal.take_profit ≡ none
        → p.stop_loss ≡ some stop
        → p.take_profit ≡ none
        → (check_stop_loss settings signal price ≡ approve) × (exit_level_breach p mark ≡ none)
    unfolding check_stop_loss check_stop exit_level_breach
    check_stop_loss-nan settings signal stop price p mark h has_stop no_target held_stop no_exit = (
      ground (arith, check_stop-nan settings stop price h),
      ground (arith, stop_hit-nan p.side mark stop h),
    )
