-- ===== src/Risk/Holding.antt =====
-- What `_evaluate_exit` asks for, in terms of the positions that are held.
use smarty_trader.Prelude.{
  ℕ, ◌≡◌, refl, ap, ◌↔◌, ◌⊎◌, true, false, String, Option, List, [], ◌∷◌, map, select, All, arith,
  string_eq,
}
use smarty_trader.Prelude.Int.{ℤ, pos, negsuc, ◌+ℤ◌, leb_ℤ, ltb_ℤ}
use smarty_trader.Float.{fixed, sum, sum_f-eq-sum, ◌⊗◌, ◌<?◌, ◌≤?◌}
use smarty_trader.Models.{Action, TradeSignal, Position, PositionSide, PortfolioState, RiskVerdict}
use smarty_trader.Risk.{long_exposure, held_long, is_long}
use smarty_trader.Risk.Trackers.{RiskEngine}
use smarty_trader.Risk.Checks.{evaluate}
use smarty_trader.Risk.Gate.{evaluate_sell_iff}

-- the side of the position is the one that a SELL closes
abbrev pub IsLong : PositionSide → Type 0
IsLong PositionSide.long = Unit
IsLong PositionSide.short = ⊥

-- One of the positions is a long one of the symbol.
abbrev pub HoldsLong : String → List (Position ℤ) → Type 0
HoldsLong symbol [] = ⊥
HoldsLong symbol (p ∷ ps) = ((p.symbol ≡ symbol) × IsLong p.side) ⊎ HoldsLong symbol ps

-- The position is worth something at its mark.
abbrev pub IsValued : Position ℤ → Type 0
IsValued p = (pos 0 <? p.quantity ⊗ p.current_price) ≡ true

is_long-IsLong : (side : PositionSide) → (is_long side ≡ true) ↔ IsLong side
is_long-IsLong PositionSide.long = ground arith
is_long-IsLong PositionSide.short = ground arith

held_long_iff :
    (symbol : String) (p : Position ℤ)
    → (held_long symbol p ≡ true) ↔ ((p.symbol ≡ symbol) × IsLong p.side)
held_long_iff symbol p = ground (arith, string_eq.test_iff p.symbol symbol, is_long-IsLong p.side)

abbrev exposed : String → List (Position ℤ) → ℤ
exposed symbol ps =
    sum (map (λ (p : Position ℤ). p.quantity ⊗ p.current_price) (select (held_long symbol) ps))

more : (x y : ℤ) → ltb_ℤ (pos 0) x ≡ true → leb_ℤ (pos 0) y ≡ true → leb_ℤ (x +ℤ y) (pos 0) ≡ false
unfolding ◌+ℤ◌
more (pos a) (pos b) h k = ground arith
more (pos a) (negsuc b) h k = ground arith
more (negsuc a) y h k = ground arith

rises : (x y : ℤ) → ltb_ℤ (pos 0) x ≡ true → leb_ℤ (pos 0) y ≡ true → leb_ℤ (pos 0) (x +ℤ y) ≡ true
unfolding ◌+ℤ◌
rises (pos a) (pos b) h k = ground arith
rises (pos a) (negsuc b) h k = ground arith
rises (negsuc a) y h k = ground arith

exposed-nonneg :
    (symbol : String) (ps : List (Position ℤ))
    → All IsValued ps
    → leb_ℤ (pos 0) (exposed symbol ps) ≡ true
exposed-nonneg symbol [] h = refl
exposed-nonneg symbol (p ∷ ps) h =
    ground
      (arith, exposed-nonneg symbol ps, rises (p.quantity ⊗ p.current_price) (exposed symbol ps))

exposed-HoldsLong :
    (symbol : String) (ps : List (Position ℤ))
    → All IsValued ps
    → ((exposed symbol ps ≤? pos 0) ≡ false) ↔ HoldsLong symbol ps
exposed-HoldsLong symbol [] h = ground arith
exposed-HoldsLong symbol (p ∷ ps) h = ground (
  arith,
  exposed-nonneg symbol ps h.1,
  exposed-HoldsLong symbol ps h.1,
  held_long_iff symbol p,
  more (p.quantity ⊗ p.current_price) (exposed symbol ps),
)

-- In exact arithmetic, where each open position is worth something at its mark: a SELL is approved
-- exactly if the portfolio holds a long position of its very symbol and its confidence is not below
-- the minimum. No loss limit, drawdown, cooldown, size or stop holds it back, and the engine stays
-- as it was.
pub evaluate_sell-HoldsLong :
    (now later : ℕ) (signal : TradeSignal ℤ) (s : PortfolioState ℤ) (planned price : Option ℤ)
    (e : RiskEngine ℤ)
    → signal.action ≡ Action.sell
    → All IsValued s.positions
    → (((evaluate now later signal s planned price e).0.verdict ≡ RiskVerdict.approved) ↔ (
        HoldsLong signal.symbol s.positions
        × ((signal.confidence <? e.settings.min_confidence) ≡ false)))
      × ((evaluate now later signal s planned price e).1 ≡ e)
unfolding long_exposure
evaluate_sell-HoldsLong now later signal s planned price e sell valued =
    let exposure : long_exposure s signal.symbol ≡ exposed signal.symbol s.positions =
      sum_f-eq-sum (
        map (λ (p : Position ℤ). p.quantity ⊗ p.current_price)
          (select (held_long signal.symbol) s.positions)) in
    ground (
      arith,
      evaluate_sell_iff now later signal s planned price e sell,
      exposed-HoldsLong signal.symbol s.positions valued,
      ap (λ x. leb_ℤ x (pos 0)) exposure,
    )
