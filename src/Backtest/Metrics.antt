-- ===== src/Backtest/Metrics.antt =====
-- The metrics of src/core/backtester.py, and the drawdown of src/core/performance.py.
use smarty_trader.Prelude.{
  ℕ, ◌-◌, Bool, true, not, ◌&&◌, ◌||◌, Option, none, some, List, [], ◌∷◌, map, length, last?, ltb,
  nat_beq, if◌then◌else◌,
}
use smarty_trader.Prelude.Slices.{head?}
use smarty_trader.Float.{Float, ◌⊖◌, ◌⊗◌, ◌⊘◌, ◌<?◌, ◌≤?◌, zero_f, abs_f, max_f, sum_f}
use smarty_trader.Screener.{returns_of}

-- `math.sqrt`
pub record Roots (F : Type 0) : Type 0 where
  pub sqrt : F → F

module _ {F : Type 0} ⦃d : Float F⦄ where
  -- The peak starts below every number: `none` is minus infinity.
  abbrev pub raised_peak : Option F → F → Option F
  raised_peak none value = if value ≤? value then some value else none
  raised_peak (some peak) value = some (max_f peak value)

  abbrev pub deeper : Option F → F → F → F
  deeper none value worst = worst
  deeper (some peak) value worst =
      if zero_f <? peak then max_f worst ((peak ⊖ value) ⊘ peak) else worst

  unfoldable pub drawdown_from : Option F → F → List F → F
  drawdown_from peak worst [] = worst
  drawdown_from peak worst (value ∷ rest) =
      let next = raised_peak peak value in drawdown_from next (deeper next value worst) rest

  unfoldable pub max_drawdown : List F → F
  unfolding drawdown_from
  max_drawdown values = drawdown_from none zero_f values

  unfoldable pub max_drawdown_fraction : List F → Option F
  unfolding max_drawdown
  max_drawdown_fraction values = if ltb (length values) 2 then none else some (max_drawdown values)

  -- the time that a curve spans, in days
  abbrev pub span_days : List (ℕ × F) → F
  span_days points = elim (head? points) [
    | none ↦ zero_f
    | some first ↦ elim (last? points) [
      | none ↦ zero_f
      | some final ↦ d.of_ℕ (final.0 - first.0) ⊘ d.of_ℕ 86_400_000_000
    ]
  ]

  abbrev pub plausible : F → F → F
  plausible nominal estimate =
      if nominal ⊘ d.of_ℕ 2 ≤? estimate && estimate ≤? nominal ⊗ d.of_ℕ 2 then estimate else nominal

  -- A curve in the order of time.
  unfoldable pub estimate_periods_per_year : List (ℕ × F) → F → F
  estimate_periods_per_year points nominal =
      if ltb (length points) 10 || span_days points ≤? zero_f
      then nominal
      else plausible nominal (d.of_ℕ (length points) ⊘ (span_days points ⊘ d.decimal 36_525 2))

  -- a point that repeats its time and its value adds nothing
  abbrev pub is_new_point : Option (ℕ × F) → ℕ × F → Bool
  is_new_point none point = true
  is_new_point (some old) point =
      d.decimal 1 12 <? abs_f (point.1 ⊖ old.1) || not (nat_beq point.0 old.0)

  unfoldable pub dedupe_from : Option (ℕ × F) → List (ℕ × F) → List (ℕ × F)
  dedupe_from old [] = []
  dedupe_from old (p ∷ rest) =
      let passed = dedupe_from old rest in
      let kept = p ∷ dedupe_from (some p) rest in if is_new_point old p then kept else passed

  unfoldable pub dedupe_consecutive : List (ℕ × F) → List (ℕ × F)
  unfolding dedupe_from
  dedupe_consecutive points = dedupe_from none points

  module _ ⦃r : Roots F⦄ where
    abbrev pub sharpe_of : List F → F → F
    sharpe_of returns periods =
        let mean = sum_f returns ⊘ d.of_ℕ (length returns) in
        let var =
          sum_f (map (λ x. (x ⊖ mean) ⊗ (x ⊖ mean)) returns) ⊘ d.of_ℕ (length returns - 1) in
        let std = r.sqrt var in
        if std ≤? d.decimal 1 15 then zero_f else mean ⊘ std ⊗ r.sqrt periods

    unfoldable pub sharpe_ratio : List F → F → F
    unfolding returns_of
    sharpe_ratio values periods =
        let returns = returns_of values in
        if ltb (length values) 3 || ltb (length returns) 2
        then zero_f
        else sharpe_of returns periods
