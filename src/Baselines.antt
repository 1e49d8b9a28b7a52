-- ===== src/Baselines.antt =====
-- src/analysis/baselines.py: buy and hold, the moving-average crossover, and the best of them.
use smarty_trader.Prelude.{
  ℕ, zero, suc, ◌+◌, ◌-◌, Bool, true, false, not, ◌&&◌, ◌||◌, String, Option, none, some, List, [],
  ◌∷◌, map, length, last?, leb, ltb, if◌then◌else◌,
}
use smarty_trader.Prelude.Slices.{take, drop, head?}
use smarty_trader.Float.{Float, ◌⊕◌, ◌⊖◌, ◌⊗◌, ◌⊘◌, ◌<?◌, zero_f, one_f, sum_f}
use smarty_trader.Models.{Ohlcv}
pub mod Windows
pub mod Best
mod Tests

-- `ValueError`, too little data, or a return
pub data Baseline (F : Type 0) : Type 0 where
  bad_windows too_short : Baseline F
  earned : F → Baseline F

abbrev pub same : Bool → Bool → Bool
same true b = b
same false b = not b

module _ {F : Type 0} ⦃d : Float F⦄ where
  unfoldable pub closes_of : List (Ohlcv F) → List F
  closes_of [] = []
  closes_of (c ∷ rest) =
      let others = closes_of rest in if zero_f <? c.close then c.close ∷ others else others

  -- from the first and the last close
  abbrev pub held_return : F → Option F → Option F → Option F
  held_return cost none latest = none
  held_return cost (some entry) none = none
  held_return cost (some entry) (some exit) =
      some (exit ⊘ entry ⊗ ((one_f ⊖ cost) ⊗ (one_f ⊖ cost)) ⊖ one_f)

  unfoldable pub buy_and_hold_return : List (Ohlcv F) → F → Option F
  unfolding closes_of
  buy_and_hold_return candles cost =
      let closes = closes_of candles in
      if ltb (length closes) 2 then none else held_return cost (head? closes) (last? closes)

  -- `closes[i]`; the loop reads only what is there
  abbrev pub at : ℕ → List F → F
  at i [] = zero_f
  at zero (x ∷ xs) = x
  at (suc i) (x ∷ xs) = at i xs

  -- `fast_sum += closes[i] - closes[i - fast]`, from bar `slow` on
  abbrev pub slid : List F → ℕ → ℕ → ℕ → F → F
  slid closes slow i width total =
      if leb slow i then total ⊕ (at i closes ⊖ at (i - width) closes) else total

  -- the decision and the return of bar i, from the two sums
  unfoldable pub trade_bar : List F → ℕ → ℕ → F → ℕ → F → F → F → Bool → F × Bool
  trade_bar closes fast slow cost i fast_sum slow_sum equity invested =
      let want = slow_sum ⊘ d.of_ℕ slow <? fast_sum ⊘ d.of_ℕ fast in
      let paid = if same want invested then equity else equity ⊗ (one_f ⊖ cost) in
      (if want then paid ⊗ (at (suc i) closes ⊘ at i closes) else paid, want)

  -- `n` bars from bar i on
  unfoldable pub crossover_loop : List F → ℕ → ℕ → F → ℕ → ℕ → F → F → F → Bool → F × Bool
  unfolding trade_bar
  crossover_loop closes fast slow cost zero i fast_sum slow_sum equity invested = (equity, invested)
  crossover_loop closes fast slow cost (suc n) i fast_sum slow_sum equity invested =
      let fast_next = slid closes slow i fast fast_sum in
      let slow_next = slid closes slow i slow slow_sum in
      let (e, w) = trade_bar closes fast slow cost i fast_next slow_next equity invested in
      crossover_loop closes fast slow cost n (suc i) fast_next slow_next e w

  -- the final exit back to cash
  abbrev pub cashed : F → F × Bool → F
  cashed cost (equity, true) = equity ⊗ (one_f ⊖ cost) ⊖ one_f
  cashed cost (equity, false) = equity ⊖ one_f

  unfoldable pub ma_crossover_return : List (Ohlcv F) → ℕ → ℕ → F → Baseline F
  unfolding closes_of crossover_loop
  ma_crossover_return candles fast slow cost =
      let closes = closes_of candles in
      if leb 1 fast && ltb fast slow
      then (if ltb (length closes) (slow + 1)
          then Baseline.too_short
          else Baseline.earned (
              cashed cost (
                crossover_loop closes fast slow cost (length closes - slow) (slow - 1)
                  (sum_f (take fast (drop (slow - fast) closes))) (sum_f (take slow closes)) one_f
                  false)))
      else Baseline.bad_windows

  abbrev pub usable : List (Option F) → List F
  usable [] = []
  usable (none ∷ rest) = usable rest
  usable (some x ∷ rest) = x ∷ usable rest

  unfoldable pub equal_weight : List (Option F) → Option F
  equal_weight returns = elim (usable returns) [
    | [] ↦ none
    | x ∷ xs ↦ some (sum_f (x ∷ xs) ⊘ d.of_ℕ (length (x ∷ xs)))
  ]

  abbrev pub result_of : Baseline F → Option F
  result_of Baseline.bad_windows = none
  result_of Baseline.too_short = none
  result_of (Baseline.earned x) = some x

  -- `baseline_returns`, over the candles of each symbol
  unfoldable pub baseline_returns : List (List (Ohlcv F)) → F → List (String × Option F)
  unfolding equal_weight buy_and_hold_return ma_crossover_return
  baseline_returns series cost =
      ("buy_and_hold", equal_weight (map (λ c. buy_and_hold_return c cost) series))
      ∷ (
        "ma_crossover_20_50",
        equal_weight (map (λ c. result_of (ma_crossover_return c 20 50 cost)) series),
      )
      ∷ ("cash", some zero_f)
      ∷ []

  abbrev pub named_returns : List (String × Option F) → List (String × F)
  named_returns [] = []
  named_returns ((name, none) ∷ rest) = named_returns rest
  named_returns ((name, some x) ∷ rest) = (name, x) ∷ named_returns rest

  -- Python's `max` keeps the first of equal values.
  abbrev pub best_from : String × F → List (String × F) → String × F
  best_from best [] = best
  best_from best (x ∷ rest) = best_from (if best.1 <? x.1 then x else best) rest

  abbrev pub best_of : List (String × F) → Option (String × F)
  best_of [] = none
  best_of (x ∷ rest) = some (best_from x rest)

  unfoldable pub best_baseline : List (String × Option F) → Option (String × F)
  best_baseline baselines = best_of (named_returns baselines)
