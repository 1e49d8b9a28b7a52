-- ===== src/Baselines/Windows.antt =====
-- The crossover's sliding sums against the sums of the windows themselves (exact sums).
use smarty_trader.Prelude.{
  ℕ, zero, suc, ◌+◌, ◌-◌, ◌≤◌, ◌<◌, ◌≡◌, refl, sym, ap, ◌∙◌, Bool, true, false, ◌&&◌, List, [], ◌∷◌,
  length, leb, ltb, if◌then◌else◌, arith, ◌⊎◌, inl, inr,
}
use smarty_trader.Prelude.Int.{ℤ, pos, ◌+ℤ◌, ◌-ℤ◌, int_laws, parts_of_eq}
use smarty_trader.Prelude.Slices.{take, drop}
use smarty_trader.Float.{fixed, sum, sum_f, sum_f-eq-sum, one_f}
use smarty_trader.Models.{Ohlcv}
use smarty_trader.Baselines.{
  Baseline, closes_of, at, slid, trade_bar, crossover_loop, cashed, ma_crossover_return,
}

-- the closes that end at bar i
abbrev pub window : List ℤ → ℕ → ℕ → List ℤ
window closes i width = take width (drop (suc i - width) closes)

-- the crossover as it is described: each bar decides on the means of its own windows
pub windowed_loop : List ℤ → ℕ → ℕ → ℤ → ℕ → ℕ → ℤ → Bool → ℤ × Bool
windowed_loop closes fast slow cost zero i equity invested = (equity, invested)
windowed_loop closes fast slow cost (suc n) i equity invested =
    let (e, w) =
      trade_bar closes fast slow cost i (sum_f (window closes i fast))
        (sum_f (window closes i slow)) equity invested in
    windowed_loop closes fast slow cost n (suc i) e w

zero_add : (a : ℤ) → pos 0 +ℤ a ≡ a
zero_add a = omega int_laws

assoc : (a b c : ℤ) → a +ℤ b +ℤ c ≡ a +ℤ (b +ℤ c)
assoc a b c = omega int_laws

cancel_to : (w p q : ℤ) → w +ℤ p ≡ q → w ≡ q -ℤ p
cancel_to w p q h = omega (int_laws, parts_of_eq h)

restored : (n width : ℕ) → width ≤ n → (n - width) + width ≡ n
restored n width h = omega (arith, h)

next_start : (i width : ℕ) → width ≤ suc i → suc (suc i - width) ≡ suc (suc i) - width
next_start i width h = omega (arith, h)

not_yet : (slow i : ℕ) → suc i ≡ slow → leb slow i ≡ false
not_yet slow i h = ground arith

from_now : (slow i : ℕ) → slow ≤ i → leb slow i ≡ true
from_now slow i h = ground arith

-- the sum of the first n closes
abbrev prefix : ℕ → List ℤ → ℤ
prefix n xs = sum (take n xs)

prefix-nil : (n : ℕ) → prefix n [] ≡ pos 0
prefix-nil zero = refl
prefix-nil (suc n) = refl

-- one more close
prefix-suc : (n : ℕ) (xs : List ℤ) → prefix (suc n) xs ≡ prefix n xs +ℤ at n xs
prefix-suc n [] = sym (ap (λ s. s +ℤ pos 0) (prefix-nil n) ∙ zero_add (pos 0))
prefix-suc zero (x ∷ xs) = omega int_laws
prefix-suc (suc n) (x ∷ xs) =
    ap (λ s. x +ℤ s) (prefix-suc n xs) ∙ sym (assoc x (prefix n xs) (at n xs))

swap_in : (w x p : ℤ) → w +ℤ (x +ℤ p) ≡ x +ℤ (w +ℤ p)
swap_in w x p = omega int_laws

add_zero : (a : ℤ) → a +ℤ pos 0 ≡ a
add_zero a = omega int_laws

zero_plus : (k : ℕ) → k ≡ 0 + k
zero_plus k = omega arith

suc_plus : (j k : ℕ) → suc (j + k) ≡ suc j + k
suc_plus j k = omega arith

-- a window is what the first closes have more than those before it
sum-window : (j k : ℕ) (xs : List ℤ) → sum (take k (drop j xs)) +ℤ prefix j xs ≡ prefix (j + k) xs
sum-window zero k xs = add_zero (prefix k xs) ∙ ap (λ n. prefix n xs) (zero_plus k)
sum-window (suc j) k [] = add_zero (prefix k []) ∙ prefix-nil k ∙ sym (prefix-nil (suc j + k))
sum-window (suc j) k (x ∷ xs) =
    swap_in (sum (take k (drop j xs))) x (prefix j xs)
    ∙ ap (λ s. x +ℤ s) (sum-window j k xs)
    ∙ ap (λ n. prefix n (x ∷ xs)) (suc_plus j k)

-- for a window that fits below bar i
window-prefixes :
    (closes : List ℤ) (i width : ℕ)
    → width ≤ suc i
    → sum (window closes i width) ≡ prefix (suc i) closes -ℤ prefix (suc i - width) closes
window-prefixes closes i width h =
    cancel_to _ _ _ (
      sum-window (suc i - width) width closes
      ∙ ap (λ n. prefix n closes) (restored (suc i) width h))

shifted : (p q x y : ℤ) → (p -ℤ q) +ℤ (x -ℤ y) ≡ (p +ℤ x) -ℤ (q +ℤ y)
shifted p q x y = omega int_laws

-- Sliding a window by one bar is adding the new close and taking the oldest away.
window-slides :
    (closes : List ℤ) (i width : ℕ)
    → width ≤ suc i
    → 1 ≤ width
    → sum (window closes i width) +ℤ (at (suc i) closes -ℤ at (suc i - width) closes)
      ≡ sum (window closes (suc i) width)
window-slides closes i width h k =
    ap (λ s. s +ℤ (at (suc i) closes -ℤ at (suc i - width) closes))
      (window-prefixes closes i width h)
    ∙ shifted (prefix (suc i) closes) (prefix (suc i - width) closes) (at (suc i) closes)
        (at (suc i - width) closes)
    ∙ (λ t. sym (prefix-suc (suc i) closes) t -ℤ sym (prefix-suc (suc i - width) closes) t)
    ∙ ap (λ n. prefix (suc (suc i)) closes -ℤ prefix n closes) (next_start i width h)
    ∙ sym (window-prefixes closes (suc i) width (omega (arith, h)))

-- what the loop carries into bar i for a window
IsCarried : List ℤ → ℕ → ℕ → ℕ → ℤ → Type 0
IsCarried closes slow i width total =
    ((suc i ≡ slow) × (total ≡ sum (window closes i width)))
    ⊎ ((j : ℕ) × (i ≡ suc j) × (slow ≤ i) × (total ≡ sum (window closes j width)))

slid-window :
    (closes : List ℤ) (slow i width : ℕ) (total : ℤ)
    → 1 ≤ width
    → width ≤ slow
    → IsCarried closes slow i width total
    → slid closes slow i width total ≡ sum (window closes i width)
unfolding IsCarried
slid-window closes slow i width total low high (inl (e, t)) =
    ap (λ b. if b then total +ℤ (at i closes -ℤ at (i - width) closes) else total)
      (not_yet slow i e)
    ∙ t
slid-window closes slow i width total low high (inr (j, e, h, t)) =
    ap (λ b. if b then total +ℤ (at i closes -ℤ at (i - width) closes) else total)
      (from_now slow i h)
    ∙ (λ k. t k +ℤ (at (e k) closes -ℤ at (e k - width) closes))
    ∙ window-slides closes j width (omega (arith, e, h, high)) low
    ∙ ap (λ n. sum (window closes n width)) (sym e)

carried_on :
    (closes : List ℤ) (slow i width : ℕ) (total : ℤ)
    → IsCarried closes slow i width total
    → slow ≤ suc i
unfolding IsCarried
carried_on closes slow i width total (inl (e, t)) = omega (arith, e)
carried_on closes slow i width total (inr (j, e, h, t)) = omega (arith, h)

crossover_loop-windowed :
    (closes : List ℤ) (fast slow : ℕ) (cost : ℤ) (n i : ℕ) (fast_sum slow_sum equity : ℤ)
    (invested : Bool)
    → 1 ≤ fast
    → fast < slow
    → IsCarried closes slow i fast fast_sum
    → IsCarried closes slow i slow slow_sum
    → crossover_loop closes fast slow cost n i fast_sum slow_sum equity invested
      ≡ windowed_loop closes fast slow cost n i equity invested
unfolding crossover_loop windowed_loop IsCarried
crossover_loop-windowed closes fast slow cost zero i fast_sum slow_sum equity invested low lt f g =
    refl
crossover_loop-windowed closes fast slow cost (suc n) i fast_sum slow_sum equity invested low lt f
      g =
    let p = slid-window closes slow i fast fast_sum low (omega (arith, lt)) f in
    let q = slid-window closes slow i slow slow_sum (omega (arith, low, lt)) (omega arith) g in
    let later = carried_on closes slow i fast fast_sum f in
    let bar = λ (a b : ℤ). trade_bar closes fast slow cost i a b equity invested in
    let fast_next = slid closes slow i fast fast_sum in
    let slow_next = slid closes slow i slow slow_sum in
    crossover_loop-windowed closes fast slow cost n (suc i) fast_next slow_next
      (bar fast_next slow_next).0 (bar fast_next slow_next).1 low lt (inr (i, refl, later, p))
      (inr (i, refl, later, q))
    ∙ (λ t.
        let summed =
          bar ((p ∙ sym (sum_f-eq-sum (window closes i fast))) t)
            ((q ∙ sym (sum_f-eq-sum (window closes i slow))) t) in
        windowed_loop closes fast slow cost n (suc i) summed.0 summed.1)

same_then :
    {A : Type 0} (b : Bool) {x x' : A} (y : A)
    → (b ≡ true → x ≡ x')
    → (if b then x else y) ≡ (if b then x' else y)
same_then true y h = h refl
same_then false y h = refl

same_else :
    {A : Type 0} (b : Bool) (x : A) {y y' : A}
    → y ≡ y'
    → (if b then x else y) ≡ (if b then x else y')
same_else true x h = refl
same_else false x h = h

before_slow : (slow : ℕ) → 1 ≤ slow → suc (slow - 1) ≡ slow
before_slow slow h = omega (arith, h)

nothing_dropped : (slow : ℕ) → 1 ≤ slow → suc (slow - 1) - slow ≡ 0
nothing_dropped slow h = omega (arith, h)

started :
    (closes : List ℤ) (fast slow : ℕ) (cost : ℤ) (n : ℕ)
    → 1 ≤ fast
    → fast < slow
    → crossover_loop closes fast slow cost n
        (slow - 1)
        (sum_f (take fast (drop (slow - fast) closes)))
        (sum_f (take slow closes))
        one_f
        false
      ≡ windowed_loop closes fast slow cost n (slow - 1) one_f false
unfolding IsCarried
started closes fast slow cost n low lt =
    let last = before_slow slow (omega (arith, lt)) in
    crossover_loop-windowed closes fast slow cost n (slow - 1) _ _ one_f false low lt
      (inl (
        last,
        sum_f-eq-sum (take fast (drop (slow - fast) closes))
            ∙ ap (λ m. sum (take fast (drop (m - fast) closes))) (sym last),
      ))
      (inl (
        last,
        sum_f-eq-sum (take slow closes)
            ∙ ap (λ m. sum (take slow (drop m closes)))
                (sym (nothing_dropped slow (omega (arith, lt)))),
      ))

-- the crossover as it is described, with the guards of the code
pub described_return : List (Ohlcv ℤ) → ℕ → ℕ → ℤ → Baseline ℤ
described_return candles fast slow cost =
    let closes = closes_of candles in
    if leb 1 fast && ltb fast slow
    then (if ltb (length closes) (slow + 1)
        then Baseline.too_short
        else Baseline.earned (
            cashed cost
              (windowed_loop closes fast slow cost (length closes - slow) (slow - 1) one_f false)))
    else Baseline.bad_windows

-- Where sums are exact, the crossover that slides its two sums along earns exactly what the one
-- that forms both means anew at each bar earns, for all candles, windows and costs.
pub ma_crossover_return-described :
    (candles : List (Ohlcv ℤ)) (fast slow : ℕ) (cost : ℤ)
    → ma_crossover_return candles fast slow cost ≡ described_return candles fast slow cost
unfolding ma_crossover_return described_return
ma_crossover_return-described candles fast slow cost =
    let closes = closes_of candles in
    same_then (leb 1 fast && ltb fast slow) Baseline.bad_windows λ ok.
      same_else (ltb (length closes) (slow + 1)) Baseline.too_short (
        ap (λ r. Baseline.earned (cashed cost r))
          (started closes fast slow cost (length closes - slow) (ground arith) (ground arith)))
