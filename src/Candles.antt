-- ===== src/Candles.antt =====
-- src/analysis/candles.py: the length of a timeframe, the bar that is still forming and the time at
-- which a bar closes. A time is a number of microseconds; `\d` and `strip` are those of ASCII.
use Prim.Native.Char.{Char, code}
use Prim.Native.String.{[] as empty, ◌∷◌ as ◌∷ₛ◌}
use smarty_trader.Prelude.{
  ℕ, ◌+◌, ◌-◌, ◌*◌, Bool, true, ◌&&◌, ◌||◌, String, Option, none, some, List, last?, leb, ltb,
  nat_beq, if◌then◌else◌,
}
use smarty_trader.Prelude.Slices.{but_last}
use smarty_trader.Models.{Ohlcv}

abbrev pub is_digit : Char → Bool
is_digit c = leb 48 (code c) && leb (code c) 57

abbrev pub is_space : Char → Bool
is_space c = nat_beq (code c) 32 || (leb 9 (code c) && leb (code c) 13)

-- `_UNIT_SECONDS`
abbrev pub unit_seconds : Char → Option ℕ
unit_seconds c =
    if nat_beq (code c) 109
    then some 60
    else if nat_beq (code c) 104
    then some 3_600
    else if nat_beq (code c) 100
    then some 86_400
    else if nat_beq (code c) 119
    then some 604_800
    else none

abbrev pub is_blank : String → Bool
is_blank empty = true
is_blank (c ∷ₛ s) = is_space c && is_blank s

abbrev pub bar_seconds : ℕ → Option ℕ → Option ℕ
bar_seconds count none = none
bar_seconds count (some unit) = if leb count 0 then none else some (count * unit * 1_000_000)

-- after at least one digit: more digits, or the unit at the end
abbrev pub after_digits : ℕ → String → Option ℕ
after_digits count empty = none
after_digits count (c ∷ₛ s) =
    let more = after_digits (count * 10 + (code c - 48)) s in
    if is_digit c then more else if is_blank s then bar_seconds count (unit_seconds c) else none

unfoldable pub timeframe_delta : String → Option ℕ
timeframe_delta empty = none
timeframe_delta (c ∷ₛ s) =
    let trimmed = timeframe_delta s in
    if is_space c then trimmed else if is_digit c then after_digits (code c - 48) s else none

-- `bar_close_time`, for the timeframe's duration
abbrev pub bar_close_time : {F : Type 0} → Option ℕ → Ohlcv F → Option ℕ
bar_close_time none bar = none
bar_close_time (some duration) bar = elim bar.timestamp [
  | none ↦ none
  | some at ↦ some (at + duration)
]

-- the closed bars of `split_forming`
unfoldable pub closed_bars : {F : Type 0} → List (Ohlcv F) → Option ℕ → ℕ → List (Ohlcv F)
closed_bars candles duration now = elim (last? candles) [
  | none ↦ candles
  | some bar ↦ elim (bar_close_time duration bar) [
    | none ↦ candles
    | some closes ↦ if ltb now closes then but_last candles else candles
  ]
]
