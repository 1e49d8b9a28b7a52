-- ===== src/Pipeline/Exits.antt =====
-- The exits of a cycle that ask neither the model nor the gate: exit levels and the time stop.
use smarty_trader.Prelude.{
  ℕ, ◌+◌, Bool, true, false, String, Option, none, some, List, [], ◌∷◌, ◌&&◌, ◌||◌, not, ◌==◌,
  string_eq, leb, if◌then◌else◌,
}
use smarty_trader.Float.{Float, ◌<?◌, ◌≤?◌, zero_f}
use smarty_trader.Models.{Position, OrderResult}
use smarty_trader.Paper.{OrderRequest}
use smarty_trader.Sizing.{ExitReason, closing_side, exit_level_breach}
use smarty_trader.Pipeline.{
  Venue, Ownership, Sleeves, Setup, Cycle, Outcome, CycleError, SkipReason, blank, send,
  is_order_working, note_fill,
}

-- `time_stop_due`
unfoldable pub time_stop_due : {F : Type 0} → Sleeves F → Ownership → ℕ → Bool
time_stop_due b o now = elim (b.max_holding o.strategy) [
  | none ↦ false
  | some limit ↦ elim o.opened_at [ none ↦ false | some opened ↦ leb (opened + limit) now ]
]

module _ {F : Type 0} ⦃d : Float F⦄ where
  unfoldable pub exit_order : String → Position F → F → OrderRequest F
  exit_order symbol p mark = record {
    symbol = symbol;
    side = closing_side p.side;
    quantity = p.quantity;
    price = some mark;
    decision_id = none;
    stop_loss = none;
    take_profit = none;
  }

  abbrev pub is_open : String → Position F → Bool
  is_open symbol p = p.symbol == symbol && zero_f <? p.quantity

  abbrev pub or_breach :
      Option ExitReason
      → Position F
      → Option (Position F × ExitReason)
      → Option (Position F × ExitReason)
  or_breach none p next = next
  or_breach (some why) p next = some (p, why)

  unfoldable pub first_breach : String → F → List (Position F) → Option (Position F × ExitReason)
  unfolding exit_level_breach
  first_breach symbol mark [] = none
  first_breach symbol mark (p ∷ ps) =
      let rest = first_breach symbol mark ps in
      if is_open symbol p then or_breach (exit_level_breach p mark) p rest else rest

  unfoldable pub first_open : String → List (Position F) → Option (Position F)
  first_open symbol [] = none
  first_open symbol (p ∷ ps) =
      let rest = first_open symbol ps in if is_open symbol p then some p else rest

module _ {F S : Type 0} ⦃d : Float F⦄ where
  -- what a close gives once the venue has answered
  unfoldable pub closed_with :
      Setup F → Option String → ℕ → ExitReason → Option (OrderResult F) × Cycle F S → Outcome F S
  unfolding note_fill
  closed_with p owner now why (none, c) = (
    record blank { auto_exit = true; exit_reason = some why; error = some CycleError.close_failed },
    c,
  )
  closed_with p owner now why (some o, c) = (
    record blank { auto_exit = true; exit_reason = some why; order_result = some o },
    note_fill p owner now o c,
  )

  -- `_close_for_exit`
  unfoldable pub close_for_exit :
      Setup F
      → Venue F S
      → ℕ
      → String
      → Position F
      → F
      → ExitReason
      → Option String
      → Cycle F S
      → Outcome F S
  unfolding closed_with
  close_for_exit p v now symbol position mark why owner c =
      if is_order_working v symbol (closing_side position.side) c
      then (
        record blank {
          auto_exit = true;
          exit_reason = some why;
          skip_reason = some SkipReason.exit_order_working;
        },
        c,
      )
      else closed_with p owner now why (send v (exit_order symbol position mark) c)

  -- `_check_exit_levels`: the position to close and why
  unfoldable pub breached_level :
      Setup F → Venue F S → String → F → Cycle F S → Option (Position F × ExitReason)
  unfolding first_breach
  breached_level p v symbol mark c =
      if not (c.engines p.own).settings.enforce_exit_levels || mark ≤? zero_f
      then none
      else elim (v.positions c.venue) [ none ↦ none | some ps ↦ first_breach symbol mark ps ]

  -- `_check_time_stop`: the position to close
  unfoldable pub overdue :
      Setup F → Venue F S → String → F → ℕ → Ownership → Cycle F S → Option (Position F)
  unfolding time_stop_due first_open
  overdue p v symbol mark now o c = elim p.sleeves [
    | none ↦ none
    | some b ↦
        if not (time_stop_due b o now) || mark ≤? zero_f
        then none
        else elim (v.positions c.venue) [ none ↦ none | some ps ↦ first_open symbol ps ]
  ]
