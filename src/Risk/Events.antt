-- ===== src/Risk/Events.antt =====
-- src/core/risk_engine.py: the event guard, over calendar events and venue notices. Subtraction of a
-- duration stops at the first moment of the calendar, which the comparison with `now` cannot tell.
use smarty_trader.Prelude.{
  ℕ, ◌+◌, ◌-◌, ◌*◌, Bool, Option, none, some, List, [], ◌∷◌, ◌&&◌, not, leb, if◌then◌else◌,
}
use smarty_trader.Models.{
  EventKind, MarketEvent, SymbolContext, TradeSignal, Reason, RiskResult, rank, is_buy,
}
use smarty_trader.Risk.{RiskSettings, approve, reject}
use smarty_trader.Risk.Trackers.{minutes}

abbrev pub hours : ℕ → ℕ
hours n = minutes (n * 60)

abbrev pub days : ℕ → ℕ
days n = hours (n * 24)

-- `at - before <= now <= at + after`
abbrev pub in_window : ℕ → ℕ → ℕ → ℕ → Bool
in_window at_time before after now = leb (at_time - before) now && leb now (at_time + after)

abbrev pub is_delisting : EventKind → Bool
is_delisting EventKind.delisting = Bool.true
is_delisting EventKind.macro = Bool.false
is_delisting EventKind.earnings = Bool.false

abbrev pub or_next : Option Reason → Option Reason → Option Reason
or_next none next = next
or_next (some why) next = some why

abbrev pub verdict_of : Option Reason → RiskResult
verdict_of none = approve
verdict_of (some why) = reject why

module _ {F : Type 0} where
  unfoldable pub notice_blocks : RiskSettings F → ℕ → MarketEvent → Bool
  notice_blocks settings now n =
      is_delisting n.kind
      && in_window n.at_time (days 1) (days settings.delisting_blackout_days) now

  unfoldable pub kind_blocks : RiskSettings F → ℕ → MarketEvent → EventKind → Option Reason
  kind_blocks settings now e EventKind.macro =
      if leb (rank settings.event_guard_min_importance) (rank e.importance)
        && in_window e.at_time (minutes settings.event_blackout_before_minutes)
            (minutes settings.event_blackout_after_minutes) now
      then some Reason.macro_event
      else none
  kind_blocks settings now e EventKind.earnings =
      if in_window e.at_time (days settings.earnings_blackout_days_before)
        (hours settings.earnings_blackout_hours_after) now
      then some Reason.earnings_release
      else none
  kind_blocks settings now e EventKind.delisting = none

  unfoldable pub first_notice : RiskSettings F → ℕ → List MarketEvent → Option Reason
  unfolding notice_blocks
  first_notice settings now [] = none
  first_notice settings now (n ∷ ns) =
      if notice_blocks settings now n
      then some Reason.delisting_notice
      else first_notice settings now ns

  unfoldable pub first_event : RiskSettings F → ℕ → List MarketEvent → Option Reason
  unfolding kind_blocks
  first_event settings now [] = none
  first_event settings now (e ∷ es) =
      or_next (kind_blocks settings now e e.kind) (first_event settings now es)

  unfoldable pub event_blackout_reason : RiskSettings F → Option SymbolContext → Option Reason
  unfolding first_notice first_event
  event_blackout_reason settings none = none
  event_blackout_reason settings (some c) =
      if not settings.event_guard_enabled
      then none
      else or_next (first_notice settings c.now c.notices) (first_event settings c.now c.events)

  -- `failed` tells that `context_error` is not `None`.
  unfoldable pub check_event_guard :
      RiskSettings F → TradeSignal F → Option SymbolContext → Bool → RiskResult
  check_event_guard settings signal context failed =
      if not (is_buy signal.action && settings.event_guard_enabled)
      then approve
      else if failed
      then reject Reason.context_unavailable
      else verdict_of (event_blackout_reason settings context)
