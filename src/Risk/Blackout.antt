-- ===== src/Risk/Blackout.antt =====
-- The event guard blocks an entry exactly when a notice or an event covers the time.
use smarty_trader.Prelude.{
  ℕ, ◌+◌, ◌*◌, ◌≤◌, ◌≡◌, refl, ◌↔◌, Bool, true, false, Option, none, some, List, [], ◌∷◌, arith,
  All, leb, ◌&&◌,
}
use smarty_trader.Models.{
  EventKind, EventImportance, rank, MarketEvent, SymbolContext, TradeSignal, Reason, is_buy,
}
use smarty_trader.Risk.{RiskSettings, approve}
use smarty_trader.Risk.Trackers.{minutes}
use smarty_trader.Risk.Events.{
  in_window, is_delisting, days, hours, notice_blocks, kind_blocks, first_notice, first_event,
  event_blackout_reason, check_event_guard, or_next, verdict_of,
}

-- From `before` microseconds ahead of the moment to `after` microseconds behind it.
abbrev pub Covers : ℕ → ℕ → ℕ → ℕ → Type 0
Covers moment before after now = (moment ≤ now + before) × (now ≤ moment + after)

-- An event of the second importance counts where the first one is asked for.
abbrev pub IsEnough : EventImportance → EventImportance → Type 0
IsEnough EventImportance.low importance = Unit
IsEnough EventImportance.medium EventImportance.low = ⊥
IsEnough EventImportance.medium EventImportance.medium = Unit
IsEnough EventImportance.medium EventImportance.high = Unit
IsEnough EventImportance.high EventImportance.low = ⊥
IsEnough EventImportance.high EventImportance.medium = ⊥
IsEnough EventImportance.high EventImportance.high = Unit

rank-IsEnough :
    (least importance : EventImportance)
    → (leb (rank least) (rank importance) ≡ true) ↔ IsEnough least importance
rank-IsEnough EventImportance.low EventImportance.low = ground arith
rank-IsEnough EventImportance.low EventImportance.medium = ground arith
rank-IsEnough EventImportance.low EventImportance.high = ground arith
rank-IsEnough EventImportance.medium EventImportance.low = ground arith
rank-IsEnough EventImportance.medium EventImportance.medium = ground arith
rank-IsEnough EventImportance.medium EventImportance.high = ground arith
rank-IsEnough EventImportance.high EventImportance.low = ground arith
rank-IsEnough EventImportance.high EventImportance.medium = ground arith
rank-IsEnough EventImportance.high EventImportance.high = ground arith

-- `at - before` stops at 0, which the comparison cannot tell from a negative moment.
in_window-Covers :
    (moment before after now : ℕ)
    → (in_window moment before after now ≡ true) ↔ Covers moment before after now
in_window-Covers moment before after now = ground arith

or_next-none : (a b : Option Reason) → (or_next a b ≡ none) ↔ ((a ≡ none) × (b ≡ none))
or_next-none none b = ground arith
or_next-none (some a) b = ground arith

module _ {F : Type 0} where
  -- A notice of a delisting covers the time from a day ahead to the days of the settings after it.
  abbrev pub IsCoveredBy : RiskSettings F → ℕ → MarketEvent → EventKind → Type 0
  IsCoveredBy settings now n EventKind.macro = ⊥
  IsCoveredBy settings now n EventKind.earnings = ⊥
  IsCoveredBy settings now n EventKind.delisting =
      Covers n.at_time 86_400_000_000 (86_400_000_000 * settings.delisting_blackout_days) now

  -- A macro event of enough importance covers the minutes around it, an earnings release the days
  -- before and the hours after it.
  abbrev pub IsHeldBy : RiskSettings F → ℕ → MarketEvent → EventKind → Type 0
  IsHeldBy settings now e EventKind.macro =
      IsEnough settings.event_guard_min_importance e.importance
      × Covers e.at_time (60_000_000 * settings.event_blackout_before_minutes)
          (60_000_000 * settings.event_blackout_after_minutes) now
  IsHeldBy settings now e EventKind.earnings =
      Covers e.at_time (86_400_000_000 * settings.earnings_blackout_days_before)
        (3_600_000_000 * settings.earnings_blackout_hours_after) now
  IsHeldBy settings now e EventKind.delisting = ⊥

module _ {F : Type 0} (settings : RiskSettings F) where
  -- No notice and no event of the context covers its time.
  pub record IsClear (c : SymbolContext) : Type 0 where
    pub notices_clear : All (λ (n : MarketEvent). ¬ (IsCoveredBy settings c.now n n.kind)) c.notices
    pub events_clear : All (λ (e : MarketEvent). ¬ (IsHeldBy settings c.now e e.kind)) c.events

  notice_test_iff :
      (now : ℕ) (n : MarketEvent) (k : EventKind)
      → ((is_delisting k
            && in_window n.at_time (days 1) (days settings.delisting_blackout_days) now)
          ≡ false)
        ↔ (¬ (IsCoveredBy settings now n k))
  notice_test_iff now n EventKind.macro = ground arith
  notice_test_iff now n EventKind.earnings = ground arith
  notice_test_iff now n EventKind.delisting =
      ground
        (arith, in_window-Covers n.at_time (days 1) (days settings.delisting_blackout_days) now)

  notice_blocks_iff :
      (now : ℕ) (n : MarketEvent)
      → (notice_blocks settings now n ≡ false) ↔ (¬ (IsCoveredBy settings now n n.kind))
  unfolding notice_blocks
  notice_blocks_iff now n = notice_test_iff now n n.kind

  kind_blocks_iff :
      (now : ℕ) (e : MarketEvent) (k : EventKind)
      → (kind_blocks settings now e k ≡ none) ↔ (¬ (IsHeldBy settings now e k))
  unfolding kind_blocks
  kind_blocks_iff now e EventKind.macro = ground (
    arith,
    rank-IsEnough settings.event_guard_min_importance e.importance,
    in_window-Covers e.at_time (minutes settings.event_blackout_before_minutes)
        (minutes settings.event_blackout_after_minutes) now,
  )
  kind_blocks_iff now e EventKind.earnings = ground (
    arith,
    in_window-Covers e.at_time (days settings.earnings_blackout_days_before)
        (hours settings.earnings_blackout_hours_after) now,
  )
  kind_blocks_iff now e EventKind.delisting = ground arith

  first_notice_iff :
      (now : ℕ) (ns : List MarketEvent)
      → (first_notice settings now ns ≡ none)
        ↔ All (λ (n : MarketEvent). ¬ (IsCoveredBy settings now n n.kind)) ns
  unfolding first_notice
  first_notice_iff now [] = (λ h. tt, λ h. refl)
  first_notice_iff now (n ∷ ns) = ground (arith, notice_blocks_iff now n, first_notice_iff now ns)

  first_event_iff :
      (now : ℕ) (es : List MarketEvent)
      → (first_event settings now es ≡ none)
        ↔ All (λ (e : MarketEvent). ¬ (IsHeldBy settings now e e.kind)) es
  unfolding first_event
  first_event_iff now [] = (λ h. tt, λ h. refl)
  first_event_iff now (e ∷ es) = ground (
    arith,
    or_next-none (kind_blocks settings now e e.kind) (first_event settings now es),
    kind_blocks_iff now e e.kind,
    first_event_iff now es,
  )

  event_blackout_reason_iff :
      (c : SymbolContext)
      → settings.event_guard_enabled ≡ true
      → (event_blackout_reason settings (some c) ≡ none) ↔ IsClear c
  unfolding event_blackout_reason
  event_blackout_reason_iff c on = ground (
    arith,
    or_next-none (first_notice settings c.now c.notices) (first_event settings c.now c.events),
    first_notice_iff c.now c.notices,
    first_event_iff c.now c.events,
  )

  verdict_of_iff : (o : Option Reason) → (verdict_of o ≡ approve) ↔ (o ≡ none)
  verdict_of_iff none = ground arith
  verdict_of_iff (some why) = ground arith

  -- With the guard on, a BUY whose context could be read passes exactly if it is clear: no delisting
  -- notice is at most a day ahead or at most the blackout's days ago; no macro event of enough
  -- importance stands within the minutes before and after it, and no earnings release within the
  -- days before and the hours after it that the settings name, ends included.
  pub check_event_guard_iff :
      (signal : TradeSignal F) (c : SymbolContext)
      → settings.event_guard_enabled ≡ true
      → is_buy signal.action ≡ true
      → (check_event_guard settings signal (some c) false ≡ approve) ↔ IsClear c
  unfolding check_event_guard
  check_event_guard_iff signal c on buy = ground (
    arith,
    event_blackout_reason_iff c on,
    verdict_of_iff (event_blackout_reason settings (some c)),
  )

  -- The guard never holds an exit back: anything but a BUY passes, whatever the context, readable or
  -- not, and whatever the settings.
  pub check_event_guard_exit :
      (signal : TradeSignal F) (context : Option SymbolContext) (failed : Bool)
      → is_buy signal.action ≡ false
      → check_event_guard settings signal context failed ≡ approve
  unfolding check_event_guard
  check_event_guard_exit signal context failed exit = ground arith
