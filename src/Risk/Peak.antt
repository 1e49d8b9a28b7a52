-- ===== src/Risk/Peak.antt =====
-- The high-water mark of the drawdown rule only rises.
use smarty_trader.Prelude.{
  ℕ, ◌≡◌, Bool, true, false, Option, none, some, List, [], ◌∷◌, ◌&&◌, arith, if◌then◌else◌,
}
use smarty_trader.Float.{Float, ◌<?◌, ◌≺◌, ◌≼◌, zero_f, IsOrdered}
use smarty_trader.Models.{Action, TradeSignal, PortfolioState, Reason, total_value}
use smarty_trader.Risk.Trackers.{
  RiskEngine, note_equity, is_new_peak, seed_peak_equity, record_outcome, update_daily_value,
  restore_daily_baseline, restore_loss_streak,
}
use smarty_trader.Risk.Checks.{
  check_peak, check_drawdown, check_backstop, check_daily_loss, evaluate, evaluate_action,
}

-- A call of the engine with its arguments, the clock's answers among them.
pub data Call (F : Type 0) : Type 0 where
  gate : ℕ → ℕ → TradeSignal F → PortfolioState F → Option F → Option F → Call F
  breaker : F → F → Call F
  outcome : ℕ → Bool → Call F
  daily_value : ℕ → F → Call F
  baseline : ℕ → F → Call F
  streak : ℕ → Option ℕ → Call F
  seed : Option F → Call F

module _ {F : Type 0} ⦃d : Float F⦄ where
  pub after_call : Call F → RiskEngine F → RiskEngine F
  after_call (gate now later signal portfolio planned price) e =
      (evaluate now later signal portfolio planned price e).1
  after_call (breaker value limit) e = (check_backstop value limit e).1
  after_call (outcome now won) e = record_outcome now won e
  after_call (daily_value now value) e = update_daily_value now value e
  after_call (baseline now value) e = restore_daily_baseline now value e
  after_call (streak losses until) e = restore_loss_streak losses until e
  after_call (seed value) e = seed_peak_equity value e

  pub after_calls : List (Call F) → RiskEngine F → RiskEngine F
  after_calls [] e = e
  after_calls (c ∷ cs) e = after_calls cs (after_call c e)

  -- The second mark is there if the first one is, and is no lower.
  abbrev pub Risen : Option F → Option F → Type 0
  Risen none q = Unit
  Risen (some p) none = ⊥
  Risen (some p) (some q) = p ≼ q

  -- A mark is above zero; so it is a number.
  abbrev pub IsMark : Option F → Type 0
  IsMark none = Unit
  IsMark (some p) = zero_f ≺ p

  module _ (laws : IsOrdered F) where
    open laws use {number_of_le, le_trans, le_of_lt}

    Risen-refl : (p : Option F) → IsMark p → Risen p p
    Risen-refl none h = tt
    Risen-refl (some p) h = (number_of_le _ _ (le_of_lt _ _ h)).1

    Risen-trans : (p q r : Option F) → Risen p q → Risen q r → Risen p r
    Risen-trans none q r h k = tt
    Risen-trans (some p) none r h k = elim h [ ]
    Risen-trans (some p) (some q) none h k = k
    Risen-trans (some p) (some q) (some r) h k = le_trans p q r h k

    abbrev new_peak : F → Option F → Option F
    new_peak value p = if zero_f <? value && is_new_peak value p then some value else p

    note_equity-new_peak :
        (value : F) (e : RiskEngine F)
        → (note_equity value e).peak_equity ≡ new_peak value e.peak_equity
    unfolding note_equity
    note_equity-new_peak value e = ground arith

    new_peak_rises :
        (value : F) (p : Option F)
        → IsMark p
        → IsMark (new_peak value p) × Risen p (new_peak value p)
    new_peak_rises value none h = ground arith
    new_peak_rises value (some p) h = ground (arith, le_of_lt p value, Risen-refl (some p) h)

    -- the second engine's mark has risen from the first's, and is a mark
    abbrev Keeps : RiskEngine F → RiskEngine F → Type 0
    Keeps e e' = IsMark e'.peak_equity × Risen e.peak_equity e'.peak_equity

    note_equity-Keeps :
        (value : F) (e : RiskEngine F) → IsMark e.peak_equity → Keeps e (note_equity value e)
    note_equity-Keeps value e h =
        rw (note_equity-new_peak value e) (new_peak_rises value e.peak_equity h)

    check_peak-Keeps :
        (why : Reason) (value limit : F) (e : RiskEngine F)
        → IsMark e.peak_equity
        → Keeps e (check_peak why value limit e).1
    unfolding check_peak
    check_peak-Keeps why value limit e h =
        ground (arith, note_equity-Keeps value e h, Risen-refl e.peak_equity h)

    evaluate-Keeps :
        (action : Action) (now later : ℕ) (signal : TradeSignal F) (s : PortfolioState F)
        (planned price : Option F) (e : RiskEngine F)
        → IsMark e.peak_equity
        → Keeps e (evaluate_action action now later signal s planned price e).1
    unfolding evaluate_action check_daily_loss check_drawdown check_peak
    evaluate-Keeps Action.hold now later signal s planned price e h =
        (h, Risen-refl e.peak_equity h)
    evaluate-Keeps Action.sell now later signal s planned price e h =
        (h, Risen-refl e.peak_equity h)
    evaluate-Keeps Action.buy now later signal s planned price e h =
        check_peak-Keeps Reason.drawdown (total_value s) e.settings.max_drawdown_pct
          (check_daily_loss now s e).1 h

    after_call-Keeps :
        (c : Call F) (e : RiskEngine F) → IsMark e.peak_equity → Keeps e (after_call c e)
    unfolding after_call evaluate record_outcome update_daily_value restore_daily_baseline
        restore_loss_streak seed_peak_equity check_backstop
    after_call-Keeps (gate now later signal s planned price) e h =
        evaluate-Keeps signal.action now later signal s planned price e h
    after_call-Keeps (breaker value limit) e h = check_peak-Keeps Reason.backstop value limit e h
    after_call-Keeps (outcome now true) e h = (h, Risen-refl e.peak_equity h)
    after_call-Keeps (outcome now false) e h = (h, Risen-refl e.peak_equity h)
    after_call-Keeps (daily_value now value) e h = note_equity-Keeps value _ h
    after_call-Keeps (baseline now value) e h = (h, Risen-refl e.peak_equity h)
    after_call-Keeps (streak losses until) e h = (h, Risen-refl e.peak_equity h)
    after_call-Keeps (seed none) e h = (h, Risen-refl e.peak_equity h)
    after_call-Keeps (seed (some value)) e h = note_equity-Keeps value e h

    -- Over any sequence of calls the high-water mark never falls and is never lost: the mark before
    -- is at most the mark after, and a mark stays above zero.
    pub after_calls_rise :
        (cs : List (Call F)) (e : RiskEngine F)
        → IsMark e.peak_equity
        → IsMark (after_calls cs e).peak_equity × Risen e.peak_equity (after_calls cs e).peak_equity
    unfolding after_calls
    after_calls_rise [] e h = (h, Risen-refl e.peak_equity h)
    after_calls_rise (c ∷ cs) e h =
        let (mark, rise) = after_call-Keeps c e h in
        let (mark', rise') = after_calls_rise cs (after_call c e) mark in
        (mark', Risen-trans e.peak_equity (after_call c e).peak_equity _ rise rise')
