-- ===== src/Risk/Streak.antt =====
-- The loss streak and its cooldown, against an independent description of them.
use smarty_trader.Prelude.{
  ℕ, suc, ◌+◌, ◌≤◌, ◌≡◌, refl, Bool, false, Option, none, some, List, [], ◌∷◌, arith, leb,
  if◌then◌else◌,
}
use smarty_trader.Float.{Float}
use smarty_trader.Risk.Trackers.{RiskEngine, minutes, record_loss, record_win, record_outcome}

-- A closed trade: when its outcome was recorded, and whether it was a profit.
pub record Closed : Type 0 where
  pub recorded_at : ℕ
  pub profitable : Bool

-- With the last trade first: the length of the run of losses that it ends.
unfoldable pub run_length : List Closed → ℕ
run_length [] = 0
run_length (c ∷ cs) = if c.profitable then 0 else suc (run_length cs)

-- With the last trade first: the cooldown that a long enough run of losses arms at its last loss.
unfoldable pub armed_until : ℕ → ℕ → List Closed → Option ℕ
armed_until threshold pause [] = none
armed_until threshold pause (c ∷ cs) =
    if c.profitable
    then none
    else if leb threshold (suc (run_length cs))
    then some (c.recorded_at + minutes pause)
    else none

none_armed :
    (threshold pause : ℕ) (cs : List Closed)
    → 1 ≤ threshold
    → leb threshold (run_length cs) ≡ false
    → armed_until threshold pause cs ≡ none
unfolding armed_until run_length
none_armed threshold pause [] h k = refl
none_armed threshold pause (c ∷ cs) h k = ground arith

module _ {F : Type 0} ⦃d : Float F⦄ where
  -- the engine after the trades, of which the last stands first
  pub after_trades : RiskEngine F → List Closed → RiskEngine F
  after_trades e [] = e
  after_trades e (c ∷ cs) = record_outcome c.recorded_at c.profitable (after_trades e cs)

  after_trades-settings :
      (e : RiskEngine F) (cs : List Closed) → (after_trades e cs).settings ≡ e.settings
  unfolding after_trades record_outcome
  after_trades-settings e [] = refl
  after_trades-settings e (c ∷ cs) = ground (arith, after_trades-settings e cs)

  module _ (e : RiskEngine F) where
    abbrev threshold : ℕ
    threshold = e.settings.consecutive_losses_threshold

    abbrev pause : ℕ
    pause = e.settings.consecutive_losses_cooldown_minutes

    -- From a tracker without losses, and with a threshold of at least one: after any sequence of
    -- closed trades the streak is the number of losses since the last profit, and a cooldown stands
    -- exactly if that reaches the threshold, counted from the last loss.
    pub after_trades-streak :
        (cs : List Closed)
        → e.losses ≡ record { consecutive_losses = 0; cooldown_until = none }
        → 1 ≤ threshold
        → (after_trades e cs).losses ≡ record {
          consecutive_losses = run_length cs;
          cooldown_until = armed_until threshold pause cs;
        }
    unfolding after_trades record_outcome record_loss record_win run_length armed_until
    after_trades-streak [] fresh h = fresh
    after_trades-streak (c ∷ cs) fresh h = ground (
      arith,
      after_trades-streak cs fresh h,
      after_trades-settings e cs,
      none_armed threshold pause cs h,
    )
