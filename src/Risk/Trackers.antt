-- ===== src/Risk/Trackers.antt =====
-- src/core/risk_engine.py: `DailyLossTracker` and `ConsecutiveLossTracker`, and the engine's state.
use smarty_trader.Prelude.{
  ℕ, ◌+◌, ◌*◌, ◌/◌, Bool, Option, none, some, ◌==◌, ◌&&◌, leb, ltb, nat_eq, option_eq,
  if◌then◌else◌,
}
use smarty_trader.Float.{Float, ◌⊖◌, ◌⊘◌, ◌<?◌, ◌=?◌, zero_f}
use smarty_trader.Risk.{RiskSettings}

-- the date of a time, as a count of days
unfoldable pub day_of : ℕ → ℕ
day_of now = now / 86_400_000_000

abbrev pub minutes : ℕ → ℕ
minutes n = n * 60_000_000

pub record DailyLossTracker (F : Type 0) : Type 0 where
  pub start_of_day_value : Option F
  -- `none` is the empty text of a new tracker
  pub current_date : Option ℕ
  pub latest_value : Option F

pub record ConsecutiveLossTracker : Type 0 where
  pub consecutive_losses : ℕ
  pub cooldown_until : Option ℕ

unfoldable pub in_cooldown : ℕ → ConsecutiveLossTracker → Bool
in_cooldown now t = elim t.cooldown_until [ none ↦ Bool.false | some until ↦ ltb now until ]

unfoldable pub record_loss : ℕ → ℕ → ℕ → ConsecutiveLossTracker → ConsecutiveLossTracker
record_loss now cooldown_minutes threshold t =
    let losses = t.consecutive_losses + 1 in
    record {
      consecutive_losses = losses;
      cooldown_until =
          if leb threshold losses then some (now + minutes cooldown_minutes) else t.cooldown_until;
    }

unfoldable pub record_win : ConsecutiveLossTracker → ConsecutiveLossTracker
record_win t = record { consecutive_losses = 0; cooldown_until = none }

unfoldable pub restore : ℕ → Option ℕ → ConsecutiveLossTracker → ConsecutiveLossTracker
restore losses until t = record { consecutive_losses = losses; cooldown_until = until }

module _ {F : Type 0} ⦃d : Float F⦄ where
  unfoldable pub reset_if_new_day : ℕ → F → DailyLossTracker F → DailyLossTracker F
  reset_if_new_day now value t =
      if t.current_date == some (day_of now)
      then t
      else record t { current_date = some (day_of now); start_of_day_value = some value }

  unfoldable pub restore_today : ℕ → F → DailyLossTracker F → DailyLossTracker F
  restore_today now value t = record t {
    current_date = some (day_of now);
    start_of_day_value = some value;
  }

  unfoldable pub update_latest_value : F → DailyLossTracker F → DailyLossTracker F
  update_latest_value value t = record t { latest_value = some value }

  abbrev pub pnl_from : F → Option F → Option F
  pnl_from start none = none
  pnl_from start (some latest) = if start =? zero_f then none else some ((latest ⊖ start) ⊘ start)

  unfoldable pub daily_pnl_pct : DailyLossTracker F → Option F
  daily_pnl_pct t = elim t.start_of_day_value [
    | none ↦ none
    | some start ↦ pnl_from start t.latest_value
  ]

pub record RiskEngine (F : Type 0) : Type 0 where
  pub settings : RiskSettings F
  pub daily : DailyLossTracker F
  pub losses : ConsecutiveLossTracker
  pub peak_equity : Option F

module _ {F : Type 0} ⦃d : Float F⦄ where
  unfoldable pub new_engine : RiskSettings F → RiskEngine F
  new_engine settings = record {
    settings = settings;
    daily = record { start_of_day_value = none; current_date = none; latest_value = none };
    losses = record { consecutive_losses = 0; cooldown_until = none };
    peak_equity = none;
  }

  abbrev pub is_new_peak : F → Option F → Bool
  is_new_peak value none = Bool.true
  is_new_peak value (some peak) = peak <? value

  unfoldable pub note_equity : F → RiskEngine F → RiskEngine F
  note_equity value e =
      if zero_f <? value && is_new_peak value e.peak_equity
      then record e { peak_equity = some value }
      else e

  unfoldable pub seed_peak_equity : Option F → RiskEngine F → RiskEngine F
  unfolding note_equity
  seed_peak_equity none e = e
  seed_peak_equity (some value) e = note_equity value e

  unfoldable pub record_outcome : ℕ → Bool → RiskEngine F → RiskEngine F
  record_outcome now was_profitable e =
      if was_profitable then record e { losses = record_win e.losses } else record e {
        losses =
            record_loss now e.settings.consecutive_losses_cooldown_minutes
              e.settings.consecutive_losses_threshold e.losses;
      }

  unfoldable pub update_daily_value : ℕ → F → RiskEngine F → RiskEngine F
  update_daily_value now value e =
      note_equity value
        (record e { daily = update_latest_value value (reset_if_new_day now value e.daily) })

  unfoldable pub restore_daily_baseline : ℕ → F → RiskEngine F → RiskEngine F
  restore_daily_baseline now value e = record e { daily = restore_today now value e.daily }

  unfoldable pub restore_loss_streak : ℕ → Option ℕ → RiskEngine F → RiskEngine F
  restore_loss_streak losses until e = record e { losses = restore losses until e.losses }
