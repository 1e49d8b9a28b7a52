-- ===== src/Books/Limits.antt =====
-- `sleeve_risk_settings` and `apply_risk`: a sleeve's limits from the configured ones, its own
-- overrides, and what an operator has tightened.
use smarty_trader.Prelude.{
  ℕ, ◌≤◌, ◌≡◌, Bool, false, String, Option, [], ◌∷◌, ltb, nat_beq, or_else, if◌then◌else◌, arith,
}
use smarty_trader.Prelude.Dict.{Dict}
use smarty_trader.Float.{Float, ReversesOrder, ◌<?◌, ◌=?◌, min_f, max_f}
use smarty_trader.Models.{EventImportance}
use smarty_trader.Risk.{RiskSettings}
use smarty_trader.Risk.Trackers.{RiskEngine}

-- A sleeve may override every risk field but `enforce_exit_levels`.
pub record RiskOverrides (F : Type 0) : Type 0 where
  pub max_position_pct : Option F
  pub daily_loss_limit_pct : Option F
  pub max_drawdown_pct : Option F
  pub consecutive_losses_cooldown_minutes : Option ℕ
  pub consecutive_losses_threshold : Option ℕ
  pub max_open_positions : Option ℕ
  pub min_confidence : Option F
  pub max_stop_distance_pct : Option F
  pub risk_per_trade_pct : Option F
  pub event_guard_enabled : Option Bool
  pub event_blackout_before_minutes : Option ℕ
  pub event_blackout_after_minutes : Option ℕ
  pub event_guard_min_importance : Option EventImportance
  pub earnings_blackout_days_before : Option ℕ
  pub earnings_blackout_hours_after : Option ℕ
  pub delisting_blackout_days : Option ℕ

-- `values.update(overrides)`
unfoldable pub overlaid : {F : Type 0} → RiskSettings F → RiskOverrides F → RiskSettings F
overlaid b o = record {
  max_position_pct = or_else o.max_position_pct b.max_position_pct;
  daily_loss_limit_pct = or_else o.daily_loss_limit_pct b.daily_loss_limit_pct;
  max_drawdown_pct = or_else o.max_drawdown_pct b.max_drawdown_pct;
  consecutive_losses_cooldown_minutes =
      or_else o.consecutive_losses_cooldown_minutes b.consecutive_losses_cooldown_minutes;
  consecutive_losses_threshold =
      or_else o.consecutive_losses_threshold b.consecutive_losses_threshold;
  max_open_positions = or_else o.max_open_positions b.max_open_positions;
  min_confidence = or_else o.min_confidence b.min_confidence;
  max_stop_distance_pct = or_else o.max_stop_distance_pct b.max_stop_distance_pct;
  risk_per_trade_pct = or_else o.risk_per_trade_pct b.risk_per_trade_pct;
  enforce_exit_levels = b.enforce_exit_levels;
  event_guard_enabled = or_else o.event_guard_enabled b.event_guard_enabled;
  event_blackout_before_minutes =
      or_else o.event_blackout_before_minutes b.event_blackout_before_minutes;
  event_blackout_after_minutes =
      or_else o.event_blackout_after_minutes b.event_blackout_after_minutes;
  event_guard_min_importance = or_else o.event_guard_min_importance b.event_guard_min_importance;
  earnings_blackout_days_before =
      or_else o.earnings_blackout_days_before b.earnings_blackout_days_before;
  earnings_blackout_hours_after =
      or_else o.earnings_blackout_hours_after b.earnings_blackout_hours_after;
  delisting_blackout_days = or_else o.delisting_blackout_days b.delisting_blackout_days;
}

-- Python's `min` and `max` on whole numbers
abbrev pub count_at_most_live : ℕ → ℕ → ℕ → ℕ
count_at_most_live base live value =
    if nat_beq live base then value else if ltb live value then live else value

abbrev pub count_at_least_live : ℕ → ℕ → ℕ → ℕ
count_at_least_live base live value =
    if nat_beq live base then value else if ltb value live then live else value

count_lowered :
    (base live value : ℕ) → nat_beq live base ≡ false → count_at_most_live base live value ≤ live
count_lowered base live value h = ground arith

count_raised :
    (base live value : ℕ) → nat_beq live base ≡ false → live ≤ count_at_least_live base live value
count_raised base live value h = ground arith

module _ {F : Type 0} ⦃d : Float F⦄ where
  -- where the operator moved a limit, it bounds the sleeve's value
  abbrev pub at_most_live : F → F → F → F
  at_most_live base live value = if live =? base then value else min_f value live

  abbrev pub at_least_live : F → F → F → F
  at_least_live base live value = if live =? base then value else max_f value live

  unfoldable pub sleeve_risk_settings :
      RiskSettings F → RiskSettings F → RiskOverrides F → RiskSettings F
  unfolding overlaid
  sleeve_risk_settings b live o =
      let values = overlaid b o in
      record values {
        max_position_pct =
            at_most_live b.max_position_pct live.max_position_pct values.max_position_pct;
        daily_loss_limit_pct =
            at_most_live b.daily_loss_limit_pct live.daily_loss_limit_pct
              values.daily_loss_limit_pct;
        max_drawdown_pct =
            at_most_live b.max_drawdown_pct live.max_drawdown_pct values.max_drawdown_pct;
        max_open_positions =
            count_at_most_live b.max_open_positions live.max_open_positions
              values.max_open_positions;
        min_confidence = at_least_live b.min_confidence live.min_confidence values.min_confidence;
        consecutive_losses_cooldown_minutes =
            count_at_least_live b.consecutive_losses_cooldown_minutes
              live.consecutive_losses_cooldown_minutes values.consecutive_losses_cooldown_minutes;
      }

  -- `apply_risk`: `overrides_of` are those of the sleeve's spec
  unfoldable pub apply_sleeve_risk :
      RiskSettings F
      → RiskSettings F
      → (String → RiskOverrides F)
      → Dict String (RiskEngine F)
      → Dict String (RiskEngine F)
  unfolding sleeve_risk_settings
  apply_sleeve_risk b live overrides_of [] = []
  apply_sleeve_risk b live overrides_of ((name, e) ∷ rest) =
      (name, record e { settings = sleeve_risk_settings b live (overrides_of name) })
      ∷ apply_sleeve_risk b live overrides_of rest

  -- Each limit that differs from the configured one bounds `s`; NaN bounds nothing.
  pub record IsWithinLive (b live s : RiskSettings F) : Type 0 where
    pub max_position_pct :
        (live.max_position_pct =? b.max_position_pct) ≡ false
        → (live.max_position_pct <? s.max_position_pct) ≡ false
    pub daily_loss_limit_pct :
        (live.daily_loss_limit_pct =? b.daily_loss_limit_pct) ≡ false
        → (live.daily_loss_limit_pct <? s.daily_loss_limit_pct) ≡ false
    pub max_drawdown_pct :
        (live.max_drawdown_pct =? b.max_drawdown_pct) ≡ false
        → (live.max_drawdown_pct <? s.max_drawdown_pct) ≡ false
    pub max_open_positions :
        nat_beq live.max_open_positions b.max_open_positions ≡ false
        → s.max_open_positions ≤ live.max_open_positions
    pub min_confidence :
        (live.min_confidence =? b.min_confidence) ≡ false
        → (s.min_confidence <? live.min_confidence) ≡ false
    pub cooldown :
        nat_beq live.consecutive_losses_cooldown_minutes b.consecutive_losses_cooldown_minutes
          ≡ false
        → live.consecutive_losses_cooldown_minutes ≤ s.consecutive_losses_cooldown_minutes

  abbrev pub AllWithin : RiskSettings F → RiskSettings F → Dict String (RiskEngine F) → Type 0
  AllWithin b live [] = Unit
  AllWithin b live ((name, e) ∷ rest) = IsWithinLive b live e.settings × AllWithin b live rest

  module _ (laws : ReversesOrder F) where
    lowered :
        (base live value : F)
        → (live =? base) ≡ false
        → (live <? at_most_live base live value) ≡ false
    lowered base live value h = ground (arith, laws.lt_asymm live live)

    raised :
        (base live value : F)
        → (live =? base) ≡ false
        → (at_least_live base live value <? live) ≡ false
    raised base live value h = ground (arith, laws.lt_asymm live live)

    -- After an override change each limit that the operator moved bounds every sleeve, whatever the
    -- sleeve's own overrides say.
    pub apply_sleeve_risk-AllWithin :
        (b live : RiskSettings F) (overrides_of : String → RiskOverrides F)
        (engines : Dict String (RiskEngine F))
        → AllWithin b live (apply_sleeve_risk b live overrides_of engines)
    unfolding apply_sleeve_risk sleeve_risk_settings
    apply_sleeve_risk-AllWithin b live overrides_of [] = tt
    apply_sleeve_risk-AllWithin b live overrides_of ((name, e) ∷ rest) = (
      record {
        max_position_pct = lowered b.max_position_pct live.max_position_pct _;
        daily_loss_limit_pct = lowered b.daily_loss_limit_pct live.daily_loss_limit_pct _;
        max_drawdown_pct = lowered b.max_drawdown_pct live.max_drawdown_pct _;
        max_open_positions = count_lowered b.max_open_positions live.max_open_positions _;
        min_confidence = raised b.min_confidence live.min_confidence _;
        cooldown =
            count_raised b.consecutive_losses_cooldown_minutes
              live.consecutive_losses_cooldown_minutes _;
      },
      apply_sleeve_risk-AllWithin b live overrides_of rest,
    )
