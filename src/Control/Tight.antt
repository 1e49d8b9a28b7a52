-- ===== src/Control/Tight.antt =====
-- No stored override ever loosens a risk limit.
use smarty_trader.Prelude.{
  ℕ, ◌≤◌, ◌≡◌, Bool, false, String, Option, none, some, List, [], ◌∷◌, or_else, arith,
  if◌then◌else◌,
}
use smarty_trader.Float.{Float, ReversesOrder, ◌<?◌}
use smarty_trader.Risk.{RiskSettings}
use smarty_trader.Control.{
  Baselines, RiskOverride, SafeConfigOverrides, above_base, below_base, above_count, below_count,
}
use smarty_trader.Control.Apply.{
  Live, Stored, apply_risk, apply_overrides, apply_parsed, parse_overrides, parse_and_apply,
}

module _ {F : Type 0} ⦃d : Float F⦄ where
  -- No limit of `s` is looser than the one of `b`.
  pub record IsTight (b s : RiskSettings F) : Type 0 where
    pub max_position_pct : (b.max_position_pct <? s.max_position_pct) ≡ false
    pub daily_loss_limit_pct : (b.daily_loss_limit_pct <? s.daily_loss_limit_pct) ≡ false
    pub max_drawdown_pct : (b.max_drawdown_pct <? s.max_drawdown_pct) ≡ false
    pub max_open_positions : s.max_open_positions ≤ b.max_open_positions
    pub min_confidence : (s.min_confidence <? b.min_confidence) ≡ false
    pub cooldown : b.consecutive_losses_cooldown_minutes ≤ s.consecutive_losses_cooldown_minutes

  -- one stored text after the other
  pub apply_all : (String → String) → Bool → Baselines F → List (Stored F) → Live F → Live F
  apply_all upper crypto b [] live = live
  apply_all upper crypto b (x ∷ xs) live =
      apply_all upper crypto b xs (parse_and_apply upper crypto b x live)

  module _ (laws : ReversesOrder F) where
    lt_irrefl : (x : F) → (x <? x) ≡ false
    lt_irrefl x = ground (arith, laws.lt_asymm x x)

    at_most :
        (b live : F) (o : Option F)
        → (b <? live) ≡ false
        → (b <? (if above_base b o then live else or_else o b)) ≡ false
    at_most b live none h = lt_irrefl b
    at_most b live (some x) h = ground arith

    at_least :
        (b live : F) (o : Option F)
        → (live <? b) ≡ false
        → ((if below_base b o then live else or_else o b) <? b) ≡ false
    at_least b live none h = lt_irrefl b
    at_least b live (some x) h = ground arith

    few :
        (b live : ℕ) (o : Option ℕ) → live ≤ b → (if above_count b o then live else or_else o b) ≤ b
    few b live none h = omega arith
    few b live (some x) h = ground arith

    long :
        (b live : ℕ) (o : Option ℕ) → b ≤ live → b ≤ (if below_count b o then live else or_else o b)
    long b live none h = omega arith
    long b live (some x) h = ground arith

    apply_risk-IsTight :
        (b : RiskSettings F) (o : RiskOverride F) (live : RiskSettings F)
        → IsTight b live
        → IsTight b (apply_risk b o live)
    unfolding apply_risk
    apply_risk-IsTight b o live h = record {
      max_position_pct =
          at_most b.max_position_pct live.max_position_pct o.max_position_pct h.max_position_pct;
      daily_loss_limit_pct =
          at_most b.daily_loss_limit_pct live.daily_loss_limit_pct o.daily_loss_limit_pct
            h.daily_loss_limit_pct;
      max_drawdown_pct =
          at_most b.max_drawdown_pct live.max_drawdown_pct o.max_drawdown_pct h.max_drawdown_pct;
      max_open_positions =
          few b.max_open_positions live.max_open_positions o.max_open_positions
            h.max_open_positions;
      min_confidence =
          at_least b.min_confidence live.min_confidence o.min_confidence h.min_confidence;
      cooldown =
          long b.consecutive_losses_cooldown_minutes live.consecutive_losses_cooldown_minutes
            o.consecutive_losses_cooldown_minutes h.cooldown;
    }

    apply_parsed-IsTight :
        (upper : String → String) (crypto : Bool) (b : Baselines F)
        (o : Option (SafeConfigOverrides F)) (live : Live F)
        → IsTight b.risk live.risk
        → IsTight b.risk (apply_parsed upper crypto b o live).risk
    unfolding apply_parsed apply_overrides
    apply_parsed-IsTight upper crypto b none live h = h
    apply_parsed-IsTight upper crypto b (some o) live h =
        apply_risk-IsTight b.risk o.risk live.risk h

    -- Whatever is stored, one blob after the other, readable or not: no risk limit of the running
    -- agent is ever looser than the configured one.
    pub apply_all-IsTight :
        (upper : String → String) (crypto : Bool) (b : Baselines F) (xs : List (Stored F))
        (live : Live F)
        → IsTight b.risk live.risk
        → IsTight b.risk (apply_all upper crypto b xs live).risk
    unfolding apply_all parse_and_apply
    apply_all-IsTight upper crypto b [] live h = h
    apply_all-IsTight upper crypto b (x ∷ xs) live h =
        apply_all-IsTight upper crypto b xs (parse_and_apply upper crypto b x live)
          (apply_parsed-IsTight upper crypto b (parse_overrides x) live h)
