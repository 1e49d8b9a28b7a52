-- ===== src/Control/Tests.antt =====
-- An agent with the sample limits, an override that tightens one of them, and each theorem there.
use smarty_trader.Prelude.{◌≡◌, refl, String, none, some, [], ◌∷◌, arith, true}
use smarty_trader.Prelude.Int.{ℤ, pos, eq_of_parts}
use smarty_trader.Float.{fixed, fixed-ReversesOrder, ◌=?◌}
use smarty_trader.Models.{EventImportance}
use smarty_trader.Risk.{RiskSettings}
use smarty_trader.Control.{
  AgentConfig, ReasoningMode, LlmKnobs, Baselines, SafeConfigOverrides, is_valid, is_risk_valid,
  loosened_risk_fields, pairs_not_quoted_in, quote_side,
}
use smarty_trader.Control.Apply.{
  Live, Stored, no_overrides, parse_and_apply, apply_parsed, parse_overrides, apply_overrides,
  apply_agent, validate_overrides_payload,
}
use smarty_trader.Control.Strip.{strip_noop_overrides}
use smarty_trader.Control.Tight.{IsTight, apply_all, apply_all-IsTight}
use smarty_trader.Control.Saved.{configured, saved-in_effect}

abbrev sample_settings : RiskSettings ℤ
sample_settings = record {
  max_position_pct = pos 100_000_000_000;
  daily_loss_limit_pct = pos 30_000_000_000;
  max_drawdown_pct = pos 100_000_000_000;
  consecutive_losses_cooldown_minutes = 240;
  consecutive_losses_threshold = 3;
  max_open_positions = 3;
  min_confidence = pos 600_000_000_000;
  max_stop_distance_pct = pos 100_000_000_000;
  risk_per_trade_pct = pos 10_000_000_000;
  enforce_exit_levels = true;
  event_guard_enabled = true;
  event_blackout_before_minutes = 60;
  event_blackout_after_minutes = 30;
  event_guard_min_importance = EventImportance.high;
  earnings_blackout_days_before = 1;
  earnings_blackout_hours_after = 12;
  delisting_blackout_days = 30;
}

abbrev agent_config : AgentConfig
agent_config = record {
  interval_minutes = 5;
  pairs = "BTC/EUR" ∷ [];
  symbols = [];
  market_hours = some "09:30-16:00";
  decision_history_limit = 10;
  quote_currency = some "EUR";
}

abbrev knobs : LlmKnobs ℤ
knobs = record {
  max_tokens = 1_024;
  timeout_seconds = 30;
  temperature = pos 200_000_000_000;
  reasoning = ReasoningMode.default_mode;
}

abbrev yaml : Baselines ℤ
yaml = record {
  agent = agent_config;
  risk = sample_settings;
  execution = record { fee_pct = pos 0; slippage_pct = pos 1_000_000_000 };
  llm = knobs;
}

abbrev at_start : Live ℤ
at_start = record {
  agent = agent_config;
  risk = sample_settings;
  paper = some yaml.execution;
  pipeline_history_limit = 10;
  llm = knobs;
  traded = "BTC/EUR" ∷ [];
}

abbrev payload : SafeConfigOverrides ℤ
payload = record no_overrides {
  interval_minutes = some 5;
  pairs = some ("ADA/EUR" ∷ []);
  risk = record no_overrides.risk { max_open_positions = some 2 };
}

abbrev as_is : String → String
as_is s = s

quote_of_pair : quote_side "BTC/EUR" ≡ "EUR"
unfolding quote_side
quote_of_pair = refl

equal_numbers : (x y : ℤ) → (x =? y) ≡ true → x ≡ y
equal_numbers x y h = eq_of_parts x y (ground arith)

saved-in_effect_example :
    parse_and_apply as_is true yaml (Stored.fields (strip_noop_overrides yaml payload)) at_start
    ≡ configured true yaml "09:30-16:00" payload at_start
unfolding validate_overrides_payload is_valid is_risk_valid loosened_risk_fields pairs_not_quoted_in
    quote_side
saved-in_effect_example =
    saved-in_effect equal_numbers as_is true yaml "09:30-16:00" payload at_start refl refl

start-IsTight : IsTight sample_settings sample_settings
start-IsTight = record {
  max_position_pct = refl;
  daily_loss_limit_pct = refl;
  max_drawdown_pct = refl;
  max_open_positions = omega arith;
  min_confidence = refl;
  cooldown = omega arith;
}

abbrev looser : SafeConfigOverrides ℤ
looser = record no_overrides { risk = record no_overrides.risk { max_open_positions = some 9 } }

apply_all-IsTight_example :
    IsTight yaml.risk
      (apply_all as_is true yaml
        (Stored.fields payload ∷ Stored.malformed ∷ Stored.fields looser ∷ [])
        at_start).risk
apply_all-IsTight_example =
    apply_all-IsTight fixed-ReversesOrder as_is true yaml
      (Stored.fields payload ∷ Stored.malformed ∷ Stored.fields looser ∷ []) at_start start-IsTight

-- Where the YAML names no market hours, an override's hours stay after the override is removed.
abbrev no_hours : Baselines ℤ
no_hours = record yaml { agent = record agent_config { market_hours = none } }

hours_stay :
    (parse_and_apply as_is true no_hours Stored.nothing (
      parse_and_apply as_is true no_hours
        (Stored.fields (record no_overrides { market_hours = some "10:00-11:00" }))
        at_start)).agent.market_hours
    ≡ some "10:00-11:00"
unfolding parse_and_apply apply_parsed parse_overrides apply_overrides apply_agent is_valid
    is_risk_valid
hours_stay = refl
