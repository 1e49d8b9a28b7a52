-- ===== src/Control/Apply.antt =====
-- `parse_and_apply`: the stored overrides on the objects that the agent runs with.
use smarty_trader.Prelude.{
  ℕ, Bool, true, false, String, Option, none, some, List, [], ◌∷◌, or_else, if◌then◌else◌,
}
use smarty_trader.Float.{Float}
use smarty_trader.Risk.{RiskSettings}
use smarty_trader.Control.{
  AgentConfig, LlmKnobs, PaperCosts, Baselines, RiskOverride, ExecutionOverride, LlmOverride,
  SafeConfigOverrides, RiskField, Validated, pairs_not_quoted_in, is_valid, above_base, below_base,
  above_count, below_count, loosened_risk_fields,
}

-- The live objects. `paper` is none for an executor without the paper attributes.
pub record Live (F : Type 0) : Type 0 where
  pub agent : AgentConfig
  pub risk : RiskSettings F
  pub paper : Option (PaperCosts F)
  pub pipeline_history_limit : ℕ
  pub llm : LlmKnobs F
  pub traded : List String

-- What is stored: nothing, a text that does not parse to known fields, or fields.
pub data Stored (F : Type 0) : Type 0 where
  nothing malformed : Stored F
  fields : SafeConfigOverrides F → Stored F

-- A field of the override, or else the YAML value; where both are None, the live value stays.
abbrev pub kept_or : {A : Type 0} → Option A → Option A → Option A → Option A
kept_or (some x) base live = some x
kept_or none (some b) live = some b
kept_or none none live = live

-- the order of the tests of `validate_overrides_payload`
abbrev pub judged : Bool → List RiskField → List String → Validated
judged false loose bad = Validated.invalid
judged true (f ∷ fs) bad = Validated.loosens (f ∷ fs)
judged true [] (p ∷ ps) = Validated.unquoted (p ∷ ps)
judged true [] [] = Validated.accepted

-- `set_symbols` ignores an empty list.
abbrev pub traded_with : List String → List String → List String
traded_with [] old = old
traded_with (x ∷ xs) old = x ∷ xs

abbrev pub unless_bad : List String → List String → List String → List String
unless_bad [] base pairs = pairs
unless_bad (p ∷ ps) base pairs = base

-- the override's pairs unless one of them is quoted in another currency
unfoldable pub effective_pairs :
    (String → String) → AgentConfig → AgentConfig → Option (List String) → List String
effective_pairs upper base live none = base.pairs
effective_pairs upper base live (some pairs) =
    unless_bad (pairs_not_quoted_in upper pairs live.quote_currency) base.pairs pairs

module _ {F : Type 0} ⦃d : Float F⦄ where
  unfoldable pub apply_agent :
      (String → String) → AgentConfig → SafeConfigOverrides F → AgentConfig → AgentConfig
  unfolding effective_pairs
  apply_agent upper base o live = record live {
    interval_minutes = or_else o.interval_minutes base.interval_minutes;
    market_hours = kept_or o.market_hours base.market_hours live.market_hours;
    decision_history_limit = or_else o.decision_history_limit base.decision_history_limit;
    pairs = effective_pairs upper base live o.pairs;
    symbols = or_else o.symbols base.symbols;
  }

  -- A value that is looser than the YAML one is skipped: the live value stays.
  unfoldable pub apply_risk : RiskSettings F → RiskOverride F → RiskSettings F → RiskSettings F
  apply_risk b o live = record live {
    max_position_pct =
        if above_base b.max_position_pct o.max_position_pct
        then live.max_position_pct
        else or_else o.max_position_pct b.max_position_pct;
    daily_loss_limit_pct =
        if above_base b.daily_loss_limit_pct o.daily_loss_limit_pct
        then live.daily_loss_limit_pct
        else or_else o.daily_loss_limit_pct b.daily_loss_limit_pct;
    max_drawdown_pct =
        if above_base b.max_drawdown_pct o.max_drawdown_pct
        then live.max_drawdown_pct
        else or_else o.max_drawdown_pct b.max_drawdown_pct;
    consecutive_losses_cooldown_minutes =
        if below_count b.consecutive_losses_cooldown_minutes o.consecutive_losses_cooldown_minutes
        then live.consecutive_losses_cooldown_minutes
        else or_else o.consecutive_losses_cooldown_minutes b.consecutive_losses_cooldown_minutes;
    max_open_positions =
        if above_count b.max_open_positions o.max_open_positions
        then live.max_open_positions
        else or_else o.max_open_positions b.max_open_positions;
    min_confidence =
        if below_base b.min_confidence o.min_confidence
        then live.min_confidence
        else or_else o.min_confidence b.min_confidence;
  }

  abbrev pub costs_with : PaperCosts F → ExecutionOverride F → PaperCosts F
  costs_with b o = record {
    fee_pct = or_else o.paper_fee_pct b.fee_pct;
    slippage_pct = or_else o.paper_slippage_pct b.slippage_pct;
  }

  unfoldable pub apply_costs :
      PaperCosts F → ExecutionOverride F → Option (PaperCosts F) → Option (PaperCosts F)
  apply_costs b o none = none
  apply_costs b o (some live) = some (costs_with b o)

  unfoldable pub apply_llm : LlmKnobs F → LlmOverride F → LlmKnobs F
  apply_llm b o = record {
    max_tokens = or_else o.max_tokens b.max_tokens;
    timeout_seconds = or_else o.timeout_seconds b.timeout_seconds;
    temperature = or_else o.temperature b.temperature;
    reasoning = or_else o.reasoning b.reasoning;
  }

  -- `crypto` tells which list the agent trades.
  unfoldable pub apply_overrides :
      (String → String) → Bool → Baselines F → SafeConfigOverrides F → Live F → Live F
  unfolding apply_agent apply_risk apply_costs apply_llm
  apply_overrides upper crypto b o live =
      let agent = apply_agent upper b.agent o live.agent in
      record {
        agent = agent;
        risk = apply_risk b.risk o.risk live.risk;
        paper = apply_costs b.execution o.execution live.paper;
        pipeline_history_limit = or_else o.decision_history_limit b.agent.decision_history_limit;
        llm = apply_llm b.llm o.llm;
        traded = traded_with (if crypto then agent.pairs else agent.symbols) live.traded;
      }

  abbrev pub no_overrides : SafeConfigOverrides F
  no_overrides = record {
    interval_minutes = none;
    pairs = none;
    symbols = none;
    market_hours = none;
    decision_history_limit = none;
    risk = record {
      max_position_pct = none;
      daily_loss_limit_pct = none;
      max_drawdown_pct = none;
      consecutive_losses_cooldown_minutes = none;
      max_open_positions = none;
      min_confidence = none;
    };
    execution = record { paper_fee_pct = none; paper_slippage_pct = none };
    llm = record {
      max_tokens = none;
      timeout_seconds = none;
      temperature = none;
      reasoning = none;
    };
  }

  -- `parse_overrides`, or none where it raises
  unfoldable pub parse_overrides : Stored F → Option (SafeConfigOverrides F)
  unfolding is_valid
  parse_overrides Stored.nothing = some no_overrides
  parse_overrides Stored.malformed = none
  parse_overrides (Stored.fields o) = if is_valid o then some o else none

  -- Where the text does not parse, nothing is applied.
  unfoldable pub apply_parsed :
      (String → String) → Bool → Baselines F → Option (SafeConfigOverrides F) → Live F → Live F
  unfolding apply_overrides
  apply_parsed upper crypto b none live = live
  apply_parsed upper crypto b (some o) live = apply_overrides upper crypto b o live

  -- `parse_and_apply`; the agent keeps the previous configuration where it raises
  unfoldable pub parse_and_apply :
      (String → String) → Bool → Baselines F → Stored F → Live F → Live F
  unfolding parse_overrides apply_parsed
  parse_and_apply upper crypto b stored live =
      apply_parsed upper crypto b (parse_overrides stored) live

  unfoldable pub validate_overrides_payload :
      (String → String) → RiskSettings F → Option String → SafeConfigOverrides F → Validated
  unfolding is_valid loosened_risk_fields
  validate_overrides_payload upper base quote o =
      judged (is_valid o) (loosened_risk_fields o.risk base)
        (pairs_not_quoted_in upper (or_else o.pairs []) quote)
