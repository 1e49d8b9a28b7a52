-- ===== src/Control.antt =====
-- src/core/control_config.py: the overrides that the control plane may store, with their ranges, and
-- the settings of src/core/config.py that they reach.
use Prim.Native.Char.{Char, code}
use Prim.Native.String.{[] as empty, ◌∷◌ as ◌∷ₛ◌}
use smarty_trader.Prelude.{
  ℕ, Bool, true, false, ◌&&◌, ◌||◌, not, String, Option, none, some, List, [], ◌∷◌, ◌++◌, select,
  leb, ltb, nat_beq, ◌==◌, string_eq, if◌then◌else◌,
}
use smarty_trader.Float.{Float, ◌<?◌, ◌≤?◌, zero_f, one_f}
use smarty_trader.Risk.{RiskSettings}
pub mod Apply
pub mod Strip
pub mod Tight
pub mod Saved
mod Tests

pub record AgentConfig : Type 0 where
  pub interval_minutes : ℕ
  pub pairs : List String
  pub symbols : List String
  pub market_hours : Option String
  pub decision_history_limit : ℕ
  pub quote_currency : Option String

pub data ReasoningMode : Type 0 where
  default_mode off low medium high xhigh : ReasoningMode

-- the knobs of `LLMSettings` that an override reaches
pub record LlmKnobs (F : Type 0) : Type 0 where
  pub max_tokens : ℕ
  pub timeout_seconds : ℕ
  pub temperature : F
  pub reasoning : ReasoningMode

pub record PaperCosts (F : Type 0) : Type 0 where
  pub fee_pct : F
  pub slippage_pct : F

-- the untouched YAML values
pub record Baselines (F : Type 0) : Type 0 where
  pub agent : AgentConfig
  pub risk : RiskSettings F
  pub execution : PaperCosts F
  pub llm : LlmKnobs F

pub record RiskOverride (F : Type 0) : Type 0 where
  pub max_position_pct : Option F
  pub daily_loss_limit_pct : Option F
  pub max_drawdown_pct : Option F
  pub consecutive_losses_cooldown_minutes : Option ℕ
  pub max_open_positions : Option ℕ
  pub min_confidence : Option F

pub record ExecutionOverride (F : Type 0) : Type 0 where
  pub paper_fee_pct : Option F
  pub paper_slippage_pct : Option F

pub record LlmOverride (F : Type 0) : Type 0 where
  pub max_tokens : Option ℕ
  pub timeout_seconds : Option ℕ
  pub temperature : Option F
  pub reasoning : Option ReasoningMode

-- A section that is None in Python has `none` in every field here.
pub record SafeConfigOverrides (F : Type 0) : Type 0 where
  pub interval_minutes : Option ℕ
  pub pairs : Option (List String)
  pub symbols : Option (List String)
  pub market_hours : Option String
  pub decision_history_limit : Option ℕ
  pub risk : RiskOverride F
  pub execution : ExecutionOverride F
  pub llm : LlmOverride F

pub data RiskField : Type 0 where
  max_position_pct daily_loss_limit_pct max_drawdown_pct max_open_positions : RiskField
  min_confidence consecutive_losses_cooldown_minutes : RiskField

-- what `validate_overrides_payload` answers
pub data Validated : Type 0 where
  accepted invalid : Validated
  loosens : List RiskField → Validated
  unquoted : List String → Validated

abbrev pub holds : {A : Type 0} → (A → Bool) → Option A → Bool
holds p none = true
holds p (some x) = p x

abbrev has_slash : String → Bool
has_slash empty = false
has_slash (c ∷ₛ s) = nat_beq (code c) 47 || has_slash s

-- `p.split("/")[-1]`
unfoldable pub quote_side : String → String
quote_side empty = empty
quote_side (c ∷ₛ s) =
    let rest = quote_side s in
    if has_slash s then rest else if nat_beq (code c) 47 then s else c ∷ₛ s

unfoldable pub pairs_not_quoted_in : (String → String) → List String → Option String → List String
unfolding quote_side
pairs_not_quoted_in upper pairs none = []
pairs_not_quoted_in upper pairs (some quote) =
    if quote == "" then [] else select (λ p. not (upper (quote_side p) == upper quote)) pairs

-- the same two tests on whole numbers
abbrev pub above_count : ℕ → Option ℕ → Bool
above_count base o = not (holds (λ n. leb n base) o)

abbrev pub below_count : ℕ → Option ℕ → Bool
below_count base o = not (holds (leb base) o)

abbrev named : Bool → RiskField → List RiskField
named loose f = if loose then f ∷ [] else []

module _ {F : Type 0} ⦃d : Float F⦄ where
  -- the ranges that the fields declare
  abbrev pub fraction : F → Bool
  fraction x = zero_f <? x && x ≤? one_f

  abbrev pub within : F → Bool
  within x = zero_f ≤? x && x ≤? one_f

  abbrev pub below_one : F → Bool
  below_one x = zero_f ≤? x && x <? one_f

  unfoldable pub is_risk_valid : RiskOverride F → Bool
  is_risk_valid o =
      holds fraction o.max_position_pct
      && holds fraction o.daily_loss_limit_pct
      && holds fraction o.max_drawdown_pct
      && holds (leb 1) o.max_open_positions
      && holds within o.min_confidence

  unfoldable pub is_valid : SafeConfigOverrides F → Bool
  unfolding is_risk_valid
  is_valid o =
      holds (λ n. leb 1 n && leb n 1_440) o.interval_minutes
      && holds (λ n. leb n 100) o.decision_history_limit
      && is_risk_valid o.risk
      && holds below_one o.execution.paper_fee_pct
      && holds below_one o.execution.paper_slippage_pct
      && holds (λ n. leb 1_024 n && leb n 65_536) o.llm.max_tokens
      && holds (λ n. leb 30 n && leb n 3_600) o.llm.timeout_seconds
      && holds within o.llm.temperature

  -- `_TIGHTER`: a limit may only go down, the confidence and the cooldown only up.
  abbrev pub above_base : F → Option F → Bool
  above_base base o = not (holds (λ x. not (base <? x)) o)

  abbrev pub below_base : F → Option F → Bool
  below_base base o = not (holds (λ x. not (x <? base)) o)

  unfoldable pub loosened_risk_fields : RiskOverride F → RiskSettings F → List RiskField
  loosened_risk_fields o b =
      named (above_base b.max_position_pct o.max_position_pct) RiskField.max_position_pct
      ++ named (above_base b.daily_loss_limit_pct o.daily_loss_limit_pct)
          RiskField.daily_loss_limit_pct
      ++ named (above_base b.max_drawdown_pct o.max_drawdown_pct) RiskField.max_drawdown_pct
      ++ named (above_count b.max_open_positions o.max_open_positions) RiskField.max_open_positions
      ++ named (below_base b.min_confidence o.min_confidence) RiskField.min_confidence
      ++ named
          (below_count b.consecutive_losses_cooldown_minutes o.consecutive_losses_cooldown_minutes)
          RiskField.consecutive_losses_cooldown_minutes
