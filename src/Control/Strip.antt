-- ===== src/Control/Strip.antt =====
-- `strip_noop_overrides`: what is stored of a payload.
use smarty_trader.Prelude.{
  ℕ, Bool, true, false, ◌&&◌, String, Option, none, some, List, [], ◌∷◌, ◌==◌, string_eq, nat_eq,
  nat_beq, if◌then◌else◌,
}
use smarty_trader.Float.{Float, ◌=?◌}
use smarty_trader.Control.{
  ReasoningMode, LlmKnobs, PaperCosts, Baselines, RiskOverride, ExecutionOverride, LlmOverride,
  SafeConfigOverrides,
}
use smarty_trader.Risk.{RiskSettings}

-- a field that says what the YAML says is dropped
abbrev pub drop_same : {A : Type 0} → (A → A → Bool) → A → Option A → Option A
drop_same same base none = none
drop_same same base (some x) = if same x base then none else some x

-- the same, for a YAML value that may be None
abbrev pub drop_same_option : {A : Type 0} → (A → A → Bool) → Option A → Option A → Option A
drop_same_option same none o = o
drop_same_option same (some base) o = drop_same same base o

abbrev pub same_texts : List String → List String → Bool
same_texts [] [] = true
same_texts [] (y ∷ ys) = false
same_texts (x ∷ xs) [] = false
same_texts (x ∷ xs) (y ∷ ys) = x == y && same_texts xs ys

abbrev mode_number : ReasoningMode → ℕ
mode_number ReasoningMode.default_mode = 0
mode_number ReasoningMode.off = 1
mode_number ReasoningMode.low = 2
mode_number ReasoningMode.medium = 3
mode_number ReasoningMode.high = 4
mode_number ReasoningMode.xhigh = 5

abbrev pub same_mode : ReasoningMode → ReasoningMode → Bool
same_mode m n = nat_beq (mode_number m) (mode_number n)

module _ {F : Type 0} ⦃d : Float F⦄ where
  unfoldable pub strip_risk : RiskSettings F → RiskOverride F → RiskOverride F
  strip_risk b o = record {
    max_position_pct = drop_same ◌=?◌ b.max_position_pct o.max_position_pct;
    daily_loss_limit_pct = drop_same ◌=?◌ b.daily_loss_limit_pct o.daily_loss_limit_pct;
    max_drawdown_pct = drop_same ◌=?◌ b.max_drawdown_pct o.max_drawdown_pct;
    consecutive_losses_cooldown_minutes =
        drop_same nat_beq b.consecutive_losses_cooldown_minutes
          o.consecutive_losses_cooldown_minutes;
    max_open_positions = drop_same nat_beq b.max_open_positions o.max_open_positions;
    min_confidence = drop_same ◌=?◌ b.min_confidence o.min_confidence;
  }

  unfoldable pub strip_execution : PaperCosts F → ExecutionOverride F → ExecutionOverride F
  strip_execution b o = record {
    paper_fee_pct = drop_same ◌=?◌ b.fee_pct o.paper_fee_pct;
    paper_slippage_pct = drop_same ◌=?◌ b.slippage_pct o.paper_slippage_pct;
  }

  unfoldable pub strip_llm : LlmKnobs F → LlmOverride F → LlmOverride F
  strip_llm b o = record {
    max_tokens = drop_same nat_beq b.max_tokens o.max_tokens;
    timeout_seconds = drop_same nat_beq b.timeout_seconds o.timeout_seconds;
    temperature = drop_same ◌=?◌ b.temperature o.temperature;
    reasoning = drop_same same_mode b.reasoning o.reasoning;
  }

  unfoldable pub strip_noop_overrides : Baselines F → SafeConfigOverrides F → SafeConfigOverrides F
  unfolding strip_risk strip_execution strip_llm
  strip_noop_overrides b o = record {
    interval_minutes = drop_same nat_beq b.agent.interval_minutes o.interval_minutes;
    pairs = drop_same same_texts b.agent.pairs o.pairs;
    symbols = drop_same same_texts b.agent.symbols o.symbols;
    market_hours = drop_same_option ◌==◌ b.agent.market_hours o.market_hours;
    decision_history_limit =
        drop_same nat_beq b.agent.decision_history_limit o.decision_history_limit;
    risk = strip_risk b.risk o.risk;
    execution = strip_execution b.execution o.execution;
    llm = strip_llm b.llm o.llm;
  }
