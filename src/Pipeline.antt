-- ===== src/Pipeline.antt =====
-- src/core/decision_pipeline.py: one decision cycle of `DecisionPipeline`, with the sleeves of
-- src/core/sleeves.py as far as the cycle asks them. The executor is an interface, `Venue`; what the
-- data provider, the language model, the storage, the context reader and the clock answer in a cycle
-- is `Answers`. Risk engines are shared between pipelines and sleeves, so they live in a store and
-- are named by number. The state carries a log of questions to the model and of orders, which the code
-- does not keep.
pub mod Exits
pub mod Closing
pub mod Decide
pub mod Run
pub mod Effects
pub mod Orderly
pub mod Ordered
pub mod Exiting
pub mod Gated
pub mod CloseAll
mod Tests
use smarty_trader.Prelude.{
  ℕ, ◌+◌, Bool, true, false, String, Option, none, some, List, [], ◌∷◌, ◌&&◌, not, ◌==◌, string_eq,
  nat_eq, leb, any, if◌then◌else◌,
}
use smarty_trader.Prelude.Dict.{Dict}
use smarty_trader.Float.{Float, ◌<?◌, ◌≤?◌, zero_f}
use smarty_trader.Models.{
  TradeSignal, Position, PortfolioState, OrderSide, OrderResult, RiskResult, Ohlcv, SymbolContext,
  is_filled,
}
use smarty_trader.Costs.{CostModel}
use smarty_trader.Paper.{OrderRequest}
use smarty_trader.Risk.Trackers.{RiskEngine, record_outcome}
use smarty_trader.Sizing.{ExitReason}

-- `Executor`: a method that may raise gives an option; the optional hooks answer for venues that
-- lack them too.
pub record Venue (F : Type 0) (S : Type 0) : Type 0 where
  pub positions : S → Option (List (Position F))
  pub portfolio : S → Option (PortfolioState F)
  pub place_order : OrderRequest F → S → Option (OrderResult F) × S
  pub update_price : String → F → S → S
  -- `sizing_cost_model(executor)`, of the attributes that the executor has at that time
  pub sizing_costs : S → CostModel F
  pub working_order_sides : String → S → List OrderSide

pub record Snapshot (F : Type 0) : Type 0 where
  pub candles : List (Ohlcv F)
  pub fetched_at : ℕ

-- `Ownership`
pub record Ownership : Type 0 where
  pub strategy : String
  pub opened_at : Option ℕ

pub record Answers (F : Type 0) : Type 0 where
  -- `none` where the call raises
  pub snapshot : Option (Snapshot F)
  pub ownership : Option (Option Ownership)
  pub sleeve_portfolio : Option (PortfolioState F)
  pub indicators_computed : Bool
  pub stored_decision_at : Option ℕ
  -- `none` without a reader; then the context, or `none` where it could not be read
  pub context : Option (Option SymbolContext)
  pub signal : TradeSignal F
  pub decision_id : Option ℕ
  pub gate_now : ℕ
  pub cooldown_now : ℕ
  pub outcome_now : ℕ

-- `SleeveBook`: the engine of a sleeve, the backstop and the holding limits, in microseconds
pub record Sleeves (F : Type 0) : Type 0 where
  pub engine_of : Option String → Option ℕ
  pub backstop : Option ℕ
  pub backstop_limit : F
  pub max_holding : String → Option ℕ
  pub per_sleeve_books : Bool

pub record Setup (F : Type 0) : Type 0 where
  pub own : ℕ
  pub strategy : Option String
  pub decide_on_new_bar_only : Bool
  pub sleeves : Option (Sleeves F)

pub data Effect (F : Type 0) : Type 0 where
  asked : Effect F
  placed : OrderRequest F → Effect F

pub record Cycle (F : Type 0) (S : Type 0) : Type 0 where
  pub engines : ℕ → RiskEngine F
  pub venue : S
  pub last_decision_at : Dict String ℕ
  pub log : List (Effect F)

pub data CycleError : Type 0 where
  fetch_failed no_market_data ownership_failed indicators_failed portfolio_failed : CycleError
  no_price execution_failed close_failed : CycleError

pub data SkipReason : Type 0 where
  awaiting_bar order_working exit_order_working : SkipReason
  held_by : String → SkipReason

pub record PipelineResult (F : Type 0) : Type 0 where
  pub signal : Option (TradeSignal F)
  pub risk_result : Option RiskResult
  pub order_result : Option (OrderResult F)
  pub error : Option CycleError
  pub decision_id : Option ℕ
  pub auto_exit : Bool
  pub exit_reason : Option ExitReason
  pub skip_reason : Option SkipReason
  pub strategy : Option String

abbrev pub blank : {F : Type 0} → PipelineResult F
blank = record {
  signal = none;
  risk_result = none;
  order_result = none;
  error = none;
  decision_id = none;
  auto_exit = false;
  exit_reason = none;
  skip_reason = none;
  strategy = none;
}

-- a result with the state after it
abbrev pub Outcome : Type 0 → Type 0 → Type 0
Outcome F S = PipelineResult F × Cycle F S

abbrev pub same_side : OrderSide → OrderSide → Bool
same_side OrderSide.buy OrderSide.buy = true
same_side OrderSide.buy OrderSide.sell = false
same_side OrderSide.sell OrderSide.buy = false
same_side OrderSide.sell OrderSide.sell = true

-- the engine that a closing fill counts for
unfoldable pub outcome_engine : {F : Type 0} → Setup F → Option String → ℕ
outcome_engine p strategy = elim p.sleeves [
  | none ↦ p.own
  | some b ↦ elim (b.engine_of strategy) [ none ↦ p.own | some i ↦ i ]
]

module _ {F S : Type 0} ⦃d : Float F⦄ where
  abbrev pub put_engine : ℕ → RiskEngine F → Cycle F S → Cycle F S
  put_engine i e c = record c { engines = λ j. if j == i then e else c.engines j }

  -- `_order_working`
  unfoldable pub is_order_working : Venue F S → String → OrderSide → Cycle F S → Bool
  is_order_working v symbol side c = any (same_side side) (v.working_order_sides symbol c.venue)

  -- `self.executor.place_order(...)`; `none` is an exception
  unfoldable pub send : Venue F S → OrderRequest F → Cycle F S → Option (OrderResult F) × Cycle F S
  send v r c =
      let (o, s) = v.place_order r c.venue in
      (o, record c { venue = s; log = Effect.placed r ∷ c.log })

  -- `_mark_positions`
  unfoldable pub mark_positions : Venue F S → String → Ohlcv F → Cycle F S → Cycle F S
  mark_positions v symbol bar c =
      if bar.close ≤? zero_f
      then c
      else record c { venue = v.update_price symbol bar.close c.venue }

  -- `_record_outcome`
  unfoldable pub note_outcome : Setup F → Option String → ℕ → Bool → Cycle F S → Cycle F S
  unfolding outcome_engine
  note_outcome p strategy now won c =
      let i = outcome_engine p strategy in put_engine i (record_outcome now won (c.engines i)) c

  -- only a fill with a realised profit counts
  unfoldable pub note_fill : Setup F → Option String → ℕ → OrderResult F → Cycle F S → Cycle F S
  unfolding note_outcome
  note_fill p strategy now o c = elim o.realized_pnl [
    | none ↦ c
    | some pnl ↦ if is_filled o.status then note_outcome p strategy now (zero_f ≤? pnl) c else c
  ]
