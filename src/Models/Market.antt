-- ===== src/Models/Market.antt =====
-- src/core/models.py: signals, verdicts, candles and calendar events.
use smarty_trader.Prelude.{ℕ, Bool, String, Option, List}

pub data Action : Type 0 where
  buy sell hold : Action

abbrev pub is_buy : Action → Bool
is_buy Action.buy = Bool.true
is_buy Action.sell = Bool.false
is_buy Action.hold = Bool.false

pub record TradeSignal (F : Type 0) : Type 0 where
  pub symbol : String
  pub action : Action
  pub confidence : F
  pub reasoning : String
  pub stop_loss : Option F
  pub take_profit : Option F
  pub timestamp : ℕ
  pub is_fallback : Bool

pub data RiskVerdict : Type 0 where
  approved rejected : RiskVerdict

-- The rule behind each text that the risk engine formats. The texts' figures are left out.
pub data Reason : Type 0 where
  low_confidence max_positions no_value at_max_size oversized daily_loss drawdown : Reason
  cooldown stop_required stop_not_below target_not_above stop_too_far nothing_to_sell : Reason
  backstop context_unavailable delisting_notice macro_event earnings_release : Reason

pub record RiskResult : Type 0 where
  pub verdict : RiskVerdict
  pub reason : Option Reason

pub record Ohlcv (F : Type 0) : Type 0 where
  pub timestamp : Option ℕ
  pub open_price : F
  pub high : F
  pub low : F
  pub close : F
  pub volume : F

pub data EventKind : Type 0 where
  macro earnings delisting : EventKind

pub data EventImportance : Type 0 where
  low medium high : EventImportance

abbrev pub rank : EventImportance → ℕ
rank EventImportance.low = 0
rank EventImportance.medium = 1
rank EventImportance.high = 2

pub record MarketEvent : Type 0 where
  pub kind : EventKind
  pub at_time : ℕ
  pub title : String
  pub asset : Option String
  pub currency : Option String
  pub importance : EventImportance

-- The fields that the risk engine reads: the events and notices of one symbol at one time.
pub record SymbolContext : Type 0 where
  pub symbol : String
  pub now : ℕ
  pub events : List MarketEvent
  pub notices : List MarketEvent
  pub entry_blackout : Option Reason
