-- ===== src/Backtest.antt =====
-- src/core/backtester.py: stored decisions replayed over candles, through the live risk engine, the
-- live sizing and a paper account. What the code reads of the wall clock, and order ids, are
-- functions of the order's number; an exception of a step ends the replay and is none.
use smarty_trader.Prelude.{
  ℕ, suc, ◌+◌, ◌-◌, ◌*◌, Bool, true, false, not, ◌&&◌, ◌||◌, String, Option, none, some, List, [],
  ◌∷◌, ◌++◌, map, select, first, leb, ltb, nat_beq, ◌==◌, string_eq, is_some, or_else,
  if◌then◌else◌,
}
use smarty_trader.Prelude.Dict.{Dict, lookup, get_or, insert}
use smarty_trader.Prelude.Sort.{sort_by}
use smarty_trader.Float.{Float, ◌⊕◌, ◌⊗◌, ◌<?◌, ◌≤?◌, zero_f}
use smarty_trader.Models.{
  Action, is_buy, TradeSignal, Ohlcv, EventKind, MarketEvent, SymbolContext, OrderSide, OrderResult,
  is_filled, Position, PortfolioState, total_value,
}
use smarty_trader.Symbols.{base_asset}
use smarty_trader.Costs.{Attributes, from_attrs, buy_cost_factor}
use smarty_trader.Tracker.{empty_tracker}
use smarty_trader.Paper.{PaperExecutor, OrderRequest, place_order, update_price}
use smarty_trader.Risk.{RiskSettings, is_rejected}
use smarty_trader.Risk.Trackers.{RiskEngine, new_engine, record_outcome, update_daily_value}
use smarty_trader.Risk.Checks.{evaluate}
use smarty_trader.Risk.Events.{check_event_guard}
use smarty_trader.Sizing.{sizing_cost_model, calculate_quantity, exit_level_breach, ExitReason}
use smarty_trader.Backtest.Timeline.{ReplayDecision, Payload, Event, build_timeline}
use smarty_trader.Backtest.Metrics.{dedupe_consecutive}
pub mod Timeline
pub mod Metrics
pub mod Sequence
mod Tests

pub record SymbolStats (F : Type 0) : Type 0 where
  pub trades : ℕ
  pub wins : ℕ
  pub losses : ℕ
  pub realized_pnl : F

pub record Replay (F : Type 0) : Type 0 where
  pub engine : RiskEngine F
  pub executor : PaperExecutor F
  pub last_close : Dict String F
  pub win_amounts : List F
  pub loss_amounts : List F
  pub per_symbol : Dict String (SymbolStats F)
  pub auto_exits : ℕ
  pub risk_rejected : ℕ
  pub holds : ℕ
  pub event_blocked : ℕ
  pub placed : ℕ

pub record Backtester (F : Type 0) : Type 0 where
  pub settings : RiskSettings F
  pub initial_cash : F
  -- none is "no calendar"
  pub events : Option (List MarketEvent)
  pub event_guard_since : Option ℕ
  pub id_of_order : ℕ → String
  pub wall_clock : ℕ → ℕ
  -- `str.upper`
  pub upper : String → String

abbrev pub day : ℕ
day = 86_400_000_000

abbrev pub names_asset : String → MarketEvent → Bool
names_asset asset e = elim e.asset [ none ↦ false | some a ↦ a == asset ]

abbrev pub concerns : String → MarketEvent → EventKind → Bool
concerns asset e EventKind.macro = true
concerns asset e EventKind.earnings = names_asset asset e
concerns asset e EventKind.delisting = false

abbrev pub is_notice : EventKind → Bool
is_notice EventKind.macro = false
is_notice EventKind.earnings = false
is_notice EventKind.delisting = true

-- the calendar two days around, and the delisting notices up to a day ahead
unfoldable pub context_at : String → String → ℕ → List MarketEvent → SymbolContext
context_at asset symbol ts events = record {
  symbol = symbol;
  now = ts;
  events =
      select
        (λ (e : MarketEvent).
          leb ts (e.at_time + 2 * day) && leb e.at_time (ts + 2 * day) && concerns asset e e.kind)
        events;
  notices =
      select
        (λ (e : MarketEvent). is_notice e.kind && names_asset asset e && leb e.at_time (ts + day))
        events;
  entry_blackout = none;
}

-- `sorted(events, key=lambda e: e.at)`
abbrev pub by_time : List MarketEvent → List MarketEvent
by_time events = sort_by (λ (x y : MarketEvent). ltb x.at_time y.at_time) events

abbrev pub guard_is_on : Option ℕ → ℕ → Bool
guard_is_on none ts = true
guard_is_on (some since) ts = leb since ts

abbrev pub side_of : Action → OrderSide
side_of Action.buy = OrderSide.buy
side_of Action.sell = OrderSide.sell
side_of Action.hold = OrderSide.sell

module _ {F : Type 0} ⦃d : Float F⦄ where
  -- the account of `__init__`, which the four costs of the venue complete
  unfoldable pub new_replay : Backtester F → F → F → F → F → Replay F
  unfolding new_engine
  new_replay b fee slippage minimum fx = record {
    engine = new_engine b.settings;
    executor = record {
      cash = b.initial_cash;
      slippage_pct = slippage;
      fee_pct = fee;
      min_commission = minimum;
      fx_fee_pct = fx;
      positions = [];
      tracker = empty_tracker;
      orders = [];
    };
    last_close = [];
    win_amounts = [];
    loss_amounts = [];
    per_symbol = [];
    auto_exits = 0;
    risk_rejected = 0;
    holds = 0;
    event_blocked = 0;
    placed = 0;
  }

  -- `_event_context`
  unfoldable pub event_context : Backtester F → ReplayDecision F → Option SymbolContext
  unfolding context_at base_asset
  event_context b x = elim b.events [
    | none ↦ none
    | some events ↦
        if is_buy x.action && guard_is_on b.event_guard_since x.decided_at
        then some (context_at (base_asset b.upper x.symbol) x.symbol x.decided_at (by_time events))
        else none
  ]

  abbrev pub positions_of : PaperExecutor F → List (Position F)
  positions_of ex = map (λ (x : String × Position F). x.1) ex.positions

  unfoldable pub portfolio_state : PaperExecutor F → PortfolioState F
  portfolio_state ex = record {
    cash = ex.cash;
    positions = positions_of ex;
    pending_value = zero_f;
  }

  abbrev pub new_stats : SymbolStats F
  new_stats = record { trades = 0; wins = 0; losses = 0; realized_pnl = zero_f }

  unfoldable pub record_closed_trade : String → F → Replay F → Replay F
  record_closed_trade symbol pnl t =
      let old = get_or symbol new_stats t.per_symbol in
      let counted = record old { trades = suc old.trades; realized_pnl = old.realized_pnl ⊕ pnl } in
      if zero_f ≤? pnl
      then record t {
        per_symbol = insert symbol (record counted { wins = suc old.wins }) t.per_symbol;
        win_amounts = t.win_amounts ++ pnl ∷ [];
      }
      else record t {
        per_symbol = insert symbol (record counted { losses = suc old.losses }) t.per_symbol;
        loss_amounts = t.loss_amounts ++ pnl ∷ [];
      }

  -- what a filled order with a realised profit does to the record and to the streak
  unfoldable pub note_order : ℕ → String → OrderResult F → Replay F → Replay F
  unfolding record_closed_trade
  note_order ts symbol o t = elim o.realized_pnl [
    | none ↦ t
    | some pnl ↦
        if is_filled o.status
        then (let noted = record_closed_trade symbol pnl t in
            record noted { engine = record_outcome ts (zero_f ≤? pnl) noted.engine })
        else t
  ]

  unfoldable pub fill :
      Backtester F → ℕ → TradeSignal F → OrderSide → F → F → Replay F → Option (Replay F)
  unfolding note_order
  fill b ts signal side quantity price t =
      let out =
        place_order
          (record {
            symbol = signal.symbol;
            side = side;
            quantity = quantity;
            price = some price;
            decision_id = none;
            stop_loss = signal.stop_loss;
            take_profit = signal.take_profit;
          })
          (b.id_of_order t.placed) (b.wall_clock t.placed) t.executor in
      elim out.0 [
        | none ↦ none
        | some o ↦
            some
              (note_order ts signal.symbol o (record t { executor = out.1; placed = suc t.placed }))
      ]

  -- the signal of a breached level; its text names the level
  abbrev pub exit_signal : String → ℕ → TradeSignal F
  exit_signal symbol ts = record {
    symbol = symbol;
    action = Action.sell;
    confidence = zero_f;
    reasoning = "replay exit level";
    stop_loss = none;
    take_profit = none;
    timestamp = ts;
    is_fallback = false;
  }

  -- an open position of the symbol whose level the mark breaches
  unfoldable pub breached : RiskSettings F → String → F → PaperExecutor F → Option (Position F)
  breached settings symbol mark ex =
      if settings.enforce_exit_levels
      then elim (first (λ (p : Position F). p.symbol == symbol && zero_f <? p.quantity)
          (positions_of ex)) [
            | none ↦ none
            | some p ↦ if is_some (exit_level_breach p mark) then some p else none
          ]
      else none

  -- `_on_candle`
  unfoldable pub on_candle : Backtester F → ℕ → String → Ohlcv F → Replay F → Option (Replay F)
  unfolding breached fill
  on_candle b ts symbol c t =
      let marked = record t {
        last_close = insert symbol c.close t.last_close;
        executor = update_price symbol c.close t.executor;
      } in
      if c.close ≤? zero_f
      then some t
      else elim (breached b.settings symbol c.close marked.executor) [
        | none ↦ some marked
        | some p ↦
            fill b ts (exit_signal symbol ts) OrderSide.sell p.quantity c.close
              (record marked { auto_exits = suc marked.auto_exits })
      ]

  -- `_mark_price`
  unfoldable pub mark_price : String → Replay F → Option F
  mark_price symbol t =
      elim (first (λ (p : Position F). p.symbol == symbol) (positions_of t.executor)) [
        | none ↦ lookup symbol t.last_close
        | some p ↦
            if zero_f <? p.current_price then some p.current_price else lookup symbol t.last_close
      ]

  abbrev pub signal_of : ReplayDecision F → ℕ → TradeSignal F
  signal_of x wall = record {
    symbol = x.symbol;
    action = x.action;
    confidence = x.confidence;
    reasoning = "replay";
    stop_loss = x.stop_loss;
    take_profit = x.take_profit;
    timestamp = wall;
    is_fallback = false;
  }

  abbrev pub attributes : PaperExecutor F → Attributes F
  attributes ex = record {
    slippage_pct = some ex.slippage_pct;
    fee_pct = some ex.fee_pct;
    min_commission = some ex.min_commission;
    fx_fee_pct = some ex.fx_fee_pct;
  }

  abbrev pub one_more_rejected : Replay F → Replay F
  one_more_rejected t = record t { risk_rejected = suc t.risk_rejected }

  -- the event guard's verdict, for a decision that the gate has approved
  unfoldable pub is_blocked : Backtester F → TradeSignal F → Option SymbolContext → Bool
  is_blocked b signal none = false
  is_blocked b signal (some context) =
      is_rejected (check_event_guard b.settings signal (some context) false).verdict

  -- a decision with a price and a quantity: the gate, the guard, the order
  unfoldable pub gate_decision :
      Backtester F → ℕ → ReplayDecision F → F → F → Replay F → Option (Replay F)
  unfolding event_context is_blocked fill portfolio_state
  gate_decision b ts x price quantity t =
      let signal = signal_of x ts in
      let (risk, engine) =
        evaluate ts ts signal (portfolio_state t.executor) (some (quantity ⊗ price)) (some price)
          t.engine in
      let gated = record t { engine = engine } in
      if is_rejected risk.verdict
      then some (one_more_rejected gated)
      else if is_blocked b signal (event_context b x)
      then some (record (one_more_rejected gated) { event_blocked = suc gated.event_blocked })
      else fill b ts signal (side_of x.action) quantity price gated

  -- `_on_decision` for an entry or an exit at a price
  unfoldable pub trade_decision :
      Backtester F → ℕ → ReplayDecision F → F → Replay F → Option (Replay F)
  unfolding gate_decision
  trade_decision b ts x price t = elim (sizing_cost_model (attributes t.executor) none) [
    | none ↦ none
    | some m ↦
        gate_decision b ts x price
          (calculate_quantity b.settings (signal_of x ts) (portfolio_state t.executor) (some price)
            (buy_cost_factor m) (from_attrs (attributes t.executor)) none)
          t
  ]

  unfoldable pub on_decision : Backtester F → ℕ → ReplayDecision F → Replay F → Option (Replay F)
  unfolding trade_decision mark_price
  on_decision b ts x t = elim x.action [
    | Action.hold ↦ some (record t { holds = suc t.holds })
    | _ ↦ elim (mark_price x.symbol t) [
      | none ↦ some (one_more_rejected t)
      | some price ↦
          if price ≤? zero_f then some (one_more_rejected t) else trade_decision b ts x price t
    ]
  ]

  unfoldable pub on_event : Backtester F → Event F → Replay F → Option (Replay F)
  unfolding on_candle on_decision
  on_event b (ts, Payload.candle symbol c) t = on_candle b ts symbol c t
  on_event b (ts, Payload.decision x) t = on_decision b ts x t

  abbrev pub equity_of : Replay F → F
  equity_of t = total_value (portfolio_state t.executor)

  -- after each event the equity feeds the daily tracker and the curve
  abbrev pub valued : ℕ → Replay F → Replay F
  valued ts t = record t { engine = update_daily_value ts (equity_of t) t.engine }

  unfoldable pub replay_events :
      Backtester F → List (Event F) → Replay F → Option (Replay F × List (ℕ × F))
  unfolding on_event portfolio_state
  replay_events b [] t = some (t, [])
  replay_events b (e ∷ rest) t = elim (on_event b e t) [
    | none ↦ none
    | some after ↦ elim (replay_events b rest (valued e.0 after)) [
      | none ↦ none
      | some (final, curve) ↦ some (final, (e.0, equity_of after) ∷ curve)
    ]
  ]

  abbrev pub starting_point : F → List (Event F) → List (ℕ × F)
  starting_point cash [] = []
  starting_point cash (e ∷ rest) = (e.0, cash) ∷ []

  -- `replay`: the final state and the curve without repeated points
  unfoldable pub replay :
      Backtester F
      → List (ReplayDecision F)
      → List (String × List (Ohlcv F))
      → String
      → Replay F
      → Option (Replay F × List (ℕ × F))
  unfolding replay_events build_timeline dedupe_consecutive
  replay b decisions candles timeframe t =
      let events = build_timeline decisions candles timeframe in
      elim (replay_events b events (record t { last_close = [] })) [
        | none ↦ none
        | some (final, curve) ↦
            some (final, dedupe_consecutive (starting_point b.initial_cash events ++ curve))
      ]
