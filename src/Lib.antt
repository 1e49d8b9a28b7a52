-- ===== src/Lib.antt =====
-- The trading agents of smartyTrader, from the account's ledger to the gate before every order.
--
-- A cycle of an agent sizes a signal (`calculate_quantity`), asks the risk engine (`evaluate`), and
-- sends the order to an executor, whose ledger of lots attributes profit to entry decisions. The
-- files follow these parts:
--   Models    src/core/models.py: signals, verdicts, positions, orders, events
--   Costs     src/core/costs.py: the fee schedule and the inverse that sizing uses
--   Tracker   src/execution/position_tracker.py: lots, first in first out; booking and replay of fills
--   Paper     src/execution/paper_executor.py: the simulated account over the tracker
--   Risk      src/core/risk_engine.py with the risk settings of src/core/config.py: daily loss,
--             high-water mark, loss streak, the checks of the gate, the event guard
--   Sizing    src/core/decision_pipeline.py, the rules at its end that the backtester shares
--   Pipeline  src/core/decision_pipeline.py: the decision cycle (`run_cycle` is `DecisionPipeline.run`),
--             with what it asks of src/core/sleeves.py
--   Candles   src/analysis/candles.py: timeframes, closed bars
--   Screener  src/analysis/screener.py: liquidity floor, volatility band, ranking
--   Watchlist src/core/watchlist.py and src/core/storage/watchlist.py: the capped dynamic symbols, with
--             the jobs of src/core/runner.py that install them
--   Control   src/core/control_config.py: validation, storing and application of overrides
--   Books     src/core/sleeves.py: owners of positions, allocation, books and limits of the sleeves
--   Rehydration src/core/rehydration.py: what a restart restores
--   Symbols, Reconcile  src/execution/ccxt_executor.py: orders, the two phases of open ones
--   Protection  src/execution/protective_orders.py: the trigger orders that wait at the venue
--   Baselines src/analysis/baselines.py: the returns that a strategy is compared with
--   Backtest  src/core/backtester.py: stored decisions over candles, its timeline and its metrics
--   Prelude, Float   the helpers; the arithmetic
-- The cycle meets an executor through the interface `Venue`, which the paper account fills in the tests;
-- what the provider, the model, the storage and the clock answer in a cycle is the record `Answers`.
-- Every operation of a class is a function that takes the object's fields and gives them after it; an
-- exception is `none`.
--
-- Numbers. A Python float is an element of a type with the operations of `Float`, of which only the
-- order laws of IEEE 754 are assumed (`IsOrdered`), and those where a theorem says so. Statements
-- about sums are over the instance `fixed`: integers of 10^-12, with products and quotients cut off.
-- It satisfies the same laws, and every rounding to 1e-8 that the code does is exact in it.
--
-- Loops. The loop that consumes lots is recursion on fuel, one more than the number of lots;
-- Tracker.Loop shows that the loop's own test ends it. All other loops are recursion on a list.
--
-- Not modelled: the agents around the cycle; of the venue executors the cancellation, the cash and
-- the markets of ccxt, and all of Saxo and XTB; logs and the texts of reasons, which are
-- constructors here; order ids and the clock, which are arguments; the report of the backtester;
-- prompts, storage, dashboards and the network clients, which are I/O.
pub mod Prelude
pub mod Float
pub mod Models
pub mod Costs
pub mod Tracker
pub mod Paper
pub mod Risk
pub mod Sizing
pub mod Control
pub mod Candles
pub mod Symbols
pub mod Screener
pub mod Watchlist
pub mod Pipeline
pub mod Books
pub mod Backtest
pub mod Protection
pub mod Reconcile
pub mod Baselines
pub mod Rehydration
