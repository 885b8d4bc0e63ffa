-- ===== src/Lib.antt =====
-- A model of Keel-Trader: the order path of core/ with its writer lock and its guard of sales, the
-- strategy and the features behind the orders, the gate of research/ that decides whether a policy
-- may be promoted, with the policies and the searches over it, and the market data and the
-- forecasts that they are made from.
--
-- Base holds lists, options, texts and integers over the native numbers, Double the operations of
-- a Python float as an interface with IEEE 754's laws of order, and Double.Fixed a concrete
-- instance with which the model runs. Outcome lists the exceptions.
--
-- Config is core/config.py and Account.Name the account names and paths of
-- core/alpaca_account_lock.py and core/state_paths.py. Account.Lock is `acquire_alpaca_account_lock`
-- and `AlpacaAccountLock.release`, with the operating system's locks as a table; Exclusion runs any
-- number of processes. Singleton is core/alpaca_singleton.py: `World` is all that one process reads
-- and writes, Buys the buy memory, Guard `guard_sell_against_death_spiral`, Startup
-- `enforce_live_singleton`; Ledger says what the memory is for, a map from symbols to purchases. Broker is core/broker.py with `submit_order`, the one way to an
-- executor, and Server the POST handler of core/trading_server.py over it.
--
-- Strategy is models/xgb/strategy.py, from scores to target weights. Runner is core/paper_runner.py,
-- which rehearses the guards on the strategy's targets, and Kraken is core/kraken_paper.py, which
-- trades them through the broker on live bars, with its loop of ticks in Kraken.Loop; Kraken also has
-- core/kraken_executor.py and the snapshots of core/kraken_feed.py. The engine that fills orders is a parameter.
--
-- Gate is research/eval.py: `run_cell` runs the windows of one slippage with its early exits and
-- `evaluate` all slippages, with a run of the simulator as a parameter; Offsets draws where windows
-- start and Window runs one over the simulator's environment, a parameter too. Search is
-- research/autoresearch.py, the trials of configurations over the gate, and Technical is
-- forecast/technical.py, the features of each bar. Features is the contract of
-- forecast/features.py and Policy the linear policy of models/rl/policy.py. Policies are the
-- policies of research/policies.py, models/xgb/backtest.py, research/feature_search.py and
-- research/walkforward.py, and Experiment runs them over the gate: the search for a signal, the
-- walk over folds and the backtest.
--
-- MarketBin is sim/binpack.py, a file as the list of its bytes. How `struct` packs a float is a
-- parameter, an interface with one law: what is packed is read as the nearest single. Build is
-- the part of sim/kraken_data.py that goes from series to a file, by the alignment of History, the
-- features of Technical and the writer's branch on arrays; Build.Forecasts joins the forecast cache
-- with the forecast columns of `compute_features` in sim/export_data.py, a pandas frame as the list
-- of its rows, and Build.Sample is sim/make_sample_data.py. Build.Export and Build.Merge are the
-- export from CSV files in sim/export_data.py, with what pandas sorts and rolls as a parameter.
--
-- History is sim/kraken_data.py and sim/universe.py, from the pages of an exchange or a dump to
-- aligned bars, with `series_by_symbol` of forecast/build_kraken_cache.py, and Forecast the cache of
-- forecast/build_cache.py with the rows of forecast/chronos.py and the reader in
-- sim/export_data.py; what the exchange and the model answer are parameters. Simulator is
-- sim/keel_sim.py over the C library, a parameter that answers by the calls before: the life of its
-- objects, and Simulator.Drive what steps and reads an environment. Training is models/xgb/train.py
-- in Labels and models/rl/train.py in Rollout, which drives that environment; what xgboost and
-- torch compute is a parameter.
--
-- Loops are structural recursion on lists. The sizing loop of Strategy has fuel, one turn more than
-- there are names, and each turn but the last caps a name, so the fuel suffices. The pages of History
-- have fuel, and a page that is not the last moves the cursor by two bars. The batches of Forecast
-- have as much fuel as there are anchors, and each takes one at least.
-- A call is one step: the code holds a lock while it runs. Texts are ASCII.
--
-- Not modelled: the simulator in C (sim/src), what torch, xgboost and Chronos compute, the statistics of
-- research/residual_analysis.py, command lines, downloads, and the text of messages.
pub mod Base
pub mod Double
pub mod Config
pub mod Outcome
pub mod Account
pub mod Singleton
pub mod Broker
pub mod Server
pub mod Strategy
pub mod Runner
pub mod Kraken
pub mod Gate
pub mod Technical
pub mod Features
pub mod Policy
pub mod Search
pub mod MarketBin
pub mod Policies
pub mod Experiment
pub mod History
pub mod Forecast
pub mod Simulator
pub mod Build
pub mod Training
pub mod Tests
