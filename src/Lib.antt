-- ===== src/Lib.antt =====
-- The trading core of polyfast, a bot for the five-minute "up or down" events of a prediction
-- market. A strategy engine decides on an entry, the order executor checks and sends the order and
-- the tracker keeps the position; the exit evaluator watches it and the exit executor sells it.
-- Every part below is a model of the Python code under backend/, operation by operation.
--
-- Files and code:
--   Position/State, Position/Record: backend/execution/position_record.py, close_reason.py.
--     PositionState, ALLOWED_TRANSITIONS (`allowed`), PositionRecord and its methods.
--   Position/Fees: backend/execution/fee_calculator.py, with bounds in Fees/Bounds.
--   Position/Tracker: backend/execution/position_tracker.py. One function per method; Discipline
--     says what the counters stand for and which calls the clients make, Invariant that they
--     agree.
--   Balance: backend/execution/balance_manager.py.
--   Orders/Validator, Orders/Executor: backend/execution/order_validator.py, order_executor.py.
--     `prepare` is the part of `execute` up to the order, `send` the paper or the live path.
--   Exit/Evaluator, Exit/Executor: backend/execution/exit_evaluator.py, exit_executor.py.
--   Strategy: backend/strategy. Context has the values that a decision reads, Rules the six
--     rules, Engine the merge of their results (`merge_decision`) and `RuleEngine.evaluate`.
--   Registry: backend/registry. Status and Service are the life of an event, Sync is
--     SafeSync.sync with its two loops, `take_candidates` and `sweep`.
--   Ptb: backend/ptb/models.py and fetcher.py, the reference price of an event and its retries.
--   Claims: backend/execution/claim_manager.py.
--   Settings: backend/settings and backend/orchestrator/eligibility_gate.py.
--   Settlement: backend/orchestrator/settlement.py. Retry is SettlementRetryState, World what the
--     pass asks of the exchange and its readings, Pass the loops of `process_settlements`.
--   Persistence: backend/persistence. Columns has the texts of columns, Database what the stores
--     ask of SQLite and the form of a load; Positions (a row in Row), Claims, Prices and Coins
--     are the four stores, Stored what a load gives after a save.
--   Orchestrator/Restore: Orchestrator.restore_state in backend/orchestrator/wiring.py.
--   Market: backend/market_data/live_price.py and ws_price_bridge.py (Bridge), and
--     backend/orchestrator/cleanup.py (Cleanup). Runs has the calls of the pipeline as data, and
--     one event's view of them; Sent the quotes that were accepted.
--   Orchestrator/ExitCycle: backend/orchestrator/exit_orchestrator.py, the cycle that runs the
--     evaluator, the seller, the settlement and the reconciliation over one state.
--   Market/Rtds: backend/market_data/rtds_client.py, the connection and its subscriptions;
--     Reconnect its end.
--   Market/CoinPrices: backend/market_data/coin_price_client.py, with the connections in Stream.
--     Market/Mapping: backend/market_data/mapping.py.
--   Market/Subscriptions: backend/orchestrator/subscription_manager.py; Routed, InStep and Active
--     what it keeps.
--   Discovery: backend/discovery. Parse is DiscoveredEvent.from_api_event, Engine the pages and
--     the scan, Loop backend/orchestrator/discovery_loop.py.
--   Orchestrator/Slots: the five-minute slots and the start in a slug, which wiring.py,
--     evaluation_loop.py and engine.py each compute.
--   Orchestrator/Events: Orchestrator._handle_discovered_events in
--     backend/orchestrator/wiring.py, from the gate to prices, subscriptions and requests for the
--     price to beat; Live says which event an asset trades then.
--   Orchestrator/Evaluation: backend/orchestrator/evaluation_loop.py. Lookup fills a context,
--     Dispatch says which orders go out, Switch that none do with the dispatch off.
-- Base holds lists, dictionaries and outcomes, Float the number type. Tests and Samples run the
-- functions on concrete values.
--
-- Conventions:
--   A float is an element of a type with the operations that the code calls (Float/Ops). What a
--   bound needs of rounding is a law (Float/Laws), each true of IEEE numbers that are finite;
--   Float/Fixed is an instance with two digits, in which the tests run.
--   A method takes the state and gives its outcome with the state that it leaves, also where it
--   raises, so a partial write before an exception is seen. Times are numbers in a unit of the
--   clock. A dict is a list of pairs in insertion order.
--   The exchange's SDK and the function that fetches the balance are not part of the program: their
--   replies are arguments. Between an order and its reply no other task runs in the model.
--   Fuel is used in three loops with waits that are positive: the retries of the price to beat and the
--   reconnection take a turn for each second up to their deadline and one more, the scans of a slot
--   301. The theorems say that this is enough. All else is total as it is.
--
-- Not modelled: the start, pause and stop of the loops and the supervisor, the startup guard,
-- accounting and snapshots, logging, health incidents, the texts of details and errors, HTTP, the
-- WebSocket clients and the user interface.
pub mod Base
pub mod Float
pub mod Position
pub mod Balance
pub mod Orders
pub mod Exit
pub mod Strategy
pub mod Registry
pub mod Ptb
pub mod Claims
pub mod Settings
pub mod Settlement
pub mod Persistence
pub mod Orchestrator
pub mod Market
pub mod Discovery
