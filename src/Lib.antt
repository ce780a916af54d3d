-- ===== src/Lib.antt =====
-- Verification of the prediction market research platform (Python, the package pmrp).
--
-- The platform is a modular monolith. Commands reach its components through a dispatcher that
-- guards against repeats; events go between components over an in-process bus; strategies propose
-- orders, which the risk engine approves or rejects; approved orders are simulated against order
-- books, and a portfolio keeps balances from a journal. This library models the commands, the bus,
-- the risk engine with what its approvals authorize, the order books, the replay, the lifecycles and
-- restarts of strategies, and the accounting of fills, settlements, transfers and balances. The
-- other parts are not modelled.
--
-- Files, with the code that each is about (paths from the repository's root):
--   Common: Python's str, dict, sorted and exceptions, and numbers, for all parts.
--   Commands: src/pmrp/commands. Names are the patterns of command types; Types the envelopes,
--     statuses and decisions; Registry the handler registry; Hook the in-memory idempotency hook,
--     with its table (Hook/Table) and methods (Hook/Laws); Dispatch the dispatcher, with repeats
--     (Dispatch/Repeat) and concurrent dispatches (Dispatch/Interleaving).
--   Bus: src/pmrp/bus. Subscription is one bounded queue (Subscription/Fifo its laws); InProcess
--     the bus, with publishing (InProcess/Delivery), the invariant (InProcess/Invariant), the order
--     of deliveries (InProcess/DeliveryOrder) and the closing (InProcess/Closing).
--   Simulation: src/pmrp/simulation. MarketData is the canonical order book
--     (src/pmrp/schemas/market_data.py); OrderBook the projection of deltas, with prices after the
--     sort (OrderBook/Prices), strict order (OrderBook/Strict), the change of a level
--     (OrderBook/Projection), one delta (OrderBook/Delta) and a run of them (OrderBook/Replay).
--   Risk: src/pmrp/risk. Types are the canonical intents and decisions (src/pmrp/schemas/orders.py
--     and risk.py); Engine the risk engine, with its configuration (Engine/Configuration), the loop
--     over the rules (Engine/Evaluation) and the decision (Engine/Decision); Approvals the order
--     that a decision authorizes (Approvals/Authority); Reservations the capital held for it
--     (Reservations/Cover); KillSwitches the active switches of an intent (KillSwitches/Clear).
--   Strategies: src/pmrp/strategies. Lifecycle is the transition table, with whole lifetimes
--     (Lifecycle/Lifetime); Restart the restart policies, with the bounded one's grants
--     (Restart/Bounded).
--   Replay: src/pmrp/replay. Sorter is the order of events; Clock the bounded clock
--     (src/pmrp/clock/replay.py) and its advance to an event; Engine the replay itself
--     (Engine/Ordered, Engine/Completion).
--   Portfolio: src/pmrp/portfolio over src/pmrp/schemas/portfolio.py. Types are the records; Entry
--     the constructors with their validators (Entry/Balanced); Balances the cash balances, with
--     single entries and replays (Balances/Movement), second replays (Balances/Again) and observed
--     corrections (Balances/Correction); Average the weighted average of a fill (Average/Exact,
--     Average/Closing, over Average/Parts); Decimals the context of decimals; Positions the projection of a fill (Positions/Projection); Journal its entry
--     (Journal/Accepted, Matching, Balanced, Posting); Accounting all three together; Settlement a
--     settlement (Settlement/Amounts, Lines, Applied, Once) and its correction (Settlement/Correction, Corrected,
--     Replacement); Transfers the transfers (Transfers/Guards, Transfers/Conservation).
--   Risk/Rules: src/pmrp/risk/rules, four of the rules over the context that they read, with when
--     each passes (Rules/Conditions) and when an engine with them approves (Rules/Approval).
--
-- Conventions. A method takes the object's state and returns the next one. A call that may raise
-- returns a Result, or an Option where no exception is told apart. A text is a list of code points
-- and a time a number of microseconds. Hashes (canonical_sha256), handlers, rules, the clock and
-- Python's isinstance are parameters. Decimal values are integers in units of a fixed power of ten.
-- In the accounting of fills and settlements the products, the differences and the quotient of
-- amounts go through a decimal context, a parameter (Portfolio/Decimals): it rounds the magnitude of a
-- result and is exact up to a limit, as Python's default context of 28 digits is, and the theorems
-- there have as a hypothesis that the amounts fit it. Elsewhere (the totals of an entry, balances,
-- prices and limits of the risk rules) sums, differences and comparisons are exact, which assumes that
-- they fit the 28 digits. A product with 1 or -1 and a negation are exact, since the amount is already
-- rounded. Money is in the product of the units of quantity and price. Checks that an
-- argument has its declared class (isinstance, type(x) is str) always pass, since the model is typed.
--
-- Fuel. The one loop on fuel is trim_loop, with as many rounds as the table has entries; that is
-- enough, since each round that goes on takes one entry away.
--
-- Not modelled: profit and loss and the reconciliation of the portfolio, the fill and exchange
-- models, the other risk rules (they are parameters of the engine), the strategy runtime, schema
-- parsing, and consumer tasks of the bus; and the storage layer, migrations and exchange adapters,
-- which are input and output.
pub mod Common
pub mod Bus
pub mod Commands
pub mod Portfolio
pub mod Replay
pub mod Risk
pub mod Simulation
pub mod Strategies
