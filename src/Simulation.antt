-- ===== src/Simulation.antt =====
-- Simulated trading (src/pmrp/simulation) over the canonical market data of src/pmrp/schemas.
pub mod MarketData
pub mod OrderBook
mod Tests
