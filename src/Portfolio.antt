-- ===== src/Portfolio.antt =====
-- Portfolio accounting (src/pmrp/portfolio) over the canonical records of src/pmrp/schemas.
pub mod Decimals
pub mod Types
pub mod Entry
pub mod Balances
pub mod Average
pub mod Positions
pub mod Journal
pub mod Accounting
pub mod Settlement
pub mod Transfers
pub mod Tests
