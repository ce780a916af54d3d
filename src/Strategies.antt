-- ===== src/Strategies.antt =====
-- Strategy lifecycles and restarts (src/pmrp/strategies).
pub mod Lifecycle
pub mod Restart
mod Tests
