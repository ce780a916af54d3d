-- ===== src/Commands.antt =====
-- Commands (src/pmrp/commands): the handler registry, the idempotency hook and the dispatcher.
pub mod Names
pub mod Types
pub mod Registry
pub mod Hook
pub mod Dispatch
mod Tests
