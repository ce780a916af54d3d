-- ===== src/Bus.antt =====
-- The in-process event bus (src/pmrp/bus).
pub mod Subscription
pub mod InProcess
mod Tests
