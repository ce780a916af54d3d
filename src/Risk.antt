-- ===== src/Risk.antt =====
-- Pre-trade risk (src/pmrp/risk) over the canonical orders and decisions of src/pmrp/schemas.
pub mod Types
pub mod Engine
pub mod KillSwitches
pub mod Approvals
pub mod Reservations
pub mod Rules
mod Tests
