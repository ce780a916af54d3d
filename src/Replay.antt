-- ===== src/Replay.antt =====
-- Deterministic replay (src/pmrp/replay, with the replay clock of src/pmrp/clock).
pub mod Sorter
pub mod Clock
pub mod Engine
mod Tests
