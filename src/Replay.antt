-- ===== src/Replay.antt =====
-- Acquiring a replay and estimating its cost: api/src/replay.
pub mod Lines
pub mod Estimate
pub mod Read
pub mod Fetch
