-- ===== src/Store.antt =====
-- The statements that the API makes against the database: api/src/store.ts. A moment in the
-- database is a number of microseconds; one that the API shows is a number of milliseconds.
pub mod Windows
pub mod Replays
pub mod Jobs
pub mod Cursor
pub mod Analyses
