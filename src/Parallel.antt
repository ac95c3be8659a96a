-- ===== src/Parallel.antt =====
-- parallel: functions that run concurrently.
pub mod Try
pub mod Run
