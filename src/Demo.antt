-- ===== src/Demo.antt =====
-- The load generator of tools/demo/src/main.rs: its metrics (Demo/Metrics) and its workers
-- (Demo/Workers).
pub mod Metrics
pub mod Percentiles
pub mod Workers
pub mod Commands
