-- ===== src/Sink.antt =====
-- src/sink.rs: the path of a table below the output prefix.
pub mod Paths
pub mod Distinct
pub mod Drift
pub mod Opening
pub mod Writer
pub mod Table
pub mod Tests
