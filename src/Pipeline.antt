-- ===== src/Pipeline.antt =====
-- src/pipeline.rs: the reader that drives a load, and what it hands to the decode workers.
pub mod Config
pub mod Pool
pub mod State
pub mod Reader
pub mod Worker
pub mod Commit
pub mod Report
pub mod Drive
pub mod Tests
