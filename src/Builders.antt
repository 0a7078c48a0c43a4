-- ===== src/Builders.antt =====
-- src/builders.rs: the Arrow type of a column and the builder that is made for it.
pub mod Schema
pub mod Column
pub mod Batch
pub mod Agree
pub mod Tests
