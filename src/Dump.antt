-- ===== src/Dump.antt =====
-- src/dump.rs: the compression of a dump, and newline-aligned chunks of it.
pub mod Compression
pub mod Reader
pub mod ChunkReader
pub mod Tests
