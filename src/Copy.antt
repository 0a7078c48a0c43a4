-- ===== src/Copy.antt =====
-- src/copy.rs: COPY TEXT decoding. The children define the decoder's parts in the source's order
-- and prove what each does; RoundTrip joins them.
pub mod Field
pub mod Unescape
pub mod Rows
pub mod Fields
pub mod DecodeRow
mod Tests
