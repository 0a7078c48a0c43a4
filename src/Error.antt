-- ===== src/Error.antt =====
-- src/error.rs: the error type of the crate and its `Result`. A Rust `String` or `&'static str`
-- is the list of its bytes.
pub mod Ends
use rust_streamer_pgdb.Prelude.{ℕ, Bytes}

pub data Error : Type 0 where
  field_too_large : (len limit : ℕ) → Error
  row_too_large : (len limit : ℕ) → Error
  too_many_columns : (count limit : ℕ) → Error
  field_count_mismatch : (found expected : ℕ) → Error
  truncated_escape : Error
  invalid_hex_escape : Error
  unterminated_copy : (table : Bytes) → Error
  malformed_copy_header : (offset : ℕ) → Error
  malformed_create_table : (table : Bytes) → Error
  unsupported_dump_version : (found : ℕ) → Error
  missing_dump_version : Error
  unsafe_table_name : (name : Bytes) → Error
  unparsable_value : (column expected : Bytes) → Error
  non_utf8_text : (column : Bytes) → Error
  unsupported_compression : (format : Bytes) → Error
  arrow : (message : Bytes) → Error
  delta : (message : Bytes) → Error
  table_exists : (table : Bytes) → Error
  io : (message : Bytes) → Error
  interrupted : Error
  schema_changed : (table detail : Bytes) → Error
  managed_table_target : (uri marker : Bytes) → Error
  commit_failed : (table : Bytes) (committed total : ℕ) (message : Bytes) → Error
  internal : (detail : Bytes) → Error

-- The alias of the crate, `Result<T>`: its error is always an `Error`.
pub data Result {ℓ} (T : Type ℓ) : Type ℓ where
  err : (error : Error) → Result T
  ok : (value : T) → Result T

-- The operator `?`: an error ends the function that holds it.
infixl 5 ◌>>=◌
abbrev pub ◌>>=◌ {ℓ κ} :
    {T : Type ℓ} {U : Type κ} (step : Result T) (rest : T → Result U) → Result U
err error >>= rest = err error
ok value >>= rest = rest value
