-- ===== src/Copy/Field.antt =====
-- src/copy.rs: `Limits`, `Field`, the markers and `classify`.
use rust_streamer_pgdb.Prelude.{
  ℕ, ◌*◌, ◌^◌, Bool, true, false, Option, none, some, [], ◌∷◌, Bytes, bytes_eq, Memchr,
  if◌then◌else◌,
}

-- `br"\."`
abbrev pub end_of_data : Bytes
end_of_data = b'\\' ∷ b'.' ∷ []

-- `br"\N"`
abbrev pub null_marker : Bytes
null_marker = b'\\' ∷ b'N' ∷ []

pub record Limits : Type 0 where
  pub max_field_bytes : ℕ
  pub max_row_bytes : ℕ
  pub max_columns : ℕ

-- `64 << 20`, `256 << 20`, `1600`
abbrev pub default_limits : Limits
default_limits = record {
  max_field_bytes = 64 * 2 ^ 20;
  max_row_bytes = 256 * 2 ^ 20;
  max_columns = 1600;
}

-- One field of one row. A borrowed slice is the list of its bytes.
pub data Field : Type 0 where
  null : Field
  plain : Bytes → Field
  escaped : Bytes → Field

unfoldable pub is_null : Field → Bool
is_null null = true
is_null (plain b) = false
is_null (escaped b) = false

pub raw : Field → Option Bytes
raw null = none
raw (plain b) = some b
raw (escaped b) = some b

unfoldable pub is_end_of_data : Bytes → Bool
unfolding bytes_eq
is_end_of_data line = bytes_eq line end_of_data

unfoldable pub classify : ⦃m : Memchr⦄ → Bytes → Field
unfolding bytes_eq
classify ⦃m⦄ s =
    if bytes_eq s null_marker
    then null
    else elim (m.memchr b'\\' s) [ some _ ↦ escaped s | none ↦ plain s ]
