-- ===== src/Scan/Names.antt =====
-- src/scan.rs: `TableName`, and the reading of identifiers.
pub mod RoundTrip
use rust_streamer_pgdb.Prelude.{
  ◌-◌, drop, ◌&&◌, take, [], length, ◌||◌, ◌^◌, ◌==◌, leb, ◌++◌, ◌∷◌, if◌then◌else◌, Bool, some,
  none, codes, Option, ℕ, Bytes,
}
use rust_streamer_pgdb.Prelude.Ascii.{
  eq_ignore_ascii_case, skip_while, from_utf8_lossy, is_ascii_whitespace, is_ascii_digit, position,
  parse_digits, trim_ascii_start, take_while,
}
use rust_streamer_pgdb.Prelude.{true, false}

pub record TableName : Type 0 where
  pub schema : Option Bytes
  pub table : Bytes

-- `TableName::qualified`, by `Display`
unfoldable pub qualified : TableName → Bytes
qualified name = elim name.schema [
  | some schema ↦ schema ++ (b'.' ∷ name.table)
  | none ↦ name.table
]

abbrev pub strip_prefix_ci : Bytes → Bytes → Option Bytes
strip_prefix_ci line prefix =
    if leb (length prefix) (length line) && eq_ignore_ascii_case (take (length prefix) line) prefix
    then some (drop (length prefix) line)
    else none

unfoldable pub ends_with_ci : Bytes → Bytes → Bool
ends_with_ci line suffix =
    leb (length suffix) (length line)
    && eq_ignore_ascii_case (drop (length line - length suffix) line) suffix

-- A value of `Option<u32>` that is parsed from digits; no digits give none.
abbrev pub parse_u32 : Bytes → Option ℕ
parse_u32 [] = none
parse_u32 (d ∷ s) = parse_digits (2 ^ 32) 0 (d ∷ s)

unfoldable pub leading_major : Bytes → Option ℕ
leading_major s = parse_u32 (take_while is_ascii_digit (skip_while is_ascii_whitespace s))

-- The loop of a quoted identifier, behind the quote that opens it.
unfoldable pub quoted_name : Bytes → Bytes → Option (Bytes × Bytes)
quoted_name name [] = none
quoted_name name (c ∷ []) = if c == b'"' then some (from_utf8_lossy name, []) else none
quoted_name name (c ∷ d ∷ rest) = elim (c == b'"') [
  | true ↦ elim (d == b'"') [
    | true ↦ quoted_name (name ++ b'"' ∷ []) rest
    | false ↦ some (from_utf8_lossy name, d ∷ rest)
  ]
  | false ↦ quoted_name (name ++ c ∷ []) (d ∷ rest)
]

-- What ends an identifier without quotes.
abbrev pub ends_identifier : ℕ → Bool
ends_identifier c = is_ascii_whitespace c || c == b'(' || c == b',' || c == b'.'

-- `position(…).unwrap_or(s.len())`
abbrev pub position_or_length : (ℕ → Bool) → Bytes → ℕ
position_or_length p s = elim (position p s) [ some i ↦ i | none ↦ length s ]

abbrev pub plain_name : Bytes → Option (Bytes × Bytes)
plain_name s =
    let end = position_or_length ends_identifier s in
    if end == 0 then none else some (from_utf8_lossy (take end s), drop end s)

-- On a slice without leading whitespace.
abbrev pub identifier_at : Bytes → Option (Bytes × Bytes)
identifier_at [] = plain_name []
identifier_at (c ∷ s) = if c == b'"' then quoted_name [] s else plain_name (c ∷ s)

unfoldable pub take_identifier : Bytes → Option (Bytes × Bytes)
unfolding quoted_name
take_identifier s = identifier_at (trim_ascii_start s)

-- The name, when what follows the first identifier is not a dot.
abbrev pub unqualified : Bytes → Bytes → TableName × Bytes
unqualified first rest = (record { schema = none; table = first }, rest)

-- On the identifier behind the dot.
abbrev pub with_table : Bytes → Option (Bytes × Bytes) → Option (TableName × Bytes)
with_table first none = none
with_table first (some (second, rest)) = some (record { schema = some first; table = second }, rest)

-- On what follows the first identifier.
abbrev pub qualify : Bytes → Bytes → Option (TableName × Bytes)
qualify first [] = some (unqualified first [])
qualify first (c ∷ rest) =
    if c == b'.'
    then with_table first (take_identifier rest)
    else some (unqualified first (c ∷ rest))

-- On the first identifier.
abbrev pub qualified_from : Option (Bytes × Bytes) → Option (TableName × Bytes)
qualified_from none = none
qualified_from (some (first, rest)) = qualify first rest

unfoldable pub take_qualified : Bytes → Option (TableName × Bytes)
unfolding take_identifier
take_qualified s = qualified_from (take_identifier s)

unfoldable pub strip_create_table : Bytes → Option Bytes
strip_create_table line = elim (strip_prefix_ci line (codes "CREATE TABLE ")) [
  | some rest ↦ some rest
  | none ↦ strip_prefix_ci line (codes "CREATE UNLOGGED TABLE ")
]
