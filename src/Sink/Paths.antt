-- ===== src/Sink/Paths.antt =====
-- src/sink.rs: `relative_path` and `table_uri`.
use rust_streamer_pgdb.Error.{ok, err, Result, unsafe_table_name}
use rust_streamer_pgdb.Prelude.{
  ◌==◌, if◌then◌else◌, ltb, codes, ◌&&◌, ◌≡◌, none, length, bytes_eq, is_empty, all, ◌<◌, not, ◌++◌,
  ◌||◌, [], ◌+◌, Bool, some, ◌∷◌, ℕ, List, Bytes, Option,
}
use rust_streamer_pgdb.Scan.Names.{qualified, TableName}
use rust_streamer_pgdb.Dump.Compression.{starts_with}
use rust_streamer_pgdb.Prelude.Text.{chars}
use rust_streamer_pgdb.Prelude.Ascii.{ends_with, trim_end_matches, in_range}

-- The classes of Unicode that the standard library knows, on the bytes of a character.
pub record CharClass : Type 0 where
  pub is_alphanumeric : Bytes → Bool
  pub is_control : Bytes → Bool
  pub alphanumeric_ascii :
      (c : ℕ)
      → c < 0x80
      → is_alphanumeric (c ∷ [])
        ≡ (in_range b'0' b'9' c || in_range b'A' b'Z' c || in_range b'a' b'z' c)

-- The schema, if there is one, and the table.
abbrev pub path_parts : Option Bytes → Bytes → List Bytes
path_parts none table = table ∷ []
path_parts (some schema) table = schema ∷ table ∷ []

abbrev pub has_length : Bytes → Bool
has_length component = not (is_empty component || ltb 255 (length component))

abbrev pub has_bare_ends : Bytes → Bool
has_bare_ends component = not (starts_with component (codes " ") || ends_with component (codes " "))

-- `parts.join("/")`
abbrev pub join_path : List Bytes → Bytes
join_path [] = []
join_path (part ∷ []) = part
join_path (part ∷ next ∷ parts) = part ++ b'/' ∷ join_path (next ∷ parts)

module _ ⦃k : CharClass⦄ where
  abbrev pub is_allowed : Bytes → Bool
  is_allowed c =
      k.is_alphanumeric c
      || bytes_eq c (codes "_")
      || bytes_eq c (codes "-")
      || bytes_eq c (codes " ")

  abbrev pub is_safe : Bytes → Bool
  is_safe component =
      all is_allowed (chars component) && all (λ c. not (k.is_control c)) (chars component)

  -- The loop over the components, with the bytes so far; none is its error.
  unfoldable pub total_length : ℕ → List Bytes → Option ℕ
  total_length total [] = some total
  total_length total (component ∷ parts) =
      let rest = total_length (total + length component) parts in
      if has_length component && has_bare_ends component && is_safe component then rest else none

  abbrev pub path_of_total : TableName → Option ℕ → Result Bytes
  path_of_total name none = err (unsafe_table_name (qualified name))
  path_of_total name (some total) =
      if ltb 512 total
      then err (unsafe_table_name (qualified name))
      else ok (join_path (path_parts name.schema name.table))

  unfoldable pub relative_path : TableName → Result Bytes
  relative_path name = path_of_total name (total_length 0 (path_parts name.schema name.table))

  abbrev pub below_prefix : Bytes → Result Bytes → Result Bytes
  below_prefix prefix (err e) = err e
  below_prefix prefix (ok rel) = ok (trim_end_matches (λ c. c == b'/') prefix ++ b'/' ∷ rel)

  unfoldable pub table_uri : Bytes → TableName → Result Bytes
  table_uri prefix table = below_prefix prefix (relative_path table)
