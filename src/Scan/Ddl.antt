-- ===== src/Scan/Ddl.antt =====
-- src/scan.rs: `CREATE TABLE` statements and `COPY` headers. A depth of parentheses may be
-- negative; it stays far from the ends of an `i32`, since a statement is shorter than a chunk.
use rust_streamer_pgdb.Scan.Names.{
  qualified, strip_prefix_ci, strip_create_table, position_or_length, take_qualified, TableName,
  take_identifier,
}
use rust_streamer_pgdb.Prelude.{
  ◌||◌, suc, drop, ◌+◌, ◌&&◌, ◌-◌, ltb, false, ◌++◌, ◌==◌, is_empty, none, true, some, [],
  if◌then◌else◌, codes, ◌∷◌, take, Bool, Option, List, Bytes, ℕ,
}
use rust_streamer_pgdb.Prelude.Int.{dec, is_zero, inc, pos, ℤ}
use rust_streamer_pgdb.Prelude.Ascii.{
  position, trim_ascii_start, eq_ignore_ascii_case, is_ascii_whitespace, trim_ascii,
  from_utf8_lossy,
}
use rust_streamer_pgdb.Error.{
  malformed_create_table, malformed_copy_header, err, ok, ◌>>=◌, Result, Error,
}
use rust_streamer_pgdb.Prelude.Int.{ℤ, pos, is_zero, inc, dec}
use rust_streamer_pgdb.Prelude.{true, false}

pub record ColumnDef : Type 0 where
  pub name : Bytes
  pub sql_type : Bytes

pub record TableDef : Type 0 where
  pub name : TableName
  pub columns : List ColumnDef

-- What a byte outside quotes does, in the order of the code's `match`.
pub data Kind : Type 0 where
  quotes opens closes separates plain : Kind

abbrev pub bracket : ℕ → Kind → Kind
bracket c other =
    if c == b'"' then quotes else if c == b'(' then opens else if c == b')' then closes else other

abbrev pub kind : ℕ → ℕ → ℤ → Kind
kind sep c depth = bracket c (if c == sep && is_zero depth then separates else plain)

-- The loop of `split_top_level` on the depth, the flag, the bytes since `start` and those from `i`.
unfoldable pub split_loop : ℕ → ℤ → Bool → Bytes → Bytes → List Bytes
split_loop sep depth quoted item [] = item ∷ []
split_loop sep depth true item (c ∷ []) = (item ++ c ∷ []) ∷ []
split_loop sep depth true item (c ∷ d ∷ rest) = elim (c == b'"') [
  | true ↦ elim (d == b'"') [
    | true ↦ split_loop sep depth true (item ++ (c ∷ d ∷ [])) rest
    | false ↦ split_loop sep depth false (item ++ c ∷ []) (d ∷ rest)
  ]
  | false ↦ split_loop sep depth true (item ++ c ∷ []) (d ∷ rest)
]
split_loop sep depth false item (c ∷ rest) = elim (kind sep c depth) [
  | quotes ↦ split_loop sep depth true (item ++ c ∷ []) rest
  | opens ↦ split_loop sep (inc depth) false (item ++ c ∷ []) rest
  | closes ↦ split_loop sep (dec depth) false (item ++ c ∷ []) rest
  | separates ↦ item ∷ split_loop sep depth false [] rest
  | plain ↦ split_loop sep depth false (item ++ c ∷ []) rest
]

abbrev pub split_top_level : Bytes → ℕ → List Bytes
split_top_level s sep = split_loop sep (pos 0) false [] s

-- The loop of `matching_paren` on the depth, the flag, `i` and the bytes from `i`.
unfoldable pub paren_loop : ℤ → Bool → ℕ → Bytes → Option ℕ
paren_loop depth quoted i [] = none
paren_loop depth true i (c ∷ []) = none
paren_loop depth true i (c ∷ d ∷ rest) = elim (c == b'"') [
  | true ↦ elim (d == b'"') [
    | true ↦ paren_loop depth true (i + 2) rest
    | false ↦ paren_loop depth false (i + 1) (d ∷ rest)
  ]
  | false ↦ paren_loop depth true (i + 1) (d ∷ rest)
]
paren_loop depth false i (c ∷ rest) = elim (bracket c plain) [
  | quotes ↦ paren_loop depth true (i + 1) rest
  | opens ↦ paren_loop (inc depth) false (i + 1) rest
  | closes ↦
      let later = paren_loop (dec depth) false (i + 1) rest in
      if is_zero (dec depth) then some i else later
  | _ ↦ paren_loop depth false (i + 1) rest
]

abbrev pub matching_paren : Bytes → ℕ → Option ℕ
matching_paren s open_at = paren_loop (pos 0) false open_at (drop open_at s)

abbrev pub type_terminators : List Bytes
type_terminators =
    codes "DEFAULT"
    ∷ codes "NOT"
    ∷ codes "NULL"
    ∷ codes "GENERATED"
    ∷ codes "COLLATE"
    ∷ codes "CONSTRAINT"
    ∷ codes "CHECK"
    ∷ codes "REFERENCES"
    ∷ codes "PRIMARY"
    ∷ codes "UNIQUE"
    ∷ []

abbrev pub constraint_leaders : List Bytes
constraint_leaders =
    codes "CONSTRAINT"
    ∷ codes "PRIMARY"
    ∷ codes "UNIQUE"
    ∷ codes "FOREIGN"
    ∷ codes "CHECK"
    ∷ codes "EXCLUDE"
    ∷ codes "LIKE"
    ∷ []

-- `keywords.iter().any(|k| word.eq_ignore_ascii_case(k))`
unfoldable pub is_keyword : List Bytes → Bytes → Bool
is_keyword [] word = false
is_keyword (k ∷ ks) word = eq_ignore_ascii_case word k || is_keyword ks word

-- The bytes up to the first whitespace.
abbrev pub first_word : Bytes → Bytes
first_word s = take (position_or_length is_ascii_whitespace s) s

abbrev pub paren_depth : ℕ → ℤ → ℤ
paren_depth c depth = if c == b'(' then inc depth else if c == b')' then dec depth else depth

-- The loop of `take_type` on the depth, whether a word starts at `i`, and the bytes from `i`: how
-- many of them stand in front of the cut.
unfoldable pub type_cut : ℤ → Bool → Bytes → ℕ
type_cut depth starts [] = 0
type_cut depth starts (c ∷ rest) =
    let later = type_cut (paren_depth c depth) (is_ascii_whitespace c) rest in
    if is_zero (paren_depth c depth)
      && starts
      && is_keyword type_terminators (first_word (c ∷ rest))
    then 0
    else suc later

abbrev pub trimmed_type : Bytes → Bytes
trimmed_type s = from_utf8_lossy (trim_ascii (take (type_cut (pos 0) true s) s))

unfoldable pub take_type : Bytes → Bytes
unfolding type_cut is_keyword
take_type s = trimmed_type (trim_ascii s)

-- On the column name that an item starts with, if it starts with one.
abbrev pub column_of : Option (Bytes × Bytes) → List ColumnDef
column_of none = []
column_of (some (col, tail)) =
    if is_empty (take_type tail) then [] else record { name = col; sql_type = take_type tail } ∷ []

-- The column of a trimmed item, unless it is empty or a constraint.
abbrev pub item_columns : Bytes → List ColumnDef
item_columns item =
    if is_empty item
    then []
    else if is_keyword constraint_leaders (first_word item)
    then []
    else column_of (take_identifier item)

-- `for item in split_top_level(…)` of `parse_create_table`.
unfoldable pub table_columns : List Bytes → List ColumnDef
table_columns [] = []
table_columns (item ∷ items) = item_columns (trim_ascii item) ++ table_columns items

-- An option with its `ok_or_else(…)?`.
abbrev pub ok_or {ℓ} : {A : Type ℓ} → Option A → Error → Result A
ok_or (some a) e = ok a
ok_or none e = err e

unfoldable pub parse_create_table : Bytes → Result TableDef
unfolding split_loop paren_loop table_columns take_type take_identifier take_qualified
    strip_create_table
parse_create_table ddl = do
  after_kw ← ok_or (strip_create_table (trim_ascii_start ddl)) (malformed_create_table [])
  (name, rest) ← ok_or (take_qualified after_kw) (malformed_create_table [])
  opened ← ok_or (position (λ c. c == b'(') rest) (malformed_create_table (qualified name))
  closed ← ok_or (matching_paren rest opened) (malformed_create_table (qualified name))
  ok (record {
    name = name;
    columns =
        table_columns
          (split_top_level (take (closed - (opened + 1)) (drop (opened + 1) rest)) b',');
  })

-- `for item in split_top_level(…)` of `parse_copy_header`.
unfoldable pub column_names : List Bytes → List Bytes
column_names [] = []
column_names (item ∷ items) = elim (take_identifier item) [
  | some (name, _) ↦ name ∷ column_names items
  | none ↦ column_names items
]

-- On the parentheses of a header.
abbrev pub header_columns : Bytes → Option ℕ → Option ℕ → List Bytes
header_columns rest (some opened) (some closed) =
    if ltb opened closed
    then column_names (split_top_level (take (closed - (opened + 1)) (drop (opened + 1) rest)) b',')
    else []
header_columns rest _ _ = []

-- `open.and_then(|o| matching_paren(rest, o))`
abbrev pub closing : Bytes → Option ℕ → Option ℕ
closing rest none = none
closing rest (some opened) = matching_paren rest opened

unfoldable pub parse_copy_header : Bytes → Result (TableName × List Bytes)
unfolding split_loop paren_loop column_names take_identifier take_qualified
parse_copy_header line = do
  after_kw ←
      ok_or (strip_prefix_ci (trim_ascii_start line) (codes "COPY ")) (malformed_copy_header 0)
  (table, rest) ← ok_or (take_qualified after_kw) (malformed_copy_header 0)
  let opened = position (λ c. c == b'(') rest
  ok (table, header_columns rest opened (closing rest opened))
