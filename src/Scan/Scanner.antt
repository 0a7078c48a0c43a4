-- ===== src/Scan/Scanner.antt =====
-- src/scan.rs: `Scanner`, `feed` and `finish`. A method returns the scanner behind the call. One
-- that fails returns the error alone: an error ends the load, and the scanner with it. The hash map
-- of tables is an association list, the hash set of schemas a list.
use rust_streamer_pgdb.Prelude.{
  ◌||◌, bytes_eq, is_empty, codes, ◌==◌, ◌∷◌, Bool, if◌then◌else◌, some, none, ◌++◌, [], Option,
  Bytes, ℕ, List, true, false,
}
use rust_streamer_pgdb.Error.{
  missing_dump_version, unsupported_dump_version, unterminated_copy, err, ok, Result,
}
use rust_streamer_pgdb.Prelude.Ascii.{ends_with, trim_ascii_end}
use rust_streamer_pgdb.Scan.Ddl.{parse_copy_header, parse_create_table, TableDef}
use rust_streamer_pgdb.Scan.Names.{
  strip_create_table, take_qualified, strip_prefix_ci, ends_with_ci, leading_major, qualified,
  TableName,
}
use rust_streamer_pgdb.Dump.Compression.{starts_with}
pub mod Feed
pub mod Lines
pub mod Refines
pub mod Rounds
pub mod SqlLines
pub mod Pending
pub mod Blocks
pub mod Nested
pub mod Versions
pub mod Chunks
pub mod Cuts
pub mod Dump
pub mod Tests

-- `SUPPORTED_MAJORS`
abbrev pub is_supported : ℕ → Bool
is_supported major = major == 16 || major == 17

pub data Event : Type 0 where
  dump_version : (dumped_by : ℕ) (from_database : Option ℕ) → Event
  table : (def : TableDef) → Event
  copy_start : (table : TableName) (columns : List Bytes) → Event
  copy_rows : (rows : Bytes) → Event
  copy_end : (table : TableName) → Event

pub data State : Type 0 where
  sql copy : State

pub record Scanner : Type 0 where
  pub state : State
  pub pending : Bytes
  pub ddl : Bytes
  pub in_create : Bool
  pub skipping_create : Bool
  pub open_table : Option TableName
  pub dumped_by : Option ℕ
  pub from_database : Option ℕ
  pub tables : List (Bytes × TableDef)
  pub excluded_schemas : List Bytes

-- `Scanner::new`
abbrev pub new : Scanner
new = record {
  state = sql;
  pending = [];
  ddl = [];
  in_create = false;
  skipping_create = false;
  open_table = none;
  dumped_by = none;
  from_database = none;
  tables = [];
  excluded_schemas = [];
}

-- `Scanner::set_excluded_schemas`
abbrev pub set_excluded_schemas : Scanner → List Bytes → Scanner
set_excluded_schemas s schemas = record s { excluded_schemas = schemas }

-- `contains` of the set.
unfoldable pub contains : List Bytes → Bytes → Bool
contains [] schema = false
contains (x ∷ xs) schema = bytes_eq x schema || contains xs schema

-- On the name that a statement starts with.
abbrev pub in_excluded : List Bytes → Option (TableName × Bytes) → Bool
in_excluded excluded none = false
in_excluded excluded (some (name, rest)) = elim name.schema [
  | some schema ↦ contains excluded schema
  | none ↦ false
]

-- `Scanner::schema_is_excluded`
unfoldable pub schema_is_excluded : Scanner → Bytes → Bool
schema_is_excluded s after_kw =
    if is_empty s.excluded_schemas
    then false
    else in_excluded s.excluded_schemas (take_qualified after_kw)

-- `tables.insert(key, def)`
unfoldable pub insert_table : Bytes → TableDef → List (Bytes × TableDef) → List (Bytes × TableDef)
insert_table key def [] = (key, def) ∷ []
insert_table key def ((k, d) ∷ rest) =
    if bytes_eq k key then (key, def) ∷ rest else (k, d) ∷ insert_table key def rest

abbrev pub Fed : Type 0
Fed = Result (Scanner × List Event)

-- A statement that is complete: the scanner has let go of its text.
abbrev pub defined : Scanner → Result TableDef → Fed
defined s (err e) = err e
defined s (ok def) =
    ok (record s { tables = insert_table (qualified def.name) def s.tables }, table def ∷ [])

abbrev pub ends_statement : Bytes → Bool
ends_statement line = ends_with (trim_ascii_end line) (codes ");")

-- A line of a statement that is skipped.
abbrev pub skip_line : Scanner → Bytes → Fed
skip_line s line = ok (if ends_statement line then record s { skipping_create = false } else s, [])

-- A further line of a statement that is read.
abbrev pub create_line : Scanner → Bytes → Fed
create_line s line =
    let ddl = s.ddl ++ (b'\n' ∷ line) in
    if ends_statement line
    then defined (record s { in_create = false; ddl = [] }) (parse_create_table ddl)
    else ok (record s { ddl = ddl }, [])

-- The first line of a statement, behind the keyword.
abbrev pub create_start : Scanner → Bytes → Bytes → Fed
create_start s line after_kw =
    if schema_is_excluded s after_kw
    then ok (if ends_statement line then s else record s { skipping_create = true }, [])
    else if ends_statement line
    then defined (record s { ddl = [] }) (parse_create_table line)
    else ok (record s { ddl = line; in_create = true }, [])

-- On the version that the preamble states.
abbrev pub dumped_by_line : Scanner → Option ℕ → Fed
dumped_by_line s none = ok (s, [])
dumped_by_line s (some major) =
    if is_supported major
    then ok (record s { dumped_by = some major }, dump_version major s.from_database ∷ [])
    else err (unsupported_dump_version major)

-- On the header of a block.
abbrev pub copy_opened : Scanner → Result (TableName × List Bytes) → Fed
copy_opened s (err e) = err e
copy_opened s (ok (name, columns)) =
    ok (record s { open_table = some name; state = copy }, copy_start name columns ∷ [])

abbrev pub copy_line : Scanner → Bytes → Fed
copy_line s line =
    let trimmed = trim_ascii_end line in
    if ends_with_ci trimmed (codes "FROM stdin;")
    then copy_opened s (parse_copy_header trimmed)
    else ok (s, [])

-- `strip_prefix_ci(…).is_some()`
abbrev pub has_prefix_ci : Bytes → Bytes → Bool
has_prefix_ci line prefix = elim (strip_prefix_ci line prefix) [ some _ ↦ true | none ↦ false ]

-- The tests of `sql_line` from the last one up: each takes what the one above it leaves.
abbrev pub other_line : Scanner → Bytes → Fed
other_line s line = if has_prefix_ci line (codes "COPY ") then copy_line s line else ok (s, [])

abbrev pub statement : Scanner → Bytes → Option Bytes → Fed
statement s line (some after_kw) = create_start s line after_kw
statement s line none = other_line s line

abbrev pub comment_or : Scanner → Bytes → Fed
comment_or s line =
    if starts_with line (codes "--") then ok (s, []) else statement s line (strip_create_table line)

abbrev pub from_database_or : Scanner → Bytes → Option Bytes → Fed
from_database_or s line (some rest) = ok (record s { from_database = leading_major rest }, [])
from_database_or s line none = comment_or s line

abbrev pub preamble_or : Scanner → Bytes → Option Bytes → Fed
preamble_or s line (some rest) = dumped_by_line s (leading_major rest)
preamble_or s line none =
    from_database_or s line (strip_prefix_ci line (codes "-- Dumped from database version "))

-- `Scanner::sql_line`
unfoldable pub sql_line : Scanner → Bytes → Fed
sql_line s line =
    if s.skipping_create
    then skip_line s line
    else if s.in_create
    then create_line s line
    else preamble_or s line (strip_prefix_ci line (codes "-- Dumped by pg_dump version "))

-- On what `open_table.take()` returns.
abbrev pub closed_with : Scanner → Option TableName → Scanner × List Event
closed_with s (some name) = (record s { state = sql; open_table = none }, copy_end name ∷ [])
closed_with s none = (record s { state = sql }, [])

-- `Scanner::close_copy`
unfoldable pub close_copy : Scanner → Scanner × List Event
close_copy s = closed_with s s.open_table

-- `Scanner::finish`
unfoldable pub finish : Scanner → Result (Unit {0})
finish s = elim s.state [
  | copy ↦ err (unterminated_copy (elim s.open_table [ some name ↦ qualified name | none ↦ [] ]))
  | sql ↦ elim s.dumped_by [ some _ ↦ ok tt | none ↦ err missing_dump_version ]
]
