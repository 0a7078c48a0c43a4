-- ===== src/Scan/Scanner/SqlLines.antt =====
-- src/scan.rs: what a line outside a block does to the scanner, told by its outcomes.
use rust_streamer_pgdb.Scan.Scanner.{
  schema_is_excluded, copy_opened, has_prefix_ci, is_supported, dumped_by_line, defined,
  from_database_or, ends_statement, copy_line, create_start, skip_line, preamble_or, statement, Fed,
  sql_line, State, Scanner, Event, copy,
}
use rust_streamer_pgdb.Error.{ok, err, Result}
use rust_streamer_pgdb.Prelude.{
  ◌++◌, refl, ◌∷◌, inr, none, codes, inl, ◌≡◌, [], some, Bool-cases, true, false, List,
  if◌then◌else◌, ℕ, Bool, Option, Bytes,
}
use rust_streamer_pgdb.Scan.Names.{
  strip_create_table, strip_prefix_ci, ends_with_ci, leading_major, TableName,
}
use rust_streamer_pgdb.Scan.Ddl.{parse_copy_header, parse_create_table, TableDef}
use rust_streamer_pgdb.Dump.Compression.{starts_with}
use rust_streamer_pgdb.Prelude.Ascii.{trim_ascii_end}

-- An event that stands outside of blocks.
abbrev pub IsOutside : Event → Type 0
IsOutside (Event.dump_version by from) = Unit
IsOutside (Event.table def) = Unit
IsOutside (Event.copy_start name columns) = ⊥
IsOutside (Event.copy_rows rows) = ⊥
IsOutside (Event.copy_end name) = ⊥

-- The fields that few lines touch.
abbrev pub Kept : Type 0
Kept = State × Bytes × Option TableName

abbrev pub kept : Scanner → Kept
kept s = (s.state, s.pending, s.open_table)

-- An error, events that stand outside of blocks, or the start of a block.
abbrev pub SqlOutcome : Kept → Fed → Type 0
SqlOutcome k (err e) = Unit
SqlOutcome k (ok (t, [])) = kept t ≡ k
SqlOutcome k (ok (t, Event.copy_start name columns ∷ [])) = kept t ≡ (copy, k.1, some name)
SqlOutcome k (ok (t, e ∷ [])) = IsOutside e × (kept t ≡ k)
SqlOutcome k (ok (t, e ∷ f ∷ es)) = ⊥

if-SqlOutcome :
    (k : Kept) (b : Bool) (x y : Fed)
    → SqlOutcome k x
    → SqlOutcome k y
    → SqlOutcome k (if b then x else y)
if-SqlOutcome k true x y h g = h
if-SqlOutcome k false x y h g = g

defined-SqlOutcome : (s : Scanner) (d : Result TableDef) → SqlOutcome (kept s) (defined s d)
defined-SqlOutcome s (ok def) = (tt, refl)
defined-SqlOutcome s (err e) = tt

copy_line-SqlOutcome : (s : Scanner) (line : Bytes) → SqlOutcome (kept s) (copy_line s line)
copy_line-SqlOutcome s line =
    if-SqlOutcome (kept s) (ends_with_ci (trim_ascii_end line) (codes "FROM stdin;"))
      (copy_opened s (parse_copy_header (trim_ascii_end line))) (ok (s, []))
      (opened (parse_copy_header (trim_ascii_end line))) refl
  where
    opened : (r : Result (TableName × List Bytes)) → SqlOutcome (kept s) (copy_opened s r)
    opened (ok (n, cs)) = refl
    opened (err e) = tt

dumped_by-SqlOutcome : (s : Scanner) (o : Option ℕ) → SqlOutcome (kept s) (dumped_by_line s o)
dumped_by-SqlOutcome s none = refl
dumped_by-SqlOutcome s (some major) = if-SqlOutcome (kept s) (is_supported major) _ _ (tt, refl) tt

skip_line-SqlOutcome : (s : Scanner) (line : Bytes) → SqlOutcome (kept s) (skip_line s line)
skip_line-SqlOutcome s line = elim (Bool-cases (ends_statement line)) [
  | inl e ↦ rw e refl
  | inr e ↦ rw e refl
]

create_start-SqlOutcome :
    (s : Scanner) (line after_kw : Bytes) → SqlOutcome (kept s) (create_start s line after_kw)
create_start-SqlOutcome s line after_kw = elim (Bool-cases (ends_statement line)) [
  | inl e ↦ rw e (
      if-SqlOutcome (kept s) (schema_is_excluded s after_kw) _ _ refl
        (defined-SqlOutcome (record s { ddl = [] }) (parse_create_table line)))
  | inr e ↦ rw e (if-SqlOutcome (kept s) (schema_is_excluded s after_kw) _ _ refl refl)
]

statement-SqlOutcome :
    (s : Scanner) (line : Bytes) (o : Option Bytes) → SqlOutcome (kept s) (statement s line o)
statement-SqlOutcome s line (some after_kw) = create_start-SqlOutcome s line after_kw
statement-SqlOutcome s line none =
    if-SqlOutcome (kept s) (has_prefix_ci line (codes "COPY ")) _ _ (copy_line-SqlOutcome s line)
      refl

from_database-SqlOutcome :
    (s : Scanner) (line : Bytes) (o : Option Bytes)
    → SqlOutcome (kept s) (from_database_or s line o)
from_database-SqlOutcome s line (some rest) = refl
from_database-SqlOutcome s line none =
    if-SqlOutcome (kept s) (starts_with line (codes "--")) _ _ refl
      (statement-SqlOutcome s line (strip_create_table line))

preamble-SqlOutcome :
    (s : Scanner) (line : Bytes) (o : Option Bytes) → SqlOutcome (kept s) (preamble_or s line o)
preamble-SqlOutcome s line (some rest) = dumped_by-SqlOutcome s (leading_major rest)
preamble-SqlOutcome s line none =
    from_database-SqlOutcome s line
      (strip_prefix_ci line (codes "-- Dumped from database version "))

pub sql_line-SqlOutcome : (s : Scanner) (line : Bytes) → SqlOutcome (kept s) (sql_line s line)
unfolding sql_line
sql_line-SqlOutcome s line =
    if-SqlOutcome (kept s) s.skipping_create _ _ (skip_line-SqlOutcome s line) (
      if-SqlOutcome (kept s) s.in_create _ _
        (if-SqlOutcome (kept s) (ends_statement line) _ _
          (defined-SqlOutcome (record s { in_create = false; ddl = [] })
            (parse_create_table (s.ddl ++ (b'\n' ∷ line))))
          refl)
        (preamble-SqlOutcome s line (strip_prefix_ci line (codes "-- Dumped by pg_dump version "))))
