-- ===== src/Scan/DumpTests.antt =====
-- src/scan.rs: tests of the parsers on single statements.
use rust_streamer_pgdb.Error.{ok}
use rust_streamer_pgdb.Prelude.Ascii.{
  eq_ignore_ascii_case, from_utf8_lossy, is_ascii_whitespace, position, skip_while,
  to_ascii_lowercase, trim_end_matches,
}
use rust_streamer_pgdb.Prelude.{arith, bytes_eq, codes, none, some, [], ◌∷◌, ◌≡◌, refl}
use rust_streamer_pgdb.Scan.Ddl.{TableDef, parse_copy_header, parse_create_table}
use rust_streamer_pgdb.Scan.Names.RoundTrip.{take_qualified-written_name, written_name}
use rust_streamer_pgdb.Scan.Names.{qualified, TableName, take_qualified}

abbrev name_ab : TableName
name_ab = record { schema = some (codes "p"); table = codes "a.b" }

header :
    parse_copy_header (codes "COPY p.\"a.b\" (i, \"x,y\")")
    ≡ ok (name_ab, codes "i" ∷ codes "x,y" ∷ [])
unfolding parse_copy_header bytes_eq eq_ignore_ascii_case from_utf8_lossy is_ascii_whitespace
    position skip_while to_ascii_lowercase
header = refl

abbrev def_t : TableDef
def_t = record {
  name = record { schema = none; table = codes "t" };
  columns = record { name = codes "c"; sql_type = codes "numeric(1,0)" } ∷ [];
}

statement :
    parse_create_table (codes "CREATE TABLE t (c numeric(1,0) NOT NULL, CHECK (c))") ≡ ok def_t
unfolding parse_create_table bytes_eq eq_ignore_ascii_case from_utf8_lossy is_ascii_whitespace
    position skip_while to_ascii_lowercase trim_end_matches
statement = refl

take_qualified-written_name_example :
    take_qualified (written_name name_ab (codes " (i)")) ≡ some (name_ab, codes " (i)")
unfolding from_utf8_lossy
take_qualified-written_name_example =
    take_qualified-written_name name_ab (codes " (i)") (refl, refl) (omega arith) (omega arith)

-- Two names that are told apart and rendered alike.
same_rendering :
    qualified (record { schema = some (codes "a.b"); table = codes "c" })
    ≡ qualified (record { schema = some (codes "a"); table = codes "b.c" })
unfolding qualified
same_rendering = refl
