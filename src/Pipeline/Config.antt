-- ===== src/Pipeline/Config.antt =====
-- src/pipeline.rs: the configuration and the choice of tables. The options for the storage are left
-- out, since they go to delta-rs alone.
use rust_streamer_pgdb.Sink.Opening.{WriteMode}
use rust_streamer_pgdb.Error.{◌>>=◌, Result, ok, err, malformed_create_table}
use rust_streamer_pgdb.Prelude.{
  not, ◌^◌, ◌*◌, ◌||◌, ◌&&◌, some, true, false, ℕ, if◌then◌else◌, bytes_eq, none, ◌∷◌, codes, Bool,
  List, Bytes, [], Option,
}
use rust_streamer_pgdb.Types.Name.{Lowercase}
use rust_streamer_pgdb.Scan.Names.{qualified, TableName}
use rust_streamer_pgdb.Scan.Ddl.{TableDef, ColumnDef}
use rust_streamer_pgdb.Types.{resolve, ResolvedType}
use rust_streamer_pgdb.Copy.Field.{default_limits, Limits}

pub record LoadConfig : Type 0 where
  pub output_uri : Bytes
  pub tables : Option (List Bytes)
  pub excluded_schemas : Option (List Bytes)
  pub wide_numeric_as_decimal : Bool
  pub native_arrays : Bool
  pub mode : WriteMode
  pub batch_rows : ℕ
  pub batch_bytes : ℕ
  pub threads : ℕ
  pub commit_concurrency : ℕ
  pub expect_pg_major : Option ℕ
  pub expect_tables : Option (List Bytes)
  pub limits : Limits
  pub write_manifest : Bool

-- `LoadConfig::default`
abbrev pub default_config : LoadConfig
default_config = record {
  output_uri = [];
  tables = none;
  excluded_schemas = none;
  wide_numeric_as_decimal = false;
  native_arrays = false;
  mode = WriteMode.overwrite;
  batch_rows = 100000;
  batch_bytes = 128 * 2 ^ 20;
  threads = 0;
  commit_concurrency = 0;
  expect_pg_major = none;
  expect_tables = none;
  limits = default_limits;
  write_manifest = true;
}

-- `iter().any(|x| x == name)`
unfoldable pub is_listed : List Bytes → Bytes → Bool
is_listed [] name = false
is_listed (x ∷ xs) name = bytes_eq x name || is_listed xs name

abbrev pub allowed_by : Option (List Bytes) → Bytes → Bool
allowed_by none name = true
allowed_by (some names) name = is_listed names name

abbrev pub excluded_by : Option (List Bytes) → Option Bytes → Bool
excluded_by none schema = false
excluded_by (some schemas) none = false
excluded_by (some schemas) (some schema) = is_listed schemas schema

-- The closures `allowed`, `schema_excluded` and `wanted` of `drive`.
unfoldable pub wanted : LoadConfig → TableName → Bool
wanted config table =
    allowed_by config.tables (qualified table)
    && not (excluded_by config.excluded_schemas table.schema)

-- `manifest::MANIFEST_NAME` and `manifest::reserved_collision`
abbrev pub manifest_name : Bytes
manifest_name = codes "_pgdelta_loads"

abbrev pub reserved_by : Option Bytes → Bytes → Bool
reserved_by none table = bytes_eq table manifest_name
reserved_by (some schema) table = false

unfoldable pub reserved_collision : TableName → Bool
reserved_collision table = reserved_by table.schema table.table

-- `def.columns.iter().find(|c| &c.name == name)`
unfoldable pub find_column : Bytes → List ColumnDef → Option ColumnDef
find_column name [] = none
find_column name (c ∷ columns) = if bytes_eq c.name name then some c else find_column name columns

abbrev pub resolved_column : ⦃l : Lowercase⦄ → TableDef → Option ColumnDef → Result ResolvedType
resolved_column def none = err (malformed_create_table (qualified def.name))
resolved_column def (some c) = ok (resolve c.sql_type)

unfoldable pub resolve_copy_columns :
    ⦃l : Lowercase⦄ → TableDef → List Bytes → Result (List ResolvedType)
resolve_copy_columns def [] = ok []
resolve_copy_columns def (name ∷ names) =
    resolved_column def (find_column name def.columns) >>= λ rt.
    resolve_copy_columns def names >>= λ rts. ok (rt ∷ rts)

-- `columns.iter().cloned().zip(resolved)`
abbrev pub zipped : {A B : Type 0} → List A → List B → List (A × B)
zipped [] bs = []
zipped (a ∷ as') [] = []
zipped (a ∷ as') (b ∷ bs) = (a, b) ∷ zipped as' bs
