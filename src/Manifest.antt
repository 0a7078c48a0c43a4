-- ===== src/Manifest.antt =====
-- src/manifest.rs: the rows of the load history and how they are appended. The clock gives the
-- argument `at`. A `u64` is printed by its twenty last digits, which are all it has.
pub mod Told
pub mod Conforms
pub mod Tests
use rust_streamer_pgdb.Pipeline.Report.{LoadReport}
use rust_streamer_pgdb.Pipeline.State.{TableStats}
use rust_streamer_pgdb.Pipeline.Config.{is_listed, manifest_name}
use rust_streamer_pgdb.Builders.Schema.{DataType}
use rust_streamer_pgdb.Sink.Drift.{KernelType, joined_names}
use rust_streamer_pgdb.Sink.Opening.{Delta, WriteMode}
use rust_streamer_pgdb.Sink.Table.{open_sink, write_sink, stage_sink, commit_sink}
use rust_streamer_pgdb.Sink.Writer.{WriterOps}
use rust_streamer_pgdb.Scan.Names.{TableName}
use rust_streamer_pgdb.Prelude.{
  zero, ◌%◌, ◌+◌, ◌-◌, ◌^◌, ◌/◌, false, true, ◌==◌, ltb, suc, not, replicate, [], codes, ◌++◌, some,
  ◌∷◌, length, if◌then◌else◌, map, none, Bool, Option, Bytes, ℕ, List,
}
use rust_streamer_pgdb.Error.{ok, ◌>>=◌, Result}
use rust_streamer_pgdb.Sink.Paths.{CharClass}

-- `manifest_table`
abbrev pub manifest_table : TableName
manifest_table = record { schema = none; table = manifest_name }

-- The type of a column, and whether it may hold NULL.
abbrev pub FieldType : Type 0
FieldType = DataType × Bool

-- `schema`
abbrev pub schema : List (Bytes × FieldType)
schema =
    (codes "load_id", (DataType.utf8, false))
    ∷ (codes "loaded_at", (DataType.timestamp_utc, false))
    ∷ (codes "table", (DataType.utf8, false))
    ∷ (codes "status", (DataType.utf8, false))
    ∷ (codes "expected", (DataType.boolean, false))
    ∷ (codes "delta_version", (DataType.int64, true))
    ∷ (codes "rows", (DataType.int64, true))
    ∷ (codes "batches", (DataType.int64, true))
    ∷ (codes "dumped_by", (DataType.int32, false))
    ∷ (codes "from_database", (DataType.int32, true))
    ∷ (codes "compression", (DataType.utf8, false))
    ∷ (codes "bytes_read", (DataType.int64, false))
    ∷ (codes "total_rows", (DataType.int64, false))
    ∷ (codes "schema_added", (DataType.utf8, false))
    ∷ (codes "schema_removed", (DataType.utf8, false))
    ∷ (codes "schema_retyped", (DataType.utf8, false))
    ∷ (codes "null_substitutions", (DataType.utf8, false))
    ∷ (codes "text_fallback_columns", (DataType.utf8, false))
    ∷ []

-- A column of a record batch.
pub data Array : Type 0 where
  string_array : List Bytes → Array
  timestamp_array : List ℕ → Array
  boolean_array : List Bool → Array
  int64_array : List ℕ → Array
  int64_options : List (Option ℕ) → Array
  int32_array : List ℕ → Array
  int32_options : List (Option ℕ) → Array

-- `{n:020}`, for the digits of a width.
unfoldable pub padded_to : ℕ → ℕ → Bytes
padded_to zero n = []
padded_to (suc width) n = padded_to width (n / 10) ++ (b'0' + n % 10) ∷ []

unfoldable pub without_zeros : Bytes → Bytes
without_zeros [] = []
without_zeros (c ∷ []) = c ∷ []
without_zeros (c ∷ d ∷ digits) =
    let shorter = without_zeros (d ∷ digits) in if c == b'0' then shorter else c ∷ d ∷ digits

-- `{n}`
abbrev pub number : ℕ → Bytes
number n = without_zeros (padded_to 20 n)

-- `i64::try_from(n).ok()` and `i32::try_from(n).ok()`
abbrev pub to_i64 : ℕ → Option ℕ
to_i64 n = if ltb n (2 ^ 63) then some n else none

abbrev pub to_i32 : ℕ → Option ℕ
to_i32 n = if ltb n (2 ^ 31) then some n else none

abbrev pub or_default : ℕ → Option ℕ → ℕ
or_default n none = n
or_default n (some v) = v

abbrev pub and_then : Option ℕ → Option ℕ
and_then none = none
and_then (some v) = to_i32 v

-- What is pushed for a table.
pub record Entry : Type 0 where
  pub name : Bytes
  pub status : Bytes
  pub expected : Bool
  pub version : Option ℕ
  pub rows : Option ℕ
  pub batches : Option ℕ
  pub added : Bytes
  pub removed : Bytes
  pub retyped : Bytes
  pub substitutions : Bytes
  pub fallbacks : Bytes

abbrev pub retyped_text : Bytes × Bytes × Bytes → Bytes
retyped_text (column, was, now) = column ++ (codes ": " ++ (was ++ (codes " -> " ++ now)))

abbrev pub substitution_text : Bytes × ℕ → Bytes
substitution_text (column, n) = column ++ (codes "=" ++ number n)

abbrev pub fallback_text : Bytes × Bytes → Bytes
fallback_text (column, declared) = column ++ (codes ": " ++ declared)

unfoldable pub loaded_entry : List Bytes → TableStats → Entry
loaded_entry unexpected stats = record {
  name = stats.table;
  status = codes "loaded";
  expected = not (is_listed unexpected stats.table);
  version = to_i64 stats.delta_version;
  rows = to_i64 stats.rows;
  batches = to_i64 stats.batches;
  added = joined_names stats.schema_drift.added;
  removed = joined_names stats.schema_drift.removed;
  retyped = joined_names (map retyped_text stats.schema_drift.retyped);
  substitutions = joined_names (map substitution_text stats.null_substitutions);
  fallbacks = joined_names (map fallback_text stats.text_fallback_columns);
}

unfoldable pub missing_entry : Bytes → Entry
missing_entry name = record {
  name = name;
  status = codes "missing";
  expected = true;
  version = none;
  rows = none;
  batches = none;
  added = [];
  removed = [];
  retyped = [];
  substitutions = [];
  fallbacks = [];
}

-- The two loops of `rows_for`.
unfoldable pub entries : LoadReport → List Entry
entries report =
    map (loaded_entry report.unexpected_tables) report.tables
    ++ map missing_entry report.missing_tables

-- The columns of `rows_for`.
unfoldable pub columns_for : LoadReport → Bytes → ℕ → List Array
columns_for report load_id at =
    let es = entries report in
    let n = length es in
    string_array (replicate n load_id)
    ∷ timestamp_array (replicate n at)
    ∷ string_array (map (λ (e : Entry). e.name) es)
    ∷ string_array (map (λ (e : Entry). e.status) es)
    ∷ boolean_array (map (λ (e : Entry). e.expected) es)
    ∷ int64_options (map (λ (e : Entry). e.version) es)
    ∷ int64_options (map (λ (e : Entry). e.rows) es)
    ∷ int64_options (map (λ (e : Entry). e.batches) es)
    ∷ int32_array (replicate n (or_default 0 (to_i32 report.dumped_by)))
    ∷ int32_options (replicate n (and_then report.from_database))
    ∷ string_array (replicate n report.compression)
    ∷ int64_array (replicate n (or_default (2 ^ 63 - 1) (to_i64 report.bytes_read)))
    ∷ int64_array (replicate n (or_default (2 ^ 63 - 1) (to_i64 report.total_rows)))
    ∷ string_array (map (λ (e : Entry). e.added) es)
    ∷ string_array (map (λ (e : Entry). e.removed) es)
    ∷ string_array (map (λ (e : Entry). e.retyped) es)
    ∷ string_array (map (λ (e : Entry). e.substitutions) es)
    ∷ string_array (map (λ (e : Entry). e.fallbacks) es)
    ∷ []

-- The schema without what may be NULL.
abbrev pub field_types : List (Bytes × FieldType) → List (Bytes × DataType)
field_types [] = []
field_types (f ∷ fields) = (f.0, f.1.0) ∷ field_types fields

-- `append`, where `try_new` is `RecordBatch::try_new`.
module _ {T K A W B : Type 0} (d : Delta T K A) (w : WriterOps W B A)
    (try_new : List (Bytes × FieldType) → List Array → Result B) (num_rows : B → ℕ) where
  unfoldable pub append : ⦃c : CharClass⦄ ⦃k : KernelType K⦄ → Bytes → ℕ → LoadReport → Result Bytes
  append prefix at report =
      let load_id = padded_to 20 at in
      try_new schema (columns_for report load_id at) >>= λ batch.
      open_sink d w prefix manifest_table (field_types schema) WriteMode.add_to >>= λ sink.
      write_sink d w sink batch (num_rows batch) >>= λ written.
      stage_sink d w written >>= λ staged. commit_sink d w staged >>= λ committed. ok load_id
