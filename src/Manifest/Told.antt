-- ===== src/Manifest/Told.antt =====
-- src/manifest.rs: the values of the load history, against a report told column by column.
use rust_streamer_pgdb.Manifest.{
  number, to_i32, to_i64, or_default, and_then, fallback_text, substitution_text, retyped_text,
  Array, Entry, FieldType, columns_for, entries, loaded_entry, missing_entry, schema,
}
use rust_streamer_pgdb.Pipeline.Report.{LoadReport}
use rust_streamer_pgdb.Pipeline.State.{TableStats}
use rust_streamer_pgdb.Prelude.{
  append-nil, ◌-◌, sym, ◌^◌, arith, none, leb, if◌then◌else◌, some, Option, map-append, length-map,
  ap₂, refl, replicate, [], not, ◌∙◌, ap, length-append, codes, ◌++◌, true, map, ◌∷◌, ◌≡◌, ◌+◌, ℕ,
  Bytes, length, List,
}
use rust_streamer_pgdb.Pipeline.Config.{is_listed}
use rust_streamer_pgdb.Sink.Drift.{joined_names}

pub entries-length :
    (report : LoadReport)
    → length (entries report) ≡ length report.tables + length report.missing_tables
unfolding entries
entries-length report =
    length-append (map (loaded_entry report.unexpected_tables) report.tables)
      (map missing_entry report.missing_tables)
    ∙ ap₂ (λ a b. a + b) (length-map (loaded_entry report.unexpected_tables) report.tables)
        (length-map missing_entry report.missing_tables)

-- A number that is at most the limit.
abbrev pub within : ℕ → ℕ → Option ℕ
within limit n = if leb n limit then some n else none

abbrev pub from_within : Option ℕ → Option ℕ
from_within none = none
from_within (some v) = within 2147483647 v

-- The number, or the limit if it is above.
abbrev pub at_most : ℕ → ℕ → ℕ
at_most limit n = if leb n limit then n else limit

-- Texts with a comma and a space in front of each but the first.
abbrev pub each_behind_comma : List Bytes → Bytes
each_behind_comma [] = []
each_behind_comma (n ∷ ns) = codes ", " ++ (n ++ each_behind_comma ns)

abbrev pub separated : List Bytes → Bytes
separated [] = []
separated (n ∷ ns) = n ++ each_behind_comma ns

abbrev pub was_and_now : Bytes × Bytes × Bytes → Bytes
was_and_now x = x.0 ++ (codes ": " ++ (x.1 ++ (codes " -> " ++ x.2)))

abbrev pub and_count : Bytes × ℕ → Bytes
and_count x = x.0 ++ (codes "=" ++ number x.1)

abbrev pub and_type : Bytes × Bytes → Bytes
and_type x = x.0 ++ (codes ": " ++ x.1)

-- A column that has a value of each loaded table, and then one and the same for each missing one.
abbrev pub loaded_or : {X : Type 0} → LoadReport → (TableStats → X) → X → List X
loaded_or report g x = map g report.tables ++ replicate (length report.missing_tables) x

-- A column with the same value in each row.
abbrev pub in_each_row : {X : Type 0} → LoadReport → X → List X
in_each_row report x = replicate (length report.tables + length report.missing_tables) x

-- The columns that are meant for a report, by name.
abbrev pub told : LoadReport → Bytes → ℕ → List (Bytes × Array)
told report load_id at =
    (codes "load_id", Array.string_array (in_each_row report load_id))
    ∷ (codes "loaded_at", Array.timestamp_array (in_each_row report at))
    ∷ (
      codes "table",
      Array.string_array (map (λ (s : TableStats). s.table) report.tables ++ report.missing_tables),
    )
    ∷ (
      codes "status",
      Array.string_array (loaded_or report (λ s. codes "loaded") (codes "missing")),
    )
    ∷ (
      codes "expected",
      Array.boolean_array
          (loaded_or report (λ s. not (is_listed report.unexpected_tables s.table)) true),
    )
    ∷ (
      codes "delta_version",
      Array.int64_options (loaded_or report (λ s. within 9223372036854775807 s.delta_version) none),
    )
    ∷ (
      codes "rows",
      Array.int64_options (loaded_or report (λ s. within 9223372036854775807 s.rows) none),
    )
    ∷ (
      codes "batches",
      Array.int64_options (loaded_or report (λ s. within 9223372036854775807 s.batches) none),
    )
    ∷ (
      codes "dumped_by",
      Array.int32_array
          (in_each_row report (if leb report.dumped_by 2147483647 then report.dumped_by else 0)),
    )
    ∷ (
      codes "from_database",
      Array.int32_options (in_each_row report (from_within report.from_database)),
    )
    ∷ (codes "compression", Array.string_array (in_each_row report report.compression))
    ∷ (
      codes "bytes_read",
      Array.int64_array (in_each_row report (at_most 9223372036854775807 report.bytes_read)),
    )
    ∷ (
      codes "total_rows",
      Array.int64_array (in_each_row report (at_most 9223372036854775807 report.total_rows)),
    )
    ∷ (
      codes "schema_added",
      Array.string_array (loaded_or report (λ s. separated s.schema_drift.added) []),
    )
    ∷ (
      codes "schema_removed",
      Array.string_array (loaded_or report (λ s. separated s.schema_drift.removed) []),
    )
    ∷ (
      codes "schema_retyped",
      Array.string_array
          (loaded_or report (λ s. separated (map was_and_now s.schema_drift.retyped)) []),
    )
    ∷ (
      codes "null_substitutions",
      Array.string_array
          (loaded_or report (λ s. separated (map and_count s.null_substitutions)) []),
    )
    ∷ (
      codes "text_fallback_columns",
      Array.string_array
          (loaded_or report (λ s. separated (map and_type s.text_fallback_columns)) []),
    )
    ∷ []

-- The columns with the names of their fields.
abbrev pub named : List (Bytes × FieldType) → List Array → List (Bytes × Array)
named (f ∷ fields) (a ∷ arrays) = (f.0, a) ∷ named fields arrays
named _ _ = []

to_i64-within : (n : ℕ) → to_i64 n ≡ within 9223372036854775807 n
to_i64-within n = ground arith

dumped_by-within : (n : ℕ) → or_default 0 (to_i32 n) ≡ (if leb n 2147483647 then n else 0)
dumped_by-within n = ground arith

bytes-at_most : (n : ℕ) → or_default (2 ^ 63 - 1) (to_i64 n) ≡ at_most 9223372036854775807 n
bytes-at_most n = ground arith

and_then-within : (o : Option ℕ) → and_then o ≡ from_within o
and_then-within none = refl
and_then-within (some v) = ground arith

joined_names-separated : (names : List Bytes) → joined_names names ≡ separated names
joined_names-separated [] = refl
joined_names-separated (n ∷ []) = sym (append-nil n)
joined_names-separated (n ∷ next ∷ ns) =
    ap (λ rest. n ++ (codes ", " ++ rest)) (joined_names-separated (next ∷ ns))

-- A column of the entries, by what it has of a loaded table and of a missing one.
column-loaded_or :
    {X : Type 0} (report : LoadReport) (f : Entry → X) (g : TableStats → X) (x : X)
    → ((s : TableStats) → f (loaded_entry report.unexpected_tables s) ≡ g s)
    → ((name : Bytes) → f (missing_entry name) ≡ x)
    → map f (entries report) ≡ loaded_or report g x
unfolding entries
column-loaded_or report f g x h k =
    map-append f (map (loaded_entry report.unexpected_tables) report.tables)
      (map missing_entry report.missing_tables)
    ∙ ap₂ (λ a b. a ++ b) (loaded report.tables) (missing report.missing_tables)
  where
    loaded :
        (stats : List TableStats)
        → map f (map (loaded_entry report.unexpected_tables) stats) ≡ map g stats
    loaded [] = refl
    loaded (s ∷ stats) = ap₂ (λ a b. a ∷ b) (h s) (loaded stats)

    missing : (names : List Bytes) → map f (map missing_entry names) ≡ replicate (length names) x
    missing [] = refl
    missing (name ∷ names) = ap₂ (λ a b. a ∷ b) (k name) (missing names)

column-names :
    (report : LoadReport)
    → map (λ (e : Entry). e.name) (entries report)
      ≡ map (λ (s : TableStats). s.table) report.tables ++ report.missing_tables
unfolding entries loaded_entry missing_entry
column-names report =
    map-append (λ (e : Entry). e.name) (map (loaded_entry report.unexpected_tables) report.tables)
      (map missing_entry report.missing_tables)
    ∙ ap₂ (λ a b. a ++ b) (loaded report.tables) (missing report.missing_tables)
  where
    loaded :
        (stats : List TableStats)
        → map (λ (e : Entry). e.name) (map (loaded_entry report.unexpected_tables) stats)
          ≡ map (λ (s : TableStats). s.table) stats
    loaded [] = refl
    loaded (s ∷ stats) = ap (λ b. s.table ∷ b) (loaded stats)

    missing : (names : List Bytes) → map (λ (e : Entry). e.name) (map missing_entry names) ≡ names
    missing [] = refl
    missing (name ∷ names) = ap (λ b. name ∷ b) (missing names)

pub columns_for-told :
    (report : LoadReport) (load_id : Bytes) (at : ℕ)
    → named schema (columns_for report load_id at) ≡ told report load_id at
unfolding columns_for loaded_entry missing_entry
columns_for-told report load_id at =
    rw
      (
        entries-length report,
        column-names report,
        column-loaded_or report (λ e. e.status) (λ s. codes "loaded") (codes "missing") (λ s. refl)
            (λ n. refl),
        column-loaded_or report (λ e. e.expected)
            (λ s. not (is_listed report.unexpected_tables s.table)) true (λ s. refl) (λ n. refl),
        column-loaded_or report (λ e. e.version) (λ s. within 9223372036854775807 s.delta_version)
            none (λ s. to_i64-within s.delta_version) (λ n. refl),
        column-loaded_or report (λ e. e.rows) (λ s. within 9223372036854775807 s.rows) none
            (λ s. to_i64-within s.rows) (λ n. refl),
        column-loaded_or report (λ e. e.batches) (λ s. within 9223372036854775807 s.batches) none
            (λ s. to_i64-within s.batches) (λ n. refl),
        dumped_by-within report.dumped_by,
        and_then-within report.from_database,
        bytes-at_most report.bytes_read,
        bytes-at_most report.total_rows,
        column-loaded_or report (λ e. e.added) (λ s. separated s.schema_drift.added) []
            (λ s. joined_names-separated s.schema_drift.added) (λ n. refl),
        column-loaded_or report (λ e. e.removed) (λ s. separated s.schema_drift.removed) []
            (λ s. joined_names-separated s.schema_drift.removed) (λ n. refl),
        column-loaded_or report (λ e. e.retyped)
            (λ s. separated (map was_and_now s.schema_drift.retyped)) []
            (λ s. joined_names-separated (map retyped_text s.schema_drift.retyped)) (λ n. refl),
        column-loaded_or report (λ e. e.substitutions)
            (λ s. separated (map and_count s.null_substitutions)) []
            (λ s. joined_names-separated (map substitution_text s.null_substitutions)) (λ n. refl),
        column-loaded_or report (λ e. e.fallbacks)
            (λ s. separated (map and_type s.text_fallback_columns)) []
            (λ s. joined_names-separated (map fallback_text s.text_fallback_columns)) (λ n. refl),
      )
      refl
