-- ===== src/Manifest/Conforms.antt =====
-- src/manifest.rs: the batch that is appended has the shape that its schema declares, and the values
-- that are meant for the report.
use rust_streamer_pgdb.Manifest.{Array, Entry, FieldType, columns_for, entries, schema}
use rust_streamer_pgdb.Pipeline.Report.{LoadReport}
use rust_streamer_pgdb.Builders.Schema.{DataType}
use rust_streamer_pgdb.Prelude.{
  length-map, length-replicate, refl, replicate, [], ◌∙◌, true, map, ◌∷◌, ◌≡◌, ◌+◌, ℕ, false, Bytes,
  length, List,
}
use rust_streamer_pgdb.Manifest.Told.{entries-length, columns_for-told, told, named}

-- The type of a column, and whether it can hold NULL.
abbrev pub array_type : Array → FieldType
array_type (Array.string_array values) = (DataType.utf8, false)
array_type (Array.timestamp_array values) = (DataType.timestamp_utc, false)
array_type (Array.boolean_array values) = (DataType.boolean, false)
array_type (Array.int64_array values) = (DataType.int64, false)
array_type (Array.int64_options values) = (DataType.int64, true)
array_type (Array.int32_array values) = (DataType.int32, false)
array_type (Array.int32_options values) = (DataType.int32, true)

abbrev pub array_length : Array → ℕ
array_length (Array.string_array values) = length values
array_length (Array.timestamp_array values) = length values
array_length (Array.boolean_array values) = length values
array_length (Array.int64_array values) = length values
array_length (Array.int64_options values) = length values
array_length (Array.int32_array values) = length values
array_length (Array.int32_options values) = length values

-- There is a column for each field, of its type and of this length.
abbrev pub Conforms : ℕ → List (Bytes × FieldType) → List Array → Type 0
Conforms n [] [] = Unit
Conforms n (f ∷ fields) (a ∷ arrays) =
    (array_type a ≡ f.1) × (array_length a ≡ n) × Conforms n fields arrays
Conforms _ _ _ = ⊥

columns_for-shape :
    (report : LoadReport) (load_id : Bytes) (at : ℕ)
    → Conforms
        (length report.tables + length report.missing_tables)
        schema
        (columns_for report load_id at)
unfolding columns_for
columns_for-shape report load_id at = (
  refl,
  same _,
  (
    refl,
    same _,
    (
      refl,
      each _,
      (
        refl,
        each _,
        (
          refl,
          each _,
          (
            refl,
            each _,
            (
              refl,
              each _,
              (
                refl,
                each _,
                (
                  refl,
                  same _,
                  (
                    refl,
                    same _,
                    (
                      refl,
                      same _,
                      (
                        refl,
                        same _,
                        (
                          refl,
                          same _,
                          (
                            refl,
                            each _,
                            (refl, each _, (refl, each _, (refl, each _, (refl, each _, tt)))),
                          ),
                        ),
                      ),
                    ),
                  ),
                ),
              ),
            ),
          ),
        ),
      ),
    ),
  ),
)
  where
    same :
        {X : Type 0} (x : X)
        → length (replicate (length (entries report)) x)
          ≡ length report.tables + length report.missing_tables
    same x = length-replicate (length (entries report)) x ∙ entries-length report

    each :
        {X : Type 0} (f : Entry → X)
        → length (map f (entries report)) ≡ length report.tables + length report.missing_tables
    each f = length-map f (entries report) ∙ entries-length report

-- The columns of the load history have the types of the schema, NULL only where it allows one, and
-- one value for each table of the report and each that is missing. By the names of the schema they
-- are the columns that are meant: the loaded tables in order, each with its status, whether the
-- report does not call it unexpected, its version, rows and batches where they fit an `i64`, its
-- drift, substitutions and fallbacks as texts separated by commas; then the missing tables, expected
-- and without any of these; and in every row the same facts of the load.
pub columns_for-Conforms :
    (report : LoadReport) (load_id : Bytes) (at : ℕ)
    → Conforms
        (length report.tables + length report.missing_tables)
        schema
        (columns_for report load_id at)
      × (named schema (columns_for report load_id at) ≡ told report load_id at)
columns_for-Conforms report load_id at =
    (columns_for-shape report load_id at, columns_for-told report load_id at)
