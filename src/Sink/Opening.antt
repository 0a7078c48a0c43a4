-- ===== src/Sink/Opening.antt =====
-- src/sink.rs: `preload_table`, `finish_open` and `commit_table`. What delta-rs does is the parameter
-- `Delta`: it answers by its arguments, or with an error. The options for the storage go to it alone
-- and are left out.
use rust_streamer_pgdb.Error.{◌>>=◌, Result, ok, err, table_exists, schema_changed}
use rust_streamer_pgdb.Sink.Drift.{
  summary, is_unchanged, diff_schema, no_drift, SchemaDrift, KernelType,
}
use rust_streamer_pgdb.Sink.Paths.{table_uri, CharClass}
use rust_streamer_pgdb.Prelude.{
  ◌&&◌, [], ◌∷◌, is_empty, not, none, ◌++◌, ℕ, if◌then◌else◌, false, some, Option, true, Bytes,
  List, Bool,
}
use rust_streamer_pgdb.Builders.Schema.{DataType}
use rust_streamer_pgdb.Scan.Names.{qualified, TableName}

pub data WriteMode : Type 0 where
  overwrite add_to error_if_exists : WriteMode

abbrev pub Schema : Type 0
Schema = List (Bytes × DataType)

pub record Delta (T K A : Type 0) : Type 0 where
  -- `ensure_table_uri`, the builder and `load`: the table, and its schema if it has a log.
  pub load_table : Bytes → Result (T × Option (List (Bytes × K)))
  pub try_into_kernel : Schema → Result (List (Bytes × K))
  pub create : T → List (Bytes × K) → Result T
  pub current_files : T → Result (List A)
  -- The `Metadata` action for a schema, if it is not the one that the table declares.
  pub updated_metadata : T → List (Bytes × K) → Result (Option A)
  -- `CommitBuilder` and the reload: the version.
  pub commit_actions : T → WriteMode → List A → Result ℕ

pub record PreloadedTable (T K : Type 0) : Type 0 where
  pub table : T
  pub uri : Bytes
  pub existing_schema : Option (List (Bytes × K))

pub record OpenedTable (T : Type 0) : Type 0 where
  pub table : T
  pub uri : Bytes
  pub drift : SchemaDrift

abbrev pub is_overwrite : WriteMode → Bool
is_overwrite WriteMode.overwrite = true
is_overwrite _ = false

abbrev pub is_append : WriteMode → Bool
is_append WriteMode.add_to = true
is_append _ = false

abbrev pub is_error_if_exists : WriteMode → Bool
is_error_if_exists WriteMode.error_if_exists = true
is_error_if_exists _ = false

abbrev pub with_metadata : {A : Type 0} → List A → Option A → List A
with_metadata actions none = actions
with_metadata actions (some metadata) = actions ++ metadata ∷ []

abbrev pub accept_drift :
    {T K : Type 0}
    → PreloadedTable T K
    → TableName
    → WriteMode
    → SchemaDrift
    → Result (OpenedTable T)
accept_drift p name mode drift =
    if not (is_unchanged drift) && is_append mode
    then err (schema_changed (qualified name) (summary drift))
    else ok (record { table = p.table; uri = p.uri; drift = drift })

module _ {T K A : Type 0} (d : Delta T K A) where
  unfoldable pub preload_table : ⦃c : CharClass⦄ → Bytes → TableName → Result (PreloadedTable T K)
  preload_table prefix name = table_uri prefix name >>= λ uri. d.load_table uri >>= λ loaded.
      ok (record { table = loaded.0; uri = uri; existing_schema = loaded.1 })

  -- `mode == ErrorIfExists && !current_files(…).is_empty()`
  abbrev pub refuse_existing : T → TableName → WriteMode → Result (Unit {0})
  refuse_existing table name mode =
      if is_error_if_exists mode
      then (d.current_files table >>= λ files.
          if is_empty files then ok tt else err (table_exists (qualified name)))
      else ok tt

  abbrev pub open_existing :
      ⦃k : KernelType K⦄
      → PreloadedTable T K
      → TableName
      → Schema
      → WriteMode
      → Option (List (Bytes × K))
      → Result (OpenedTable T)
  open_existing p name schema mode none = d.try_into_kernel schema >>= λ fields.
      d.create p.table fields >>= λ table.
      ok (record { table = table; uri = p.uri; drift = no_drift })
  open_existing p name schema mode (some current) = refuse_existing p.table name mode >>= λ _.
      d.try_into_kernel schema >>= λ incoming.
      accept_drift p name mode (diff_schema current incoming)

  unfoldable pub finish_open :
      ⦃k : KernelType K⦄
      → PreloadedTable T K
      → TableName
      → Schema
      → WriteMode
      → Result (OpenedTable T)
  finish_open p name schema mode = open_existing p name schema mode p.existing_schema

  abbrev pub declare_schema : T → List A → Option Schema → Result (List A)
  declare_schema table actions none = ok actions
  declare_schema table actions (some schema) = d.try_into_kernel schema >>= λ fields.
      d.updated_metadata table fields >>= λ metadata. ok (with_metadata actions metadata)

  abbrev pub actions_for : T → List A → WriteMode → Option Schema → Result (List A)
  actions_for table staged mode schema =
      if is_overwrite mode
      then (d.current_files table >>= λ files. declare_schema table (staged ++ files) schema)
      else ok staged

  unfoldable pub commit_table : T → List A → WriteMode → Option Schema → Result ℕ
  commit_table table staged mode schema =
      actions_for table staged mode schema >>= λ actions. d.commit_actions table mode actions
