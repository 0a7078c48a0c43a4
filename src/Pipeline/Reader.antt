-- ===== src/Pipeline/Reader.antt =====
-- src/pipeline.rs: what each event of the scanner does to the reader of `drive`. A table
-- that is opened ahead is known by the name its task was started for: the task is run where it is
-- waited for. The permits that bound how many run at once are left out.
pub mod Causes
pub mod Outline
pub mod Refines
pub mod Jobs
pub mod Protocol
pub mod Rows
pub mod Seen
pub mod Structure
pub mod Works
pub mod Succeeds
use rust_streamer_pgdb.Pipeline.State.{
  insert_key, keep_counts, remove_key, or_empty, mismatched, block_open, no_open_block, OpenBlock,
  other_name, insert_name, Progress, fallback_columns, TableStats, Reader, none_open, get_key,
  same_table,
}
use rust_streamer_pgdb.Error.{
  Error, Result, ok, err, ◌>>=◌, internal, interrupted, unsafe_table_name, malformed_create_table,
  unsupported_dump_version,
}
use rust_streamer_pgdb.Scan.Scanner.{Event}
use rust_streamer_pgdb.Pipeline.Pool.{
  open_block, collect, close_block, dispatch, dispatch_all, BlockCtx, Pool, Sent, rows, Totals,
}
use rust_streamer_pgdb.Prelude.{
  ◌++◌, ◌==◌, ◌%◌, not, ◌+◌, ◌||◌, bytes_eq, false, true, ltb, ◌&&◌, some, Bool, if◌then◌else◌,
  none, ◌<◌, ◌∷◌, length, replicate, Bytes, List, [], Option, ℕ, codes,
}
use rust_streamer_pgdb.Types.Name.{Lowercase}
use rust_streamer_pgdb.Pipeline.Config.{
  resolve_copy_columns, reserved_collision, wanted, zipped, LoadConfig,
}
use rust_streamer_pgdb.Scan.Names.{qualified, TableName}
use rust_streamer_pgdb.Sink.Opening.{finish_open, preload_table, Schema, Delta}
use rust_streamer_pgdb.Scan.Ddl.{TableDef}
use rust_streamer_pgdb.Sink.Drift.{KernelType, SchemaDrift}
use rust_streamer_pgdb.Types.{ResolvedType}
use rust_streamer_pgdb.Sink.Paths.{CharClass}
use rust_streamer_pgdb.Builders.Schema.{arrow_schema}

module _ {T A : Type 0} where
  -- `Event::DumpVersion`
  abbrev pub on_version : LoadConfig → Reader T A → ℕ → Option ℕ → Result (Reader T A)
  on_version config r by from =
      if mismatched config.expect_pg_major by
      then err (unsupported_dump_version by)
      else ok (record r { dumped_by = some by; from_database = from })

  -- `Event::Table`
  abbrev pub on_table : LoadConfig → Reader T A → TableDef → Reader T A
  on_table config r def = record r {
    preloads =
        (if wanted config def.name
          then insert_key (qualified def.name) def.name r.preloads
          else r.preloads);
    table_defs = insert_key (qualified def.name) def r.table_defs;
  }

abbrev pub def_or_error : Bytes → Option TableDef → Result TableDef
def_or_error name none = err (malformed_create_table name)
def_or_error name (some def) = ok def

abbrev pub ctx_of : LoadConfig → ℕ → Bytes → List (Bytes × ResolvedType) → Schema → ℕ → BlockCtx
ctx_of config generation uri columns schema arity = record {
  generation = generation;
  uri = uri;
  schema = schema;
  columns = columns;
  arity = arity;
  limits = config.limits;
  batch_rows = config.batch_rows;
  batch_bytes = config.batch_bytes;
  wide_numeric_as_decimal = config.wide_numeric_as_decimal;
  native_arrays = config.native_arrays;
}

abbrev pub stats_of : {A : Type 0} → OpenBlock → Totals A → TableStats
stats_of block t = record {
  table = block.qualified;
  schema_drift = block.drift;
  rows = t.rows;
  batches = t.batches;
  delta_version = 0;
  null_substitutions = keep_counts (zipped block.columns t.substitutions);
  text_fallback_columns = fallback_columns block.columns;
}

abbrev pub zero_totals : {A : Type 0} → OpenBlock → Totals A
zero_totals block = record {
  rows = 0;
  batches = 0;
  substitutions = replicate (length block.columns) 0;
  actions = [];
}

-- The task of a table, or the table itself if no task was started.
abbrev pub task_name : TableName → Option TableName → TableName
task_name table none = table
task_name table (some started) = started

-- What a load is given from outside: the storage, the pool with its number of workers, and `progress`,
-- which may answer by how often it was called.
pub record Surroundings (T K A : Type 0) : Type 0 where
  pub delta : Delta T K A
  pub pool : Pool A
  pub threads : ℕ
  pub threads_positive : 0 < threads
  pub progress : ℕ → Progress → Bool

module _ {T K A : Type 0} ⦃l : Lowercase⦄ ⦃c : CharClass⦄ ⦃k : KernelType K⦄
    (env : Surroundings T K A) (config : LoadConfig) where
  -- `Event::CopyStart` for a table that is loaded, from the lookup of its definition on.
  unfoldable pub start_block : Reader T A → TableName → List Bytes → Result (Reader T A)
  start_block r table columns =
      def_or_error (qualified table) (get_key (qualified table) r.table_defs) >>= λ def.
      resolve_copy_columns def columns >>= λ resolved.
      let pairs = zipped columns resolved in
      let schema = arrow_schema pairs config.wide_numeric_as_decimal config.native_arrays in
      preload_table env.delta config.output_uri
        (task_name table (get_key (qualified table) r.preloads))
      >>= λ preloaded. finish_open env.delta preloaded table schema config.mode >>= λ opened.
          let generation = r.generation + 1 in
          let ctx = ctx_of config generation opened.uri pairs schema (length columns) in
          dispatch_all env.pool r.sent 0 env.threads (open_block ctx) >>= λ sent. ok (record r {
            preloads = remove_key (qualified table) r.preloads;
            open_tables =
                r.open_tables
                ++ record {
                  qualified = qualified table;
                  table = opened.table;
                  schema = schema;
                  drift = opened.drift;
                  actions = [];
                }
                  ∷ [];
            generation = generation;
            current = some (record {
              generation = generation;
              table = table;
              qualified = qualified table;
              columns = pairs;
              drift = opened.drift;
            });
            round_robin = 0;
            sent = sent;
          })

  abbrev pub start_unless_open :
      Reader T A → TableName → List Bytes → Option OpenBlock → Result (Reader T A)
  start_unless_open r table columns (some block) = err block_open
  start_unless_open r table columns none =
      if config.write_manifest && reserved_collision table
      then err (unsafe_table_name (qualified table))
      else if wanted config table
      then start_block (record r { seen_tables = insert_name (qualified table) r.seen_tables })
          table columns
      else ok
          (record r { seen_tables = insert_name (qualified table) r.seen_tables; skipping = true })

  -- `Event::CopyRows`
  abbrev pub rows_to_worker : Reader T A → Bytes → Option OpenBlock → Result (Reader T A)
  rows_to_worker r payload none = err no_open_block
  rows_to_worker r payload (some block) =
      dispatch env.pool r.sent (r.round_robin % env.threads) (rows block.generation payload)
      >>= λ sent. ok (record r { round_robin = r.round_robin + 1; sent = sent })

  abbrev pub on_rows : Reader T A → Bytes → Result (Reader T A)
  on_rows r payload = if r.skipping then ok r else rows_to_worker r payload r.current

  -- A call of `progress`.
  abbrev pub report_progress : Reader T A → ℕ → Option Bytes → Result (Reader T A)
  report_progress r bytes_read table =
      if env.progress r.progress_calls (record {
        bytes_read = bytes_read;
        rows = r.total_rows;
        tables_done = length r.tables;
        table = table;
      })
      then ok (record r { progress_calls = r.progress_calls + 1 })
      else err interrupted

  -- The jobs that close a block, and what its workers report.
  unfoldable pub finish_block : Reader T A → ℕ → OpenBlock → Result (Reader T A)
  finish_block r bytes_read block =
      dispatch_all env.pool r.sent 0 env.threads (close_block block.generation) >>= λ sent.
      collect env.pool sent 0 env.threads (zero_totals block) >>= λ totals.
      report_progress
        (record r {
          current = none;
          sent = sent;
          total_rows = r.total_rows + totals.rows;
          staged =
              insert_key block.qualified
                (or_empty (get_key block.qualified r.staged) ++ totals.actions) r.staged;
          tables = r.tables ++ stats_of block totals ∷ [];
        })
        bytes_read (some (qualified block.table))

  abbrev pub end_block : Reader T A → ℕ → TableName → Option OpenBlock → Result (Reader T A)
  end_block r bytes_read table none = err none_open
  end_block r bytes_read table (some block) =
      if same_table block.table table then finish_block r bytes_read block else err other_name

  -- `Event::CopyEnd`
  abbrev pub on_end : Reader T A → ℕ → TableName → Result (Reader T A)
  on_end r bytes_read table =
      if r.skipping
      then ok (record r { skipping = false })
      else end_block r bytes_read table r.current

  -- The `match` on an event.
  unfoldable pub on_event : Reader T A → ℕ → Event → Result (Reader T A)
  on_event r bytes_read (Event.dump_version by from) = on_version config r by from
  on_event r bytes_read (Event.table def) = ok (on_table config r def)
  on_event r bytes_read (Event.copy_start table columns) =
      start_unless_open r table columns r.current
  on_event r bytes_read (Event.copy_rows payload) = on_rows r payload
  on_event r bytes_read (Event.copy_end table) = on_end r bytes_read table

  -- `for event in …`
  unfoldable pub on_events : Reader T A → ℕ → List Event → Result (Reader T A)
  on_events r bytes_read [] = ok r
  on_events r bytes_read (e ∷ es) = on_event r bytes_read e >>= λ s. on_events s bytes_read es
