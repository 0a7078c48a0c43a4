-- ===== src/Sink/Table.antt =====
-- src/sink.rs: `open_table` and `TableSink`. The store that `SharedStore` resolves goes to delta-rs alone,
-- and its failure is one of `load_table`.
use rust_streamer_pgdb.Sink.Opening.{
  Delta, Schema, WriteMode, OpenedTable, preload_table, finish_open, commit_table,
}
use rust_streamer_pgdb.Sink.Writer.{WriterOps, TableWriter, new_writer, write_batch, stage}
use rust_streamer_pgdb.Sink.Drift.{SchemaDrift, KernelType, is_unchanged}
use rust_streamer_pgdb.Scan.Names.{TableName, qualified}
use rust_streamer_pgdb.Prelude.{[], some, ◌++◌, none, if◌then◌else◌, List, ℕ, Bytes}
use rust_streamer_pgdb.Sink.Paths.{CharClass}
use rust_streamer_pgdb.Error.{ok, ◌>>=◌, Result}

pub record TableSink (T W A : Type 0) : Type 0 where
  pub name : Bytes
  pub table : T
  pub writer : TableWriter W
  pub mode : WriteMode
  pub staged : List A
  pub schema : Schema
  pub drift : SchemaDrift

module _ {T K A W B : Type 0} (d : Delta T K A) (w : WriterOps W B A) where
  unfoldable pub open_table :
      ⦃c : CharClass⦄ ⦃k : KernelType K⦄
      → Bytes
      → TableName
      → Schema
      → WriteMode
      → Result (OpenedTable T)
  open_table prefix name schema mode =
      preload_table d prefix name >>= λ preloaded. finish_open d preloaded name schema mode

  -- `TableSink::open`
  unfoldable pub open_sink :
      ⦃c : CharClass⦄ ⦃k : KernelType K⦄
      → Bytes
      → TableName
      → Schema
      → WriteMode
      → Result (TableSink T W A)
  open_sink prefix name schema mode = open_table prefix name schema mode >>= λ opened.
      new_writer w opened.uri schema >>= λ writer. ok (record {
        name = qualified name;
        table = opened.table;
        writer = writer;
        mode = mode;
        staged = [];
        schema = schema;
        drift = opened.drift;
      })

  -- `TableSink::write`, with the number of rows of the batch.
  unfoldable pub write_sink : TableSink T W A → B → ℕ → Result (TableSink T W A)
  write_sink s batch num_rows =
      write_batch w s.writer batch num_rows >>= λ writer. ok (record s { writer = writer })

  -- `TableSink::stage`
  unfoldable pub stage_sink : TableSink T W A → Result (TableSink T W A)
  stage_sink s = stage w s.writer >>= λ x. ok (record s { writer = x.0; staged = s.staged ++ x.1 })

  -- `TableSink::commit`
  unfoldable pub commit_sink : TableSink T W A → Result (TableSink T W A × ℕ)
  commit_sink s =
      commit_table d s.table s.staged s.mode (if is_unchanged s.drift then none else some s.schema)
      >>= λ version. ok (record s { staged = [] }, version)
