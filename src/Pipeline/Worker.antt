-- ===== src/Pipeline/Worker.antt =====
-- src/pipeline.rs: the loop of a decode worker. The columns, batches and the writer are the interfaces
-- of Builders.Batch and Sink.Writer. The channels are the list of jobs and the list of events; the
-- reader takes every event.
pub mod Counts
pub mod Tests
use rust_streamer_pgdb.Pipeline.Pool.{
  Job, open_block, rows, close_block, BlockCtx, BlockClosed, WorkerEvent, closed, failed,
  pool_stopped,
}
use rust_streamer_pgdb.Builders.Batch.{
  BatchBuilder, BatchOps, ColumnOps, new_batch, append_row_ranges, finish_batch, is_full,
}
use rust_streamer_pgdb.Sink.Writer.{WriterOps, TableWriter, new_writer, write_batch, stage}
use rust_streamer_pgdb.Copy.DecodeRow.{decode_row}
use rust_streamer_pgdb.Copy.Rows.{collect}
use rust_streamer_pgdb.Prelude.{
  ◌++◌, ◌==◌, ◌+◌, map, some, if◌then◌else◌, none, ◌∷◌, Bytes, List, ℕ, [], Option, Memchr,
}
use rust_streamer_pgdb.Error.{◌>>=◌, err, ok, Result}

pub record WorkerBlock (C W : Type 0) : Type 0 where
  pub builder : BatchBuilder C
  pub writer : TableWriter W
  pub batches : ℕ

-- The maps of the worker, by the number of a block.
module _ {X : Type 0} where
  unfoldable pub insert_at : ℕ → X → List (ℕ × X) → List (ℕ × X)
  insert_at n x [] = (n, x) ∷ []
  insert_at n x ((k, y) ∷ rest) = if k == n then (n, x) ∷ rest else (k, y) ∷ insert_at n x rest

  unfoldable pub get_at : ℕ → List (ℕ × X) → Option X
  get_at n [] = none
  get_at n ((k, y) ∷ rest) = if k == n then some y else get_at n rest

  unfoldable pub remove_at : ℕ → List (ℕ × X) → List (ℕ × X)
  remove_at n [] = []
  remove_at n ((k, y) ∷ rest) = if k == n then rest else (k, y) ∷ remove_at n rest

pub record Worker (C W : Type 0) : Type 0 where
  pub ctxs : List (ℕ × BlockCtx)
  pub blocks : List (ℕ × WorkerBlock C W)

abbrev pub new_worker : {C W : Type 0} → Worker C W
new_worker = record { ctxs = []; blocks = [] }

abbrev pub ctx_or_stopped : Option BlockCtx → Result BlockCtx
ctx_or_stopped none = err pool_stopped
ctx_or_stopped (some ctx) = ok ctx

-- What a worker is given: columns, batches and the writer.
pub record Tools (C V B W A : Type 0) : Type 0 where
  pub columns : ColumnOps C V
  pub batches : BatchOps V B columns.array_size
  pub writer : WriterOps W B A

module _ {C V B W A : Type 0} ⦃m : Memchr⦄ (tools : Tools C V B W A) where
  abbrev pub new_block : BlockCtx → Result (WorkerBlock C W)
  new_block ctx = new_writer tools.writer ctx.uri ctx.schema >>= λ w. ok (record {
    builder =
        new_batch tools.columns ctx.columns ctx.batch_rows ctx.batch_bytes
          ctx.wide_numeric_as_decimal ctx.native_arrays;
    writer = w;
    batches = 0;
  })

  abbrev pub block_or_new : BlockCtx → Option (WorkerBlock C W) → Result (WorkerBlock C W)
  block_or_new ctx none = new_block ctx
  block_or_new ctx (some block) = ok block

  abbrev pub written : WorkerBlock C W → Option B → Result (WorkerBlock C W)
  written block none = ok block
  written block (some batch) =
      write_batch tools.writer block.writer batch (tools.batches.num_rows batch) >>= λ w.
      ok (record block { writer = w; batches = block.batches + 1 })

  -- `if let Some(batch) = block.builder.finish()?`
  unfoldable pub flush_block : WorkerBlock C W → Result (WorkerBlock C W)
  flush_block block = finish_batch tools.columns tools.batches block.builder >>= λ x.
      written (record block { builder = x.0 }) x.1

  abbrev pub flush_full : WorkerBlock C W → Result (WorkerBlock C W)
  flush_full block = if is_full block.builder then flush_block block else ok block

  -- `for row in copy::rows(&bytes)`
  unfoldable pub append_rows : BlockCtx → WorkerBlock C W → List Bytes → Result (WorkerBlock C W)
  append_rows ctx block [] = ok block
  append_rows ctx block (row ∷ later) = decode_row row ctx.arity ctx.limits >>= λ d.
      append_row_ranges tools.columns block.builder d.0 d.1 >>= λ b.
      flush_full (record block { builder = b }) >>= λ next. append_rows ctx next later

  abbrev pub closed_block : ℕ → Option (WorkerBlock C W) → Result (BlockClosed A)
  closed_block g none =
      ok (record { generation = g; rows = 0; batches = 0; substitutions = []; staged = [] })
  closed_block g (some block) = flush_block block >>= λ last.
      stage tools.writer last.writer >>= λ x. ok (record {
        generation = g;
        rows = x.0.rows;
        batches = last.batches;
        substitutions = last.builder.substitutions;
        staged = x.1;
      })

  -- The `match` on a job, with the blocks it closes.
  unfoldable pub on_job : Worker C W → Job → Result (Worker C W × List (BlockClosed A))
  on_job w (open_block ctx) = ok (record w { ctxs = insert_at ctx.generation ctx w.ctxs }, [])
  on_job w (rows g bytes) = ctx_or_stopped (get_at g w.ctxs) >>= λ ctx.
      block_or_new ctx (get_at g w.blocks) >>= λ block.
      append_rows ctx block (collect bytes).0 >>= λ filled.
      ok (record w { blocks = insert_at g filled w.blocks }, [])
  on_job w (close_block g) = closed_block g (get_at g w.blocks) >>= λ c.
      ok (record { ctxs = remove_at g w.ctxs; blocks = remove_at g w.blocks }, c ∷ [])

  abbrev pub behind_job :
      Result (Worker C W × List (BlockClosed A))
      → (Worker C W → List (WorkerEvent A))
      → List (WorkerEvent A)
  behind_job (err e) rest = failed e ∷ []
  behind_job (ok (w, cs)) rest = map closed cs ++ rest w

  -- `worker_loop`, with the event that `worker` sends if it fails.
  unfoldable pub worker_loop : Worker C W → List Job → List (WorkerEvent A)
  worker_loop w [] = []
  worker_loop w (job ∷ jobs) = behind_job (on_job w job) (λ next. worker_loop next jobs)
