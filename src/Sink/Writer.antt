-- ===== src/Sink/Writer.antt =====
-- src/sink.rs: `TableWriter`. What the writer of delta-rs does is the parameter `WriterOps`; an
-- action for each file that it wrote is what `flush` gives.
use rust_streamer_pgdb.Sink.Opening.{Schema}
use rust_streamer_pgdb.Prelude.{◌+◌, List, Bytes, ℕ}
use rust_streamer_pgdb.Error.{ok, ◌>>=◌, Result}

pub record WriterOps (W B A : Type 0) : Type 0 where
  pub try_new : Bytes → Schema → Result W
  pub write : W → B → Result W
  pub flush : W → Result (W × List A)

pub record TableWriter (W : Type 0) : Type 0 where
  pub writer : W
  pub rows : ℕ

module _ {W B A : Type 0} (ops : WriterOps W B A) where
  -- `TableWriter::new`
  unfoldable pub new_writer : Bytes → Schema → Result (TableWriter W)
  new_writer uri schema = ops.try_new uri schema >>= λ w. ok (record { writer = w; rows = 0 })

  -- `TableWriter::write`, with the number of rows of the batch.
  unfoldable pub write_batch : TableWriter W → B → ℕ → Result (TableWriter W)
  write_batch t batch num_rows =
      ops.write t.writer batch >>= λ w. ok (record { writer = w; rows = t.rows + num_rows })

  -- `TableWriter::stage`
  unfoldable pub stage : TableWriter W → Result (TableWriter W × List A)
  stage t = ops.flush t.writer >>= λ x. ok (record t { writer = x.0 }, x.1)
