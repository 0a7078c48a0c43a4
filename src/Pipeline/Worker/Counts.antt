-- ===== src/Pipeline/Worker/Counts.antt =====
-- src/pipeline.rs: what a worker reports of each block, if its jobs keep the protocol.
use rust_streamer_pgdb.Error.Ends.{Ends, Ends-bind, Ends-map, Ends-pure, Anything}
use rust_streamer_pgdb.Pipeline.Pool.{
  Job, open_block, rows, close_block, BlockCtx, BlockClosed, WorkerEvent, closed, failed,
}
use rust_streamer_pgdb.Pipeline.Worker.{
  new_block, get_at, insert_at, remove_at, flush_full, written, Worker, WorkerBlock, Tools, on_job,
  worker_loop, append_rows, flush_block, new_worker, closed_block, behind_job,
}
use rust_streamer_pgdb.Pipeline.Reader.Outline.{kind_of}
use rust_streamer_pgdb.Pipeline.Reader.Jobs.{Serves}
use rust_streamer_pgdb.Builders.Column.{ArrowBuilders, OtherParsers, Column, ColumnArray}
use rust_streamer_pgdb.Builders.Column.Ops.{column_ops, array_rows}
use rust_streamer_pgdb.Builders.Batch.Sizes.{
  IsSized, append_row_ranges-IsSized, finish_batch-IsSized, new_batch-IsSized, rows_in,
}
use rust_streamer_pgdb.Copy.Rows.{collect}
use rust_streamer_pgdb.Prelude.{
  ◌++◌, subst, map, sym, ◌∙◌, ==_iff, refl, false, true, none, if◌then◌else◌, Bool, some, ◌∷◌, [],
  Option, arith, length, Bytes, ◌≡◌, ◌+◌, ℕ, Memchr, List,
}
use rust_streamer_pgdb.Sink.Writer.{WriterOps, stage, TableWriter, new_writer, write_batch}
use rust_streamer_pgdb.Builders.Batch.{
  BatchOps, new_batch, is_full, append_row_ranges, finish_batch, BatchBuilder,
}
use rust_streamer_pgdb.Error.{err, Result, ok}
use rust_streamer_pgdb.Copy.DecodeRow.{decode_row}
use rust_streamer_pgdb.Builders.Schema.{DecimalBuilder}

module _ ⦃m : Memchr⦄ where
  -- The rows of each block that is closed, by its number, behind a number of rows of the first.
  unfoldable pub block_counts : ℕ → List Job → List (ℕ × ℕ)
  block_counts n [] = []
  block_counts n (open_block ctx ∷ jobs) = block_counts 0 jobs
  block_counts n (rows g bytes ∷ jobs) = block_counts (n + length (collect bytes).0) jobs
  block_counts n (close_block g ∷ jobs) = (g, n) ∷ block_counts 0 jobs

-- The events report these blocks with these rows, one by one, unless the last event is a failure.
abbrev pub Counted : {A : Type 0} → List (WorkerEvent A) → List (ℕ × ℕ) → Type 0
Counted [] [] = Unit
Counted (failed e ∷ []) counts = Unit
Counted (closed c ∷ events) (x ∷ counts) =
    (c.generation ≡ x.0) × (c.rows ≡ x.1) × Counted events counts
Counted _ _ = ⊥

module _ {C V B W A : Type 0} ⦃m : Memchr⦄ (tools : Tools C V B W A) where
  -- A block in order, with so many rows written or waiting.
  abbrev Holds : ℕ → WorkerBlock C W → Type 0
  Holds n block = IsSized tools.columns block.builder × (block.writer.rows + block.builder.rows ≡ n)

  flush_block-Holds :
      (n : ℕ) (block : WorkerBlock C W)
      → Holds n block
      → Ends Anything (λ t. Holds n t × (t.builder.rows ≡ 0)) (flush_block tools block)
  unfolding flush_block write_batch
  flush_block-Holds n block h =
      Ends-bind Anything _ _ (finish_batch tools.columns tools.batches block.builder) _
        (finish_batch-IsSized tools.columns tools.batches block.builder h.0) λ (b, o) g. after b o g
    where
      after :
          (b : BatchBuilder C) (o : Option B)
          → IsSized tools.columns b
            × (b.rows ≡ 0)
            × (rows_in tools.columns tools.batches o ≡ block.builder.rows)
          → Ends Anything
              (λ t. Holds n t × (t.builder.rows ≡ 0))
              (written tools (record block { builder = b }) o)
      after b none g = ((g.0, let e = g.1 in let f = g.2 in let k = h.1 in omega arith), g.1)
      after b (some batch) g =
          Ends-bind Anything (λ w. w.rows ≡ block.writer.rows + tools.batches.num_rows batch) _
            (write_batch tools.writer block.writer batch (tools.batches.num_rows batch)) _
            (Ends-pure _ (tools.writer.write block.writer.writer batch) _ λ w. refl)
            λ w r. ((g.0, let e = g.1 in let f = g.2 in let k = h.1 in omega arith), g.1)

  append_rows-Holds :
      (n : ℕ) (ctx : BlockCtx) (block : WorkerBlock C W) (lines : List Bytes)
      → Holds n block
      → Ends Anything (Holds (n + length lines)) (append_rows tools ctx block lines)
  unfolding append_rows
  append_rows-Holds n ctx block [] h = (h.0, let e = h.1 in omega arith)
  append_rows-Holds n ctx block (row ∷ lines) h =
      Ends-pure _ (decode_row row ctx.arity ctx.limits) _ λ d.
        Ends-bind Anything _ _ (append_row_ranges tools.columns block.builder d.0 d.1) _
          (append_row_ranges-IsSized tools.columns block.builder d.0 d.1 h.0)
          λ b g.
            Ends-bind Anything (Holds (n + 1)) _ (flush_full tools (record block { builder = b })) _
              (full b (is_full b) (g.0, let e = g.1 in let f = h.1 in omega arith))
              λ next k.
                Ends-map Anything _ _ (append_rows tools ctx next lines)
                  (append_rows-Holds (n + 1) ctx next lines k)
                  λ t r. (r.0, let e = r.1 in omega arith)
    where
      full :
          (b : BatchBuilder C) (test : Bool)
          → Holds (n + 1) (record block { builder = b })
          → Ends Anything (Holds (n + 1)) (
              if test
              then flush_block tools (record block { builder = b })
              else ok (record block { builder = b }))
      full b true g =
          Ends-map Anything _ _ (flush_block tools (record block { builder = b }))
            (flush_block-Holds (n + 1) (record block { builder = b }) g) λ t k. k.0
      full b false g = g

  -- The number of blocks, the contexts and the blocks that a worker has where the protocol is.
  abbrev At : ℕ × Bool → ℕ → List (ℕ × BlockCtx) → List (ℕ × WorkerBlock C W) → Type 0
  At (g, false) n [] [] = Unit
  At (g, true) n ((h, ctx) ∷ []) [] = (h ≡ g) × (n ≡ 0)
  At (g, true) n ((h, ctx) ∷ []) ((k, block) ∷ []) = (h ≡ g) × (k ≡ g) × Holds n block
  At _ _ _ _ = ⊥

  new_block-Holds : (ctx : BlockCtx) → Ends Anything (Holds 0) (new_block tools ctx)
  unfolding new_writer new_batch
  new_block-Holds ctx =
      Ends-bind Anything (λ w. w.rows ≡ 0) _ (new_writer tools.writer ctx.uri ctx.schema) _
        (Ends-pure _ (tools.writer.try_new ctx.uri ctx.schema) _ λ w. refl)
        λ w e. (
          new_batch-IsSized tools.columns ctx.columns ctx.batch_rows ctx.batch_bytes
              ctx.wide_numeric_as_decimal ctx.native_arrays,
          omega arith,
        )

  open_step :
      (g : ℕ) (n : ℕ) (ctxs : List (ℕ × BlockCtx)) (blocks : List (ℕ × WorkerBlock C W))
      (ctx : BlockCtx)
      → At (g, false) n ctxs blocks
      → Ends Anything
          (λ x. At (ctx.generation, true) 0 x.0.ctxs x.0.blocks × (x.1 ≡ []))
          (on_job tools (record { ctxs = ctxs; blocks = blocks }) (open_block ctx))
  unfolding on_job insert_at
  open_step g n [] [] ctx h = ((refl, refl), refl)
  open_step g n [] (b ∷ bs) ctx h = absurd h
  open_step g n (c ∷ cs) bs ctx h = absurd h

  rows_step :
      (g n : ℕ) (ctxs : List (ℕ × BlockCtx)) (blocks : List (ℕ × WorkerBlock C W)) (k : ℕ)
      (bytes : Bytes)
      → k ≡ g
      → At (g, true) n ctxs blocks
      → Ends Anything
          (λ x. At (g, true) (n + length (collect bytes).0) x.0.ctxs x.0.blocks × (x.1 ≡ []))
          (on_job tools (record { ctxs = ctxs; blocks = blocks }) (rows k bytes))
  unfolding on_job insert_at get_at
  rows_step g n [] bs k bytes e h = absurd h
  rows_step g n (c ∷ d ∷ cs) bs k bytes e h = absurd h
  rows_step g n ((i, ctx) ∷ []) (b ∷ d ∷ bs) k bytes e h = absurd h
  rows_step g n ((i, ctx) ∷ []) [] k bytes e h = rw ((==_iff i k).1 (h.0 ∙ sym e)) (
      Ends-bind Anything _ _ (new_block tools ctx) _ (new_block-Holds ctx) λ block f.
        Ends-bind Anything _ _ (append_rows tools ctx block (collect bytes).0) _
          (append_rows-Holds 0 ctx block (collect bytes).0 f)
          λ filled t. ((h.0, e, (t.0, let u = t.1 in let v = h.1 in omega arith)), refl))
  rows_step g n ((i, ctx) ∷ []) ((j, block) ∷ []) k bytes e h =
      rw ((==_iff i k).1 (h.0 ∙ sym e), (==_iff j k).1 (h.1 ∙ sym e))
        (Ends-bind Anything _ _ (append_rows tools ctx block (collect bytes).0) _
          (append_rows-Holds n ctx block (collect bytes).0 h.2) λ filled t. ((h.0, e, t), refl))

  stage-rows : (t : TableWriter W) → Ends Anything (λ x. x.0.rows ≡ t.rows) (stage tools.writer t)
  unfolding stage
  stage-rows t = Ends-pure _ (tools.writer.flush t.writer) _ λ x. refl

  -- The one block that a job closes, with its number and its rows.
  abbrev ClosedOne : ℕ → ℕ → List (BlockClosed A) → Type 0
  ClosedOne g n (c ∷ []) = (c.generation ≡ g) × (c.rows ≡ n)
  ClosedOne g n _ = ⊥

  close_step :
      (g n : ℕ) (ctxs : List (ℕ × BlockCtx)) (blocks : List (ℕ × WorkerBlock C W)) (k : ℕ)
      → k ≡ g
      → At (g, true) n ctxs blocks
      → Ends Anything
          (λ x. At (g, false) 0 x.0.ctxs x.0.blocks × ClosedOne k n x.1)
          (on_job tools (record { ctxs = ctxs; blocks = blocks }) (close_block k))
  unfolding on_job remove_at get_at
  close_step g n [] bs k e h = absurd h
  close_step g n (c ∷ d ∷ cs) bs k e h = absurd h
  close_step g n ((i, ctx) ∷ []) (b ∷ d ∷ bs) k e h = absurd h
  close_step g n ((i, ctx) ∷ []) [] k e h = rw ((==_iff i k).1 (h.0 ∙ sym e)) (tt, (refl, sym h.1))
  close_step g n ((i, ctx) ∷ []) ((j, block) ∷ []) k e h =
      rw ((==_iff i k).1 (h.0 ∙ sym e), (==_iff j k).1 (h.1 ∙ sym e))
        (Ends-bind Anything (λ c. (c.generation ≡ k) × (c.rows ≡ n)) _
          (closed_block tools k (some block)) _ (closes block h.2) λ c f. (tt, f))
    where
      closes :
          (block : WorkerBlock C W)
          → Holds n block
          → Ends Anything
              (λ c. (c.generation ≡ k) × (c.rows ≡ n))
              (closed_block tools k (some block))
      closes block f =
          Ends-bind Anything _ _ (flush_block tools block) _ (flush_block-Holds n block f) λ last t.
            Ends-bind Anything (λ x. x.0.rows ≡ last.writer.rows) _ (stage tools.writer last.writer)
              _ (stage-rows last.writer)
              λ x r. (refl, let u = t.0 in let v = u.1 in let w = t.1 in omega arith)

  -- The blocks of a job that closes none, or one, in front of what the later jobs report.
  quiet-Counted :
      (s : ℕ × Bool) (n : ℕ) (counts : List (ℕ × ℕ))
      (r : Result (Worker C W × List (BlockClosed A))) (rest : Worker C W → List (WorkerEvent A))
      → Ends Anything (λ x. At s n x.0.ctxs x.0.blocks × (x.1 ≡ [])) r
      → ((w : Worker C W) → At s n w.ctxs w.blocks → Counted (rest w) counts)
      → Counted (behind_job tools r rest) counts
  quiet-Counted s n counts (err e) rest h later = tt
  quiet-Counted s n counts (ok (w, cs)) rest h later =
      subst (λ cs. Counted (map closed cs ++ rest w) counts) (sym h.1) (later w h.0)

  closing-Counted :
      (g k n : ℕ) (counts : List (ℕ × ℕ)) (r : Result (Worker C W × List (BlockClosed A)))
      (rest : Worker C W → List (WorkerEvent A))
      → Ends Anything (λ x. At (g, false) 0 x.0.ctxs x.0.blocks × ClosedOne k n x.1) r
      → ((w : Worker C W) → At (g, false) 0 w.ctxs w.blocks → Counted (rest w) counts)
      → Counted (behind_job tools r rest) ((k, n) ∷ counts)
  closing-Counted g k n counts (err e) rest h later = tt
  closing-Counted g k n counts (ok (w, [])) rest h later = absurd h.1
  closing-Counted g k n counts (ok (w, c ∷ d ∷ cs)) rest h later = absurd h.1
  closing-Counted g k n counts (ok (w, c ∷ [])) rest h later = (h.1.0, h.1.1, later w h.0)

  worker_loop-from :
      (s t : ℕ × Bool) (n : ℕ) (w : Worker C W) (jobs : List Job)
      → Serves s (map kind_of jobs) t
      → At s n w.ctxs w.blocks
      → Counted (worker_loop tools w jobs) (block_counts n jobs)
  unfolding worker_loop block_counts
  worker_loop-from s t n w [] h a = tt
  worker_loop-from (g, true) t n w (open_block ctx ∷ jobs) h a = absurd h.0
  worker_loop-from (g, false) t n w (open_block ctx ∷ jobs) h a =
      quiet-Counted (ctx.generation, true) 0 (block_counts 0 jobs) (on_job tools w (open_block ctx))
        (λ next. worker_loop tools next jobs) (open_step g n w.ctxs w.blocks ctx a)
        λ next b. worker_loop-from (ctx.generation, true) t 0 next jobs h.1 b
  worker_loop-from (g, false) t n w (rows k bytes ∷ jobs) h a = absurd h.0
  worker_loop-from (g, true) t n w (rows k bytes ∷ jobs) h a =
      quiet-Counted (g, true) (n + length (collect bytes).0)
        (block_counts (n + length (collect bytes).0) jobs) (on_job tools w (rows k bytes))
        (λ next. worker_loop tools next jobs) (rows_step g n w.ctxs w.blocks k bytes h.0 a)
        λ next b. worker_loop-from (g, true) t (n + length (collect bytes).0) next jobs h.1 b
  worker_loop-from (g, false) t n w (close_block k ∷ jobs) h a = absurd h.0
  worker_loop-from (g, true) t n w (close_block k ∷ jobs) h a =
      closing-Counted g k n (block_counts 0 jobs) (on_job tools w (close_block k))
        (λ next. worker_loop tools next jobs) (close_step g n w.ctxs w.blocks k h.0 a)
        λ next b. worker_loop-from (g, false) t 0 next jobs h.1 b

  worker_loop_lem :
      (jobs : List Job) (t : ℕ × Bool)
      → Serves (0, false) (map kind_of jobs) t
      → Counted (worker_loop tools new_worker jobs) (block_counts 0 jobs)
  worker_loop_lem jobs t h = worker_loop-from (0, false) t 0 new_worker jobs h tt

-- The tools of a worker: the columns are those of the program, over the builders of the arrow crate.
abbrev pub worker_tools :
    {F S V B W A : Type 0} ⦃d : DecimalBuilder⦄ (arrow : ArrowBuilders F S V)
    → OtherParsers F
    → BatchOps (ColumnArray V) B (array_rows arrow)
    → WriterOps W B A
    → Tools (Column S) (ColumnArray V) B W A
worker_tools arrow others batches writer = record {
  columns = column_ops arrow others;
  batches = batches;
  writer = writer;
}

-- A worker whose jobs keep the protocol reports one by one each block that is closed, under its
-- number and with as many rows as its jobs hold, until a failure ends its events. Columns are
-- appended and finished by the code of the builders; what is assumed is that a builder of the arrow
-- crate appends one value for each call and hands over all of them, and that a record batch has
-- the rows of its first column and is refused without one. The other parsers, the decimal builder
-- and the writer may do anything.
pub worker_loop-Counted :
    {F S V B W A : Type 0} ⦃m : Memchr⦄ ⦃d : DecimalBuilder⦄ (arrow : ArrowBuilders F S V)
    (others : OtherParsers F) (batches : BatchOps (ColumnArray V) B (array_rows arrow))
    (writer : WriterOps W B A) (jobs : List Job) (t : ℕ × Bool)
    → Serves (0, false) (map kind_of jobs) t
    → Counted
        (worker_loop (worker_tools arrow others batches writer) new_worker jobs)
        (block_counts 0 jobs)
worker_loop-Counted arrow others batches writer jobs t h =
    worker_loop_lem (worker_tools arrow others batches writer) jobs t h
