-- ===== src/Pipeline/Worker/Tests.antt =====
-- src/pipeline.rs: the theorem on the loop of a worker at concrete input.
use rust_streamer_pgdb.Pipeline.Pool.{Job, open_block, rows, close_block, BlockCtx}
use rust_streamer_pgdb.Pipeline.Worker.{worker_loop, new_worker}
use rust_streamer_pgdb.Builders.Column.{ArrowBuilders, OtherParsers, Value, ColumnArray}
use rust_streamer_pgdb.Builders.Column.Ops.{array_rows}
use rust_streamer_pgdb.Pipeline.Worker.Counts.{
  worker_tools, block_counts, worker_loop-Counted, Counted,
}
use rust_streamer_pgdb.Copy.Rows.{collect}
use rust_streamer_pgdb.Prelude.Loop.{loop}
use rust_streamer_pgdb.Prelude.{
  some, length-append, length, arith, ◌&&◌, ◌++◌, ◌≡◌, leb, Option, ◌≤◌, none, first_index,
}
use rust_streamer_pgdb.Builders.Batch.{BatchOps}
use rust_streamer_pgdb.Sink.Writer.{WriterOps}
use rust_streamer_pgdb.Types.{scale_fits, PgType, ResolvedType}
use rust_streamer_pgdb.Prelude.{
  refl, true, ap, sym, false, subst, linear_search, Bool, [], ℕ, Memchr, ◌∷◌, codes, List,
}
use rust_streamer_pgdb.Error.{interrupted, err, ok, Result}
use rust_streamer_pgdb.Copy.Field.{default_limits}
use rust_streamer_pgdb.Builders.Schema.{DecimalBuilder}
use rust_streamer_pgdb.Prelude.Int.{ℤ}

instance abbrev search_bytes : Memchr
search_bytes = linear_search

abbrev resolved_a : ResolvedType
resolved_a = record {
  pg = PgType.integer;
  is_array = false;
  array_dimensions = 0;
  recognised = true;
  source = codes "integer";
}

abbrev batch_or : Result ℕ → ℕ
batch_or (ok b) = b
batch_or (err e) = 0

abbrev Refused : Result ℕ → Type 0
Refused (ok b) = ⊥
Refused (err e) = Unit

abbrev accepted : ℕ → ℤ → Bool
accepted p s = leb 1 p && leb p 38 && scale_fits p (some s)

fitting_lem : (p s : ℕ) → 1 ≤ p → p ≤ 38 → s ≤ p → accepted p (ℤ.pos s) ≡ true
fitting_lem p s positive narrow le = ground arith

instance abbrev decimal_builders : DecimalBuilder
decimal_builders = record { accepts = accepted; accepts_fitting = fitting_lem }

-- Builders that hold their values in a list.
abbrev value_lists :
    ArrowBuilders (Unit {0}) (List (Option (Value (Unit {0})))) (List (Option (Value (Unit {0}))))
value_lists = record {
  empty = λ kind. [];
  append_option = λ s v. s ++ v ∷ [];
  finish = λ s. ([], s);
  len = λ s. length s;
  array_len = λ vs. length vs;
  empty_len = λ kind. refl;
  append_len = λ s v. length-append s (v ∷ []);
  finish_len = λ s. (refl, refl);
}

-- No column of the example has one of these types.
abbrev no_parsers : OtherParsers (Unit {0})
no_parsers = record {
  parse_f32 = λ v name. ok none;
  parse_f64 = λ v name. ok none;
  parse_date = λ v name. ok none;
  parse_time = λ v name. ok none;
  parse_timestamp = λ v tz name. ok none;
}

abbrev first_rows : List (ColumnArray (List (Option (Value (Unit {0}))))) → Result ℕ
first_rows [] = err interrupted
first_rows (v ∷ vs) = ok (array_rows value_lists v)

-- A batch that is told by its first column.
abbrev counted_batch :
    BatchOps (ColumnArray (List (Option (Value (Unit {0}))))) ℕ (array_rows value_lists)
counted_batch = record {
  try_new = λ schema vs. first_rows vs;
  num_rows = λ b. b;
  some_column = λ schema b e. subst Refused e tt;
  rows_of_column = λ schema v vs b e. sym (ap batch_or e);
}

abbrev one_file : WriterOps (Unit {0}) ℕ ℕ
one_file = record {
  try_new = λ uri schema. ok tt;
  write = λ w b. ok tt;
  flush = λ w. ok (tt, 1 ∷ []);
}

abbrev ctx_one : BlockCtx
ctx_one = record {
  generation = 1;
  uri = codes "/out/t";
  schema = [];
  columns = (codes "a", resolved_a) ∷ [];
  arity = 1;
  limits = default_limits;
  batch_rows = 2;
  batch_bytes = 1000;
  wide_numeric_as_decimal = false;
  native_arrays = false;
}

-- A block of three rows, in two jobs.
abbrev three_rows : List Job
three_rows =
    open_block ctx_one ∷ rows 1 (codes "1\n2\n") ∷ rows 1 (codes "3\n") ∷ close_block 1 ∷ []

worker_loop-Counted_example :
    Counted
      (worker_loop
        (worker_tools value_lists no_parsers counted_batch one_file)
        new_worker
        three_rows)
      ((1, 3) ∷ [])
unfolding block_counts collect loop first_index
worker_loop-Counted_example =
    worker_loop-Counted value_lists no_parsers counted_batch one_file three_rows (1, false)
      (refl, (refl, (refl, (refl, refl))))
