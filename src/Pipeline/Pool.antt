-- ===== src/Pipeline/Pool.antt =====
-- src/pipeline.rs: the jobs of the workers and what comes back. What a worker answers is the
-- parameter `Pool`: whether a send is taken, and the events, by the jobs sent so far.
use rust_streamer_pgdb.Error.{◌>>=◌, Error, Result, ok, err, io}
use rust_streamer_pgdb.Prelude.{
  none, zero, [], Bytes, if◌then◌else◌, ◌∷◌, some, suc, Bool, ◌++◌, ℕ, codes, Option, ◌+◌, List,
}
use rust_streamer_pgdb.Builders.Schema.{DataType}
use rust_streamer_pgdb.Types.{ResolvedType}
use rust_streamer_pgdb.Copy.Field.{Limits}

pub record BlockCtx : Type 0 where
  pub generation : ℕ
  pub uri : Bytes
  pub schema : List (Bytes × DataType)
  pub columns : List (Bytes × ResolvedType)
  pub arity : ℕ
  pub limits : Limits
  pub batch_rows : ℕ
  pub batch_bytes : ℕ
  pub wide_numeric_as_decimal : Bool
  pub native_arrays : Bool

pub data Job : Type 0 where
  open_block : (ctx : BlockCtx) → Job
  rows : (generation : ℕ) (bytes : Bytes) → Job
  close_block : (generation : ℕ) → Job

-- A worker, by its index, and its job.
abbrev pub Sent : Type 0
Sent = ℕ × Job

pub record BlockClosed (A : Type 0) : Type 0 where
  pub generation : ℕ
  pub rows : ℕ
  pub batches : ℕ
  pub substitutions : List ℕ
  pub staged : List A

pub data WorkerEvent (A : Type 0) : Type 0 where
  closed : BlockClosed A → WorkerEvent A
  failed : Error → WorkerEvent A

pub record Pool (A : Type 0) : Type 0 where
  pub takes : List Sent → ℕ → Job → Bool
  -- The event that `recv` gives behind the jobs sent and a number of events received for the block.
  pub event : List Sent → ℕ → Option (WorkerEvent A)

abbrev pub pool_stopped : Error
pool_stopped = io (codes "decode pool stopped unexpectedly")

abbrev pub failure_of : {A : Type 0} → Option (WorkerEvent A) → Error
failure_of (some (failed e)) = e
failure_of _ = pool_stopped

abbrev pub closed_or_error : {A : Type 0} → Option (WorkerEvent A) → Result (BlockClosed A)
closed_or_error none = err pool_stopped
closed_or_error (some (failed e)) = err e
closed_or_error (some (closed c)) = ok c

-- The sums over what the workers report.
pub record Totals (A : Type 0) : Type 0 where
  pub rows : ℕ
  pub batches : ℕ
  pub substitutions : List ℕ
  pub actions : List A

-- `for (slot, add) in subs.iter_mut().zip(…)`
abbrev pub add_each : List ℕ → List ℕ → List ℕ
add_each [] adds = []
add_each (slot ∷ slots) [] = slot ∷ slots
add_each (slot ∷ slots) (a ∷ adds) = (slot + a) ∷ add_each slots adds

abbrev pub with_closed : {A : Type 0} → Totals A → BlockClosed A → Totals A
with_closed t c = record {
  rows = t.rows + c.rows;
  batches = t.batches + c.batches;
  substitutions = add_each t.substitutions c.substitutions;
  actions = t.actions ++ c.staged;
}

module _ {A : Type 0} (p : Pool A) where
  -- `dispatch`: the jobs sent, with this one behind.
  unfoldable pub dispatch : List Sent → ℕ → Job → Result (List Sent)
  dispatch sent worker job =
      if p.takes sent worker job
      then ok (sent ++ (worker, job) ∷ [])
      else err (failure_of (p.event sent 0))

  -- `for tx in job_tx`, from the worker with this index on.
  unfoldable pub dispatch_all : List Sent → ℕ → ℕ → Job → Result (List Sent)
  dispatch_all sent worker zero job = ok sent
  dispatch_all sent worker (suc left) job =
      dispatch sent worker job >>= λ sent'. dispatch_all sent' (suc worker) left job

  -- `while acked < threads`
  unfoldable pub collect : List Sent → ℕ → ℕ → Totals A → Result (Totals A)
  collect sent acked zero totals = ok totals
  collect sent acked (suc left) totals = closed_or_error (p.event sent acked) >>= λ c.
      collect sent (suc acked) left (with_closed totals c)
