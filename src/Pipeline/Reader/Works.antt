-- ===== src/Pipeline/Reader/Works.antt =====
-- src/pipeline.rs: the parts of the reader's handlers succeed, if nothing outside fails.
use rust_streamer_pgdb.Error.Ends.{Ends, Ends-bind, Anything}
use rust_streamer_pgdb.Pipeline.Pool.{
  with_closed, closed_or_error, Sent, Job, WorkerEvent, Totals, closed, failed, dispatch,
  dispatch_all, collect,
}
use rust_streamer_pgdb.Pipeline.Reader.{qualified, Surroundings}
use rust_streamer_pgdb.Pipeline.State.{Progress}
use rust_streamer_pgdb.Sink.Opening.{
  open_existing, OpenedTable, WriteMode, PreloadedTable, Schema, finish_open,
}
use rust_streamer_pgdb.Sink.Drift.{diff_schema, is_unchanged, summary, SchemaDrift, KernelType}
use rust_streamer_pgdb.Error.{ok, schema_changed, err, Result, Error}
use rust_streamer_pgdb.Prelude.{
  not, none, false, ◌&&◌, zero, if◌then◌else◌, true, suc, Bool, ◌≡◌, some, ℕ, Bytes, Option, List,
}
use rust_streamer_pgdb.Scan.Names.{TableName}

-- No error at all.
abbrev pub Never : Error → Type 0
Never e = ⊥

abbrev pub Succeeds : {V : Type 0} → Result V → Type 0
Succeeds = Ends Never Anything

abbrev pub IsClosed : {A : Type 0} → Option (WorkerEvent A) → Type 0
IsClosed (some (closed c)) = Unit
IsClosed _ = ⊥

-- The storage, the workers and `progress` do what they are asked to.
pub record Works {T K A : Type 0} (env : Surroundings T K A) : Type 0 where
  pub loads : (uri : Bytes) → Succeeds (env.delta.load_table uri)
  pub converts : (schema : Schema) → Succeeds (env.delta.try_into_kernel schema)
  pub creates : (table : T) (fields : List (Bytes × K)) → Succeeds (env.delta.create table fields)
  pub takes : (sent : List Sent) (worker : ℕ) (job : Job) → env.pool.takes sent worker job ≡ true
  pub closes : (sent : List Sent) (n : ℕ) → IsClosed (env.pool.event sent n)
  pub goes_on : (n : ℕ) (p : Progress) → env.progress n p ≡ true

module _ {T K A : Type 0} (env : Surroundings T K A) (works : Works env) where
  pub dispatch-Succeeds :
      (sent : List Sent) (worker : ℕ) (job : Job) → Succeeds (dispatch env.pool sent worker job)
  unfolding dispatch
  dispatch-Succeeds sent worker job = rw (works.takes sent worker job) tt

  pub dispatch_all-Succeeds :
      (sent : List Sent) (worker left : ℕ) (job : Job)
      → Succeeds (dispatch_all env.pool sent worker left job)
  unfolding dispatch_all
  dispatch_all-Succeeds sent worker zero job = tt
  dispatch_all-Succeeds sent worker (suc left) job =
      Ends-bind Never Anything Anything (dispatch env.pool sent worker job) _
        (dispatch-Succeeds sent worker job) λ s h. dispatch_all-Succeeds s (suc worker) left job

  pub collect-Succeeds :
      (sent : List Sent) (acked left : ℕ) (totals : Totals A)
      → Succeeds (collect env.pool sent acked left totals)
  unfolding collect
  collect-Succeeds sent acked zero totals = tt
  collect-Succeeds sent acked (suc left) totals =
      Ends-bind Never Anything Anything (closed_or_error (env.pool.event sent acked)) _
        (closed-Succeeds (env.pool.event sent acked) (works.closes sent acked))
        λ c h. collect-Succeeds sent (suc acked) left (with_closed totals c)
    where
      closed-Succeeds : (o : Option (WorkerEvent A)) → IsClosed o → Succeeds (closed_or_error o)
      closed-Succeeds none h = absurd h
      closed-Succeeds (some (failed e)) h = absurd h
      closed-Succeeds (some (closed c)) h = tt

  pub finish_open-Succeeds :
      ⦃k : KernelType K⦄ (p : PreloadedTable T K) (name : TableName) (schema : Schema)
      → Succeeds (finish_open env.delta p name schema WriteMode.overwrite)
  unfolding finish_open
  finish_open-Succeeds p name schema = by_schema p.existing_schema
    where
      accepts :
          (b : Bool) (drift : SchemaDrift)
          → Succeeds {V = OpenedTable T} (
              if b && false
              then err (schema_changed (qualified name) (summary drift))
              else ok (record { table = p.table; uri = p.uri; drift = drift }))
      accepts true drift = tt
      accepts false drift = tt

      by_schema :
          (o : Option (List (Bytes × K)))
          → Succeeds (open_existing env.delta p name schema WriteMode.overwrite o)
      by_schema none =
          Ends-bind Never Anything Anything (env.delta.try_into_kernel schema) _
            (works.converts schema)
            λ fields h.
              Ends-bind Never Anything Anything (env.delta.create p.table fields) _
                (works.creates p.table fields) λ t g. tt
      by_schema (some current) =
          Ends-bind Never Anything Anything (env.delta.try_into_kernel schema) _
            (works.converts schema)
            λ incoming h.
              accepts (not (is_unchanged (diff_schema current incoming)))
                (diff_schema current incoming)
