-- ===== src/Pipeline/Reader/Causes.antt =====
-- src/pipeline.rs: what the parts of the reader's handlers end with, if nothing outside reports an
-- internal error.
use rust_streamer_pgdb.Error.Ends.{Ends, Ends-bind, Ends-map, IsExternal, Anything}
use rust_streamer_pgdb.Error.{table_exists, Result, ok, err}
use rust_streamer_pgdb.Pipeline.Reader.{Surroundings}
use rust_streamer_pgdb.Sink.Paths.{
  path_parts, total_length, path_of_total, below_prefix, CharClass, relative_path, table_uri,
}
use rust_streamer_pgdb.Pipeline.Config.{find_column, resolved_column, resolve_copy_columns}
use rust_streamer_pgdb.Prelude.{
  append_assoc, ap, ◌∙◌, ◌&&◌, refl, inr, append-nil, not, ltb, sym, zero, inl, suc, none,
  Bool-cases, is_empty, ◌++◌, [], if◌then◌else◌, ◌≡◌, ◌∷◌, some, List, Bytes, ℕ, Option,
}
use rust_streamer_pgdb.Pipeline.Pool.{
  with_closed, Totals, closed, failed, Sent, failure_of, closed_or_error, Job, WorkerEvent, collect,
  dispatch_all, dispatch,
}
use rust_streamer_pgdb.Sink.Opening.{
  open_existing, is_append, accept_drift, refuse_existing, PreloadedTable, Schema, WriteMode,
  preload_table, finish_open,
}
use rust_streamer_pgdb.Types.Name.{Lowercase}
use rust_streamer_pgdb.Scan.Names.{TableName, qualified}
use rust_streamer_pgdb.Sink.Drift.{diff_schema, is_unchanged, SchemaDrift, KernelType}
use rust_streamer_pgdb.Scan.Ddl.{ColumnDef, TableDef}

abbrev pub IsQuiet : {V : Type 0} → Result V → Type 0
IsQuiet = Ends IsExternal Anything

abbrev pub QuietEvent : {A : Type 0} → Option (WorkerEvent A) → Type 0
QuietEvent (some (failed e)) = IsExternal e
QuietEvent (some (closed c)) = Unit
QuietEvent none = Unit

-- Neither the storage nor the workers report an internal error.
pub record NoInternal {T K A : Type 0} (env : Surroundings T K A) : Type 0 where
  pub load_quiet : (uri : Bytes) → IsQuiet (env.delta.load_table uri)
  pub kernel_quiet : (schema : Schema) → IsQuiet (env.delta.try_into_kernel schema)
  pub create_quiet :
      (table : T) (fields : List (Bytes × K)) → IsQuiet (env.delta.create table fields)
  pub files_quiet : (table : T) → IsQuiet (env.delta.current_files table)
  pub event_quiet : (sent : List Sent) (n : ℕ) → QuietEvent (env.pool.event sent n)

-- The same job for each worker, from one index on.
abbrev pub copies : ℕ → ℕ → Job → List Sent
copies worker zero job = []
copies worker (suc left) job = (worker, job) ∷ copies (suc worker) left job

failure_of-IsExternal :
    {A : Type 0} (o : Option (WorkerEvent A)) → QuietEvent o → IsExternal (failure_of o)
failure_of-IsExternal none h = tt
failure_of-IsExternal (some (failed e)) h = h
failure_of-IsExternal (some (closed c)) h = tt

closed_or_error-IsQuiet :
    {A : Type 0} (o : Option (WorkerEvent A)) → QuietEvent o → IsQuiet (closed_or_error o)
closed_or_error-IsQuiet none h = tt
closed_or_error-IsQuiet (some (failed e)) h = h
closed_or_error-IsQuiet (some (closed c)) h = tt

module _ {T K A : Type 0} (env : Surroundings T K A) (quiet : NoInternal env) where
  pub dispatch-Ends :
      (sent : List Sent) (worker : ℕ) (job : Job)
      → Ends IsExternal (λ s. s ≡ sent ++ (worker, job) ∷ []) (dispatch env.pool sent worker job)
  unfolding dispatch
  dispatch-Ends sent worker job = elim (Bool-cases (env.pool.takes sent worker job)) [
    | inl taken ↦ rw taken refl
    | inr refused ↦
        rw refused (failure_of-IsExternal (env.pool.event sent 0) (quiet.event_quiet sent 0))
  ]

  pub dispatch_all-Ends :
      (sent : List Sent) (worker left : ℕ) (job : Job)
      → Ends IsExternal
          (λ s. s ≡ sent ++ copies worker left job)
          (dispatch_all env.pool sent worker left job)
  unfolding dispatch_all
  dispatch_all-Ends sent worker zero job = sym (append-nil sent)
  dispatch_all-Ends sent worker (suc left) job =
      Ends-bind IsExternal (λ s. s ≡ sent ++ (worker, job) ∷ []) _
        (dispatch env.pool sent worker job) _ (dispatch-Ends sent worker job)
        (λ s h.
          Ends-map IsExternal _ _ (dispatch_all env.pool s (suc worker) left job)
            (dispatch_all-Ends s (suc worker) left job)
            (λ t g.
              g
              ∙ ap (λ u. u ++ copies (suc worker) left job) h
              ∙ append_assoc sent ((worker, job) ∷ []) (copies (suc worker) left job)))

  pub collect-IsQuiet :
      (sent : List Sent) (acked left : ℕ) (totals : Totals A)
      → IsQuiet (collect env.pool sent acked left totals)
  unfolding collect
  collect-IsQuiet sent acked zero totals = tt
  collect-IsQuiet sent acked (suc left) totals =
      Ends-bind IsExternal Anything Anything (closed_or_error (env.pool.event sent acked)) _
        (closed_or_error-IsQuiet (env.pool.event sent acked) (quiet.event_quiet sent acked))
        (λ c h. collect-IsQuiet sent (suc acked) left (with_closed totals c))

pub resolve_copy_columns-IsQuiet :
    ⦃l : Lowercase⦄ (def : TableDef) (names : List Bytes) → IsQuiet (resolve_copy_columns def names)
unfolding resolve_copy_columns
resolve_copy_columns-IsQuiet def [] = tt
resolve_copy_columns-IsQuiet def (name ∷ names) =
    Ends-bind IsExternal Anything Anything (resolved_column def (find_column name def.columns)) _
      (column (find_column name def.columns))
      (λ rt h.
        Ends-bind IsExternal Anything Anything (resolve_copy_columns def names) _
          (resolve_copy_columns-IsQuiet def names) (λ rts g. tt))
  where
    column : (o : Option ColumnDef) → IsQuiet (resolved_column def o)
    column none = tt
    column (some c) = tt

table_uri-IsQuiet :
    ⦃c : CharClass⦄ (prefix : Bytes) (table : TableName) → IsQuiet (table_uri prefix table)
unfolding table_uri relative_path
table_uri-IsQuiet prefix table =
    by_path (relative_path table) (by_total (total_length 0 (path_parts table.schema table.table)))
  where
    by_path : (p : Result Bytes) → IsQuiet p → IsQuiet (below_prefix prefix p)
    by_path (err e) h = h
    by_path (ok rel) h = tt

    by_total : (o : Option ℕ) → IsQuiet (path_of_total table o)
    by_total none = tt
    by_total (some total) = elim (Bool-cases (ltb 512 total)) [
      | inl long ↦ rw long tt
      | inr short ↦ rw short tt
    ]

module _ {T K A : Type 0} (env : Surroundings T K A) (quiet : NoInternal env) where
  pub preload_table-IsQuiet :
      ⦃c : CharClass⦄ (prefix : Bytes) (table : TableName)
      → IsQuiet (preload_table env.delta prefix table)
  unfolding preload_table
  preload_table-IsQuiet prefix table =
      Ends-bind IsExternal Anything Anything (table_uri prefix table) _
        (table_uri-IsQuiet prefix table)
        (λ uri h.
          Ends-bind IsExternal Anything Anything (env.delta.load_table uri) _ (quiet.load_quiet uri)
            (λ loaded g. tt))

  refuse_existing-IsQuiet :
      (table : T) (name : TableName) (mode : WriteMode)
      → IsQuiet (refuse_existing env.delta table name mode)
  refuse_existing-IsQuiet table name WriteMode.overwrite = tt
  refuse_existing-IsQuiet table name WriteMode.add_to = tt
  refuse_existing-IsQuiet table name WriteMode.error_if_exists =
      Ends-bind IsExternal Anything Anything (env.delta.current_files table) _
        (quiet.files_quiet table) none_or_error
    where
      none_or_error :
          (files : List A)
          → Unit {0}
          → IsQuiet (if is_empty files then ok tt else err (table_exists (qualified name)))
      none_or_error [] h = tt
      none_or_error (f ∷ files) h = tt

  pub finish_open-IsQuiet :
      ⦃k : KernelType K⦄ (p : PreloadedTable T K) (name : TableName) (schema : Schema)
      (mode : WriteMode)
      → IsQuiet (finish_open env.delta p name schema mode)
  unfolding finish_open
  finish_open-IsQuiet p name schema mode = by_schema p.existing_schema
    where
      accepts : (drift : SchemaDrift) → IsQuiet (accept_drift p name mode drift)
      accepts drift = elim (Bool-cases (not (is_unchanged drift) && is_append mode)) [
        | inl refused ↦ rw refused tt
        | inr fine ↦ rw fine tt
      ]

      by_schema :
          (o : Option (List (Bytes × K))) → IsQuiet (open_existing env.delta p name schema mode o)
      by_schema none =
          Ends-bind IsExternal Anything Anything (env.delta.try_into_kernel schema) _
            (quiet.kernel_quiet schema)
            (λ fields h.
              Ends-bind IsExternal Anything Anything (env.delta.create p.table fields) _
                (quiet.create_quiet p.table fields) (λ t g. tt))
      by_schema (some current) =
          Ends-bind IsExternal Anything Anything (refuse_existing env.delta p.table name mode) _
            (refuse_existing-IsQuiet p.table name mode)
            (λ u h.
              Ends-bind IsExternal Anything Anything (env.delta.try_into_kernel schema) _
                (quiet.kernel_quiet schema) (λ incoming g. accepts (diff_schema current incoming)))
