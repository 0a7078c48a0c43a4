-- ===== src/Pipeline/Reader/Refines.antt =====
-- src/pipeline.rs: the reader's handlers do what the outline does, whatever the storage and the
-- workers answer.
use rust_streamer_pgdb.Error.Ends.{Ends, Ends-pure, Ends-bind, Ends-map, Anything}
use rust_streamer_pgdb.Pipeline.Reader.{
  stats_of, end_block, on_events, on_event, finish_block, zero_totals,
}
use rust_streamer_pgdb.Pipeline.State.{or_empty, same_table, insert_key, mismatched}
use rust_streamer_pgdb.Pipeline.Pool.{close_block, collect, Totals}
use rust_streamer_pgdb.Pipeline.Pool.{open_block, Sent}
use rust_streamer_pgdb.Pipeline.Reader.{
  ctx_of, task_name, rows, rows_to_worker, qualified, start_unless_open, def_or_error,
}
use rust_streamer_pgdb.Pipeline.State.{insert_name, get_key, Reader}
use rust_streamer_pgdb.Scan.Scanner.{Event}
use rust_streamer_pgdb.Pipeline.Reader.Outline.{
  closed_by, numbered, carried, opened_by, Outline, outline, outline_event, outline_events, kinds,
  kind_of, done_names, each_from, Kind,
}
use rust_streamer_pgdb.Pipeline.Pool.{Job, dispatch, dispatch_all, Sent, Pool}
use rust_streamer_pgdb.Prelude.{
  Bool, ap₂, ◌+◌, ◌&&◌, if◌then◌else◌, false, none, ◌⊎◌, ◌%◌, true, zero, some, inr, append_assoc,
  length, inl, ◌∙◌, suc, Bytes, refl, Option, Bool-cases, append-nil, ap, [], sym, ◌∷◌, ◌≡◌, ℕ,
  ◌++◌, List,
}
use rust_streamer_pgdb.Types.Name.{Lowercase}
use rust_streamer_pgdb.Sink.Paths.{CharClass}
use rust_streamer_pgdb.Pipeline.Reader.{report_progress, start_block, Surroundings}
use rust_streamer_pgdb.Pipeline.State.{OpenBlock, Reader, TableStats}
use rust_streamer_pgdb.Sink.Drift.{KernelType}
use rust_streamer_pgdb.Pipeline.Config.{
  reserved_collision, zipped, resolve_copy_columns, wanted, LoadConfig,
}
use rust_streamer_pgdb.Error.{ok, Result}
use rust_streamer_pgdb.Scan.Names.{TableName}
use rust_streamer_pgdb.Sink.Opening.{finish_open, preload_table}
use rust_streamer_pgdb.Builders.Schema.{arrow_schema}

kinds-append : (xs ys : List Sent) → kinds (xs ++ ys) ≡ kinds xs ++ kinds ys
unfolding kinds
kinds-append [] ys = refl
kinds-append (s ∷ xs) ys = ap (λ ks. (s.0, kind_of s.1) ∷ ks) (kinds-append xs ys)

pub done_names-append :
    (xs ys : List TableStats) → done_names (xs ++ ys) ≡ done_names xs ++ done_names ys
unfolding done_names
done_names-append [] ys = refl
done_names-append (s ∷ xs) ys = ap (λ ks. s.table ∷ ks) (done_names-append xs ys)

module _ {A : Type 0} (p : Pool A) where
  pub dispatch-kinds :
      (sent : List Sent) (worker : ℕ) (job : Job)
      → Ends Anything
          (λ s. kinds s ≡ kinds sent ++ (worker, kind_of job) ∷ [])
          (dispatch p sent worker job)
  unfolding dispatch kinds
  dispatch-kinds sent worker job = elim (Bool-cases (p.takes sent worker job)) [
    | inl taken ↦ rw taken (kinds-append sent ((worker, job) ∷ []))
    | inr refused ↦ rw refused tt
  ]

  pub dispatch_all-kinds :
      (sent : List Sent) (worker left : ℕ) (job : Job)
      → Ends Anything
          (λ s. kinds s ≡ kinds sent ++ each_from worker left (kind_of job))
          (dispatch_all p sent worker left job)
  unfolding dispatch_all each_from
  dispatch_all-kinds sent worker zero job = sym (append-nil (kinds sent))
  dispatch_all-kinds sent worker (suc left) job =
      Ends-bind Anything (λ s. kinds s ≡ kinds sent ++ (worker, kind_of job) ∷ []) _
        (dispatch p sent worker job) _ (dispatch-kinds sent worker job)
        (λ s h.
          Ends-map Anything _ _ (dispatch_all p s (suc worker) left job)
            (dispatch_all-kinds s (suc worker) left job)
            (λ t g.
              g
              ∙ ap (λ u. u ++ each_from (suc worker) left (kind_of job)) h
              ∙ append_assoc (kinds sent) ((worker, kind_of job) ∷ [])
                  (each_from (suc worker) left (kind_of job))))

module _ {T K A : Type 0} ⦃l : Lowercase⦄ ⦃c : CharClass⦄ ⦃k : KernelType K⦄
    (env : Surroundings T K A) (config : LoadConfig) where
  -- The handler's result has the outline that is given.
  abbrev pub Shows : Outline → Result (Reader T A) → Type 0
  Shows o = Ends Anything (λ r. outline r ≡ o)

  shows_jobs :
      (o : Outline) {js ks : List (ℕ × Kind)}
      → js ≡ ks
      → Path Outline (record o { jobs = js }) (record o { jobs = ks })
  shows_jobs o h = ap (λ js. record o { jobs = js }) h

  pub start_block-Shows :
      (r : Reader T A) (table : TableName) (columns : List Bytes)
      → Shows (opened_by env.threads (outline r) table) (start_block env config r table columns)
  unfolding start_block
  start_block-Shows r table columns =
      Ends-pure _ (def_or_error (qualified table) (get_key (qualified table) r.table_defs)) _ λ def.
        Ends-pure _ (resolve_copy_columns def columns) _ λ resolved.
          Ends-pure _
            (preload_table env.delta config.output_uri
              (task_name table (get_key (qualified table) r.preloads)))
            _
            λ preloaded.
              Ends-pure _
                (finish_open env.delta preloaded table
                  (arrow_schema (zipped columns resolved) config.wide_numeric_as_decimal
                    config.native_arrays)
                  config.mode)
                _
                λ opened.
                  Ends-bind Anything _ _
                    (dispatch_all env.pool r.sent 0 env.threads (
                      open_block (
                        ctx_of config (r.generation + 1) opened.uri (zipped columns resolved)
                          (arrow_schema (zipped columns resolved) config.wide_numeric_as_decimal
                            config.native_arrays)
                          (length columns))))
                    _ (dispatch_all-kinds env.pool r.sent 0 env.threads _)
                    λ sent h. shows_jobs (opened_by env.threads (outline r) table) h

  start-Shows :
      (r : Reader T A) (table : TableName) (columns : List Bytes) (o : Option OpenBlock)
      → Shows
          (outline_event env.threads config (outline r) (Event.copy_start table columns))
          (start_unless_open env config r table columns o)
  unfolding outline_event
  start-Shows r table columns (some block) = tt
  start-Shows r table columns none =
      elim (Bool-cases (config.write_manifest && reserved_collision table)) [
        | inl reserved ↦ rw reserved tt
        | inr free ↦ rw free (by_choice (Bool-cases (wanted config table)))
      ]
    where
      by_choice :
          (wanted config table ≡ true) ⊎ (wanted config table ≡ false)
          → Shows
              (if wanted config table
                then opened_by env.threads (outline r) table
                else record (outline r) { skipping = true })
              (if wanted config table
                then start_block env config
                    (record r { seen_tables = insert_name (qualified table) r.seen_tables })
                    table
                    columns
                else ok (record r {
                  seen_tables = insert_name (qualified table) r.seen_tables;
                  skipping = true;
                }))
      by_choice (inl w) = rw w (
          start_block-Shows (record r { seen_tables = insert_name (qualified table) r.seen_tables })
            table columns)
      by_choice (inr w) = rw w refl

  rows-Shows :
      (r : Reader T A) (payload : Bytes) (o : Option OpenBlock)
      → Shows
          (carried env.threads (outline r) payload (numbered o))
          (rows_to_worker env config r payload o)
  rows-Shows r payload none = tt
  rows-Shows r payload (some block) =
      Ends-bind Anything _ _
        (dispatch env.pool r.sent (r.round_robin % env.threads) (rows block.generation payload)) _
        (dispatch-kinds env.pool r.sent (r.round_robin % env.threads) _)
        λ sent h. shows_jobs (carried env.threads (outline r) payload (numbered (some block))) h

  pub report_progress-Shows :
      (r : Reader T A) (bytes_read : ℕ) (table : Option Bytes)
      → Shows (outline r) (report_progress env config r bytes_read table)
  report_progress-Shows r bytes_read table =
      elim (Bool-cases (
        env.progress r.progress_calls (record {
          bytes_read = bytes_read;
          rows = r.total_rows;
          tables_done = length r.tables;
          table = table;
        }))) [ inl on ↦ rw on refl | inr off ↦ rw off tt ]

  finish_block-Shows :
      (r : Reader T A) (bytes_read : ℕ) (block : OpenBlock)
      → Shows
          (closed_by env.threads (outline r) (numbered (some block)))
          (finish_block env config r bytes_read block)
  unfolding finish_block done_names
  finish_block-Shows r bytes_read block =
      Ends-bind Anything _ _
        (dispatch_all env.pool r.sent 0 env.threads (close_block block.generation)) _
        (dispatch_all-kinds env.pool r.sent 0 env.threads (close_block block.generation))
        λ sent h. Ends-pure _ (collect env.pool sent 0 env.threads (zero_totals block)) _ λ totals.
          Ends-map Anything _ _
            (report_progress env config (closed sent totals) bytes_read
              (some (qualified block.table)))
            (report_progress-Shows (closed sent totals) bytes_read (some (qualified block.table)))
            λ t g.
              g
              ∙ ap₂ (λ js ds. record (outline r) { opened = none; jobs = js; done = ds }) h
                  (done_names-append r.tables (stats_of block totals ∷ []))
    where
      closed : List Sent → Totals A → Reader T A
      closed sent totals = record r {
        current = none;
        sent = sent;
        total_rows = r.total_rows + totals.rows;
        staged =
            insert_key block.qualified
              (or_empty (get_key block.qualified r.staged) ++ totals.actions) r.staged;
        tables = r.tables ++ stats_of block totals ∷ [];
      }

  end_block-Shows :
      (r : Reader T A) (bytes_read : ℕ) (table : TableName) (o : Option OpenBlock)
      → Shows
          (closed_by env.threads (outline r) (numbered o))
          (end_block env config r bytes_read table o)
  end_block-Shows r bytes_read table none = tt
  end_block-Shows r bytes_read table (some block) =
      elim (Bool-cases (same_table block.table table)) [
        | inl same ↦ rw same (finish_block-Shows r bytes_read block)
        | inr other ↦ rw other tt
      ]

  pub on_event-Shows :
      (r : Reader T A) (bytes_read : ℕ) (e : Event)
      → Shows (outline_event env.threads config (outline r) e) (on_event env config r bytes_read e)
  unfolding on_event outline_event
  on_event-Shows r bytes_read (Event.dump_version by from) =
      elim (Bool-cases (mismatched config.expect_pg_major by)) [
        | inl refused ↦ rw refused tt
        | inr fine ↦ rw fine refl
      ]
  on_event-Shows r bytes_read (Event.table def) = refl
  on_event-Shows r bytes_read (Event.copy_start table columns) =
      start-Shows r table columns r.current
  on_event-Shows r bytes_read (Event.copy_rows payload) = unless_skipped r.skipping
    where
      unless_skipped :
          (b : Bool)
          → Shows
              (if b
                then outline r
                else carried env.threads (outline r) payload (numbered r.current))
              (if b then ok r else rows_to_worker env config r payload r.current)
      unless_skipped true = refl
      unless_skipped false = rows-Shows r payload r.current
  on_event-Shows r bytes_read (Event.copy_end table) = unless_skipped r.skipping
    where
      unless_skipped :
          (b : Bool)
          → Shows
              (if b
                then record (outline r) { skipping = false }
                else closed_by env.threads (outline r) (numbered r.current))
              (if b
                then ok (record r { skipping = false })
                else end_block env config r bytes_read table r.current)
      unless_skipped true = refl
      unless_skipped false = end_block-Shows r bytes_read table r.current

  -- Whatever the storage and the workers answer, a run of the handlers that ends with a reader has
  -- sent the jobs, numbered the blocks and finished the tables as the outline does.
  pub on_events-outline :
      (r : Reader T A) (bytes_read : ℕ) (es : List Event)
      → Ends Anything
          (λ s. outline s ≡ outline_events env.threads config (outline r) es)
          (on_events env config r bytes_read es)
  unfolding on_events outline_events
  on_events-outline r bytes_read [] = refl
  on_events-outline r bytes_read (e ∷ es) =
      Ends-bind Anything _ _ (on_event env config r bytes_read e) _ (on_event-Shows r bytes_read e)
        λ s h.
          Ends-map Anything _ _ (on_events env config s bytes_read es)
            (on_events-outline s bytes_read es)
            λ t g. g ∙ ap (λ o. outline_events env.threads config o es) h
