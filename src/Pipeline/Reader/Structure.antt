-- ===== src/Pipeline/Reader/Structure.antt =====
-- src/pipeline.rs: the errors that the reader's handlers keep for events out of order.
use rust_streamer_pgdb.Error.Ends.{Ends, Ends-map, Ends-bind, Ends-both, Anything, IsExternal}
use rust_streamer_pgdb.Pipeline.Pool.{dispatch, dispatch_all, collect}
use rust_streamer_pgdb.Pipeline.Reader.{
  task_name, rows, on_end, rows_to_worker, end_block, qualified, def_or_error, zero_totals,
  report_progress, start_unless_open, finish_block, start_block, Surroundings, on_events, on_event,
}
use rust_streamer_pgdb.Pipeline.State.{
  get_key, insert_name, mismatched, OpenBlock, same_option, same_table, Reader, new_reader,
}
use rust_streamer_pgdb.Pipeline.Reader.Causes.{
  finish_open-IsQuiet, preload_table-IsQuiet, resolve_copy_columns-IsQuiet, collect-IsQuiet,
  NoInternal, IsQuiet, dispatch-Ends, dispatch_all-Ends,
}
use rust_streamer_pgdb.Pipeline.Reader.Outline.{kinds, numbered, outline}
use rust_streamer_pgdb.Pipeline.Reader.Protocol.{InStep, Linked, event_step}
use rust_streamer_pgdb.Pipeline.Reader.Jobs.{jobs_of}
use rust_streamer_pgdb.Scan.Scanner.{Event}
use rust_streamer_pgdb.Scan.Scanner.Blocks.{Allowed, open_behind, Follows}
use rust_streamer_pgdb.Types.Name.{Lowercase}
use rust_streamer_pgdb.Scan.Names.{TableName}
use rust_streamer_pgdb.Sink.Paths.{CharClass}
use rust_streamer_pgdb.Prelude.{
  refl, ◌%◌, ◌&&◌, inr, [], inl, sym, length, if◌then◌else◌, false, bytes_eq_refl, some, Bool-cases,
  none, ◌∷◌, subst, Bool, List, ℕ, Bytes, Option, true, ◌≡◌,
}
use rust_streamer_pgdb.Sink.Drift.{KernelType}
use rust_streamer_pgdb.Pipeline.Config.{
  zipped, wanted, reserved_collision, resolve_copy_columns, LoadConfig,
}
use rust_streamer_pgdb.Scan.Ddl.{TableDef}
use rust_streamer_pgdb.Pipeline.Reader.Refines.{on_event-Shows}
use rust_streamer_pgdb.Error.{ok}
use rust_streamer_pgdb.Sink.Opening.{finish_open, preload_table}
use rust_streamer_pgdb.Builders.Schema.{arrow_schema}

pub same_table_refl : (a b : TableName) → a ≡ b → same_table a b ≡ true
same_table_refl a b e =
    subst (λ b. same_table a b ≡ true) e
      (rw (same_option_refl a.schema, bytes_eq_refl a.table) refl)
  where
    same_option_refl : (o : Option Bytes) → same_option o o ≡ true
    same_option_refl none = refl
    same_option_refl (some bs) = bytes_eq_refl bs

module _ {T K A : Type 0} ⦃l : Lowercase⦄ ⦃c : CharClass⦄ ⦃k : KernelType K⦄
    (env : Surroundings T K A) (config : LoadConfig) (quiet : NoInternal env) where
  start_block-IsQuiet :
      (r : Reader T A) (table : TableName) (columns : List Bytes)
      → IsQuiet (start_block env config r table columns)
  unfolding start_block
  start_block-IsQuiet r table columns =
      Ends-bind IsExternal Anything Anything
        (def_or_error (qualified table) (get_key (qualified table) r.table_defs)) _
        (defined (get_key (qualified table) r.table_defs))
        λ def h.
          Ends-bind IsExternal Anything Anything (resolve_copy_columns def columns) _
            (resolve_copy_columns-IsQuiet def columns)
            λ resolved h.
              Ends-bind IsExternal Anything Anything
                (preload_table env.delta config.output_uri
                  (task_name table (get_key (qualified table) r.preloads)))
                _
                (preload_table-IsQuiet env quiet config.output_uri
                  (task_name table (get_key (qualified table) r.preloads)))
                λ preloaded h.
                  Ends-bind IsExternal Anything Anything
                    (finish_open env.delta preloaded table
                      (arrow_schema (zipped columns resolved) config.wide_numeric_as_decimal
                        config.native_arrays)
                      config.mode)
                    _ (finish_open-IsQuiet env quiet preloaded table _ config.mode)
                    λ opened h.
                      Ends-bind IsExternal _ Anything (dispatch_all env.pool r.sent 0 env.threads _)
                        _ (dispatch_all-Ends env quiet r.sent 0 env.threads _) λ sent h. tt
    where
      defined : (o : Option TableDef) → IsQuiet (def_or_error (qualified table) o)
      defined none = tt
      defined (some def) = tt

  start-IsQuiet :
      (r : Reader T A) (table : TableName) (columns : List Bytes)
      → IsQuiet (start_unless_open env config r table columns none)
  start-IsQuiet r table columns =
      elim (Bool-cases (config.write_manifest && reserved_collision table)) [
        | inl reserved ↦ rw reserved tt
        | inr free ↦ rw free (by_choice (wanted config table))
      ]
    where
      by_choice :
          (b : Bool)
          → IsQuiet (
              if b
              then start_block env config
                  (record r { seen_tables = insert_name (qualified table) r.seen_tables })
                  table
                  columns
              else ok (record r {
                seen_tables = insert_name (qualified table) r.seen_tables;
                skipping = true;
              }))
      by_choice true =
          start_block-IsQuiet
            (record r { seen_tables = insert_name (qualified table) r.seen_tables }) table columns
      by_choice false = tt

  report_progress-IsQuiet :
      (r : Reader T A) (bytes_read : ℕ) (table : Option Bytes)
      → IsQuiet (report_progress env config r bytes_read table)
  report_progress-IsQuiet r bytes_read table =
      elim (Bool-cases (
        env.progress r.progress_calls (record {
          bytes_read = bytes_read;
          rows = r.total_rows;
          tables_done = length r.tables;
          table = table;
        }))) [ inl on ↦ rw on tt | inr off ↦ rw off tt ]

  finish_block-IsQuiet :
      (r : Reader T A) (bytes_read : ℕ) (block : OpenBlock)
      → IsQuiet (finish_block env config r bytes_read block)
  unfolding finish_block
  finish_block-IsQuiet r bytes_read block =
      Ends-bind IsExternal _ Anything (dispatch_all env.pool r.sent 0 env.threads _) _
        (dispatch_all-Ends env quiet r.sent 0 env.threads _)
        λ sent h.
          Ends-bind IsExternal Anything Anything
            (collect env.pool sent 0 env.threads (zero_totals block)) _
            (collect-IsQuiet env quiet sent 0 env.threads (zero_totals block))
            λ totals g. report_progress-IsQuiet _ bytes_read (some (qualified block.table))

  rows-IsQuiet :
      (r : Reader T A) (payload : Bytes) (name : TableName) (skip : Bool) (o : Option OpenBlock)
      → Linked (some name) skip (numbered o) r.generation
      → IsQuiet (if skip then ok r else rows_to_worker env config r payload o)
  rows-IsQuiet r payload name true o h = tt
  rows-IsQuiet r payload name false none h = absurd h
  rows-IsQuiet r payload name false (some block) h =
      Ends-bind IsExternal _ Anything
        (dispatch env.pool r.sent (r.round_robin % env.threads) (rows block.generation payload)) _
        (dispatch-Ends env quiet r.sent (r.round_robin % env.threads) _) λ sent g. tt

  end-IsQuiet :
      (r : Reader T A) (bytes_read : ℕ) (name : TableName) (skip : Bool) (o : Option OpenBlock)
      → Linked (some name) skip (numbered o) r.generation
      → IsQuiet (
          if skip
          then ok (record r { skipping = false })
          else end_block env config r bytes_read name o)
  end-IsQuiet r bytes_read name true o h = tt
  end-IsQuiet r bytes_read name false none h = absurd h
  end-IsQuiet r bytes_read name false (some block) h =
      rw (same_table_refl block.table name h.0) (finish_block-IsQuiet r bytes_read block)

  first-IsQuiet :
      (r : Reader T A) (table : TableName) (columns : List Bytes) (skip : Bool)
      (o : Option OpenBlock)
      → Linked none skip (numbered o) r.generation
      → IsQuiet (start_unless_open env config r table columns o)
  first-IsQuiet r table columns true none h = absurd h
  first-IsQuiet r table columns true (some b) h = absurd h
  first-IsQuiet r table columns false (some b) h = absurd h
  first-IsQuiet r table columns false none h = start-IsQuiet r table columns

  on_event-IsQuiet :
      (p : Option TableName) (r : Reader T A) (bytes_read : ℕ) (e : Event)
      → Allowed p e
      → Linked p r.skipping (numbered r.current) r.generation
      → IsQuiet (on_event env config r bytes_read e)
  unfolding on_event
  on_event-IsQuiet p r bytes_read (Event.dump_version by from) a h =
      elim (Bool-cases (mismatched config.expect_pg_major by)) [
        | inl refused ↦ rw refused tt
        | inr fine ↦ rw fine tt
      ]
  on_event-IsQuiet p r bytes_read (Event.table def) a h = tt
  on_event-IsQuiet (some name) r bytes_read (Event.copy_start table columns) a h = absurd a
  on_event-IsQuiet none r bytes_read (Event.copy_start table columns) a h =
      first-IsQuiet r table columns r.skipping r.current h
  on_event-IsQuiet (some name) r bytes_read (Event.copy_rows payload) a h =
      rows-IsQuiet r payload name r.skipping r.current h
  on_event-IsQuiet none r bytes_read (Event.copy_rows payload) a h = absurd a
  on_event-IsQuiet (some name) r bytes_read (Event.copy_end table) a h =
      subst (λ t. IsQuiet (on_end env config r bytes_read t)) (sym a)
        (end-IsQuiet r bytes_read name r.skipping r.current h)
  on_event-IsQuiet none r bytes_read (Event.copy_end table) a h = absurd a

  on_events-from :
      (p q : Option TableName) (r : Reader T A) (bytes_read : ℕ) (es : List Event)
      → Follows p es q
      → InStep env.threads p (outline r)
      → Ends IsExternal
          (λ s. InStep env.threads q (outline s))
          (on_events env config r bytes_read es)
  unfolding on_events
  on_events-from p q r bytes_read [] f h = subst (λ p. InStep env.threads p (outline r)) f h
  on_events-from p q r bytes_read (e ∷ es) f h =
      Ends-bind IsExternal _ _ (on_event env config r bytes_read e) _
        (Ends-both IsExternal _ (on_event env config r bytes_read e)
          (on_event-IsQuiet p r bytes_read e f.0 h.0) (on_event-Shows env config r bytes_read e))
        λ s g. on_events-from (open_behind p e) q s bytes_read es f.1 (
          subst (InStep env.threads (open_behind p e)) (sym g)
            (event_step env.threads config p (outline r) e f.0 h))

  -- If neither the storage nor the workers report an internal error, then the handlers of events
  -- whose blocks are in order never do: no block starts while another is open, no rows and no end
  -- come without an open block, and no block ends under another name.
  pub on_events-IsExternal :
      (bytes_read : ℕ) (es : List Event) (q : Option TableName)
      → Follows none es q
      → Ends IsExternal
          (λ r. Linked q r.skipping (numbered r.current) r.generation)
          (on_events env config new_reader bytes_read es)
  unfolding kinds jobs_of
  on_events-IsExternal bytes_read es q f =
      Ends-map IsExternal _ _ (on_events env config new_reader bytes_read es)
        (on_events-from none q new_reader bytes_read es f (tt, λ w b. refl)) λ r h. h.0
