-- ===== src/Pipeline/Reader/Succeeds.antt =====
-- src/pipeline.rs: a block is loaded, if nothing outside fails.
use rust_streamer_pgdb.Pipeline.Reader.Works.{
  Works, Never, dispatch_all-Succeeds, Succeeds, collect-Succeeds, finish_open-Succeeds,
  dispatch-Succeeds,
}
use rust_streamer_pgdb.Error.Ends.{Ends, Ends-bind, Ends-both, Ends-map, Anything}
use rust_streamer_pgdb.Pipeline.Pool.{close_block, dispatch, dispatch_all, collect, rows}
use rust_streamer_pgdb.Pipeline.Reader.{
  on_end, end_block, stats_of, zero_totals, finish_block, rows_to_worker, start_unless_open,
  qualified, task_name, Surroundings, on_events, on_event, start_block,
}
use rust_streamer_pgdb.Pipeline.State.{insert_name, get_key, Reader, OpenBlock}
use rust_streamer_pgdb.Pipeline.Reader.Outline.{Outline, numbered, done_names}
use rust_streamer_pgdb.Pipeline.Reader.Refines.{done_names-append, start_block-Shows}
use rust_streamer_pgdb.Scan.Scanner.{Event}
use rust_streamer_pgdb.Sink.Opening.{WriteMode, finish_open, preload_table}
use rust_streamer_pgdb.Sink.Drift.{KernelType}
use rust_streamer_pgdb.Error.{ok}
use rust_streamer_pgdb.Prelude.{
  length, ◌%◌, [], ◌++◌, ◌∷◌, ◌∙◌, ◌+◌, refl, ap, sym, subst, none, false, ◌&&◌, if◌then◌else◌,
  true, Bool, ◌≡◌, some, ℕ, Bytes, Option, List,
}
use rust_streamer_pgdb.Types.Name.{Lowercase}
use rust_streamer_pgdb.Sink.Paths.{table_uri, CharClass}
use rust_streamer_pgdb.Scan.Names.{TableName}
use rust_streamer_pgdb.Pipeline.Config.{
  reserved_collision, wanted, zipped, resolve_copy_columns, LoadConfig,
}
use rust_streamer_pgdb.Scan.Ddl.{TableDef}
use rust_streamer_pgdb.Builders.Schema.{arrow_schema}
use rust_streamer_pgdb.Pipeline.Reader.Structure.{same_table_refl}

-- No block is open or skipped, behind finished tables of these names.
abbrev pub IsIdle : {T A : Type 0} → List Bytes → Reader T A → Type 0
IsIdle names s = (s.current ≡ none) × (s.skipping ≡ false) × (done_names s.tables ≡ names)

-- The rows of a block and its end.
abbrev pub rows_of : TableName → List Bytes → List Event
rows_of table [] = Event.copy_end table ∷ []
rows_of table (payload ∷ payloads) = Event.copy_rows payload ∷ rows_of table payloads

abbrev IsTrue : Bool → Type 0
IsTrue true = Unit
IsTrue false = ⊥

abbrev Given : Option (ℕ × TableName × Bytes) → Type 0
Given none = ⊥
Given (some x) = Unit

abbrev or_this : ℕ × TableName × Bytes → Option (ℕ × TableName × Bytes) → ℕ × TableName × Bytes
or_this x none = x
or_this x (some y) = y

module _ {T K A : Type 0} ⦃l : Lowercase⦄ ⦃c : CharClass⦄ ⦃k : KernelType K⦄
    (env : Surroundings T K A) (config : LoadConfig) (works : Works env) where
  -- The table is defined with the columns of the block, and its name is one the storage takes.
  abbrev pub IsDefined : Reader T A → TableName → List Bytes → Type 0
  IsDefined r table columns =
      (def : TableDef) × (get_key (qualified table) r.table_defs ≡ some def)
      × Succeeds (resolve_copy_columns def columns)
      × Succeeds
          (table_uri config.output_uri (task_name table (get_key (qualified table) r.preloads)))

  start_block-Succeeds :
      (r : Reader T A) (table : TableName) (columns : List Bytes)
      → config.mode ≡ WriteMode.overwrite
      → IsDefined r table columns
      → Succeeds (start_block env config r table columns)
  unfolding start_block preload_table
  start_block-Succeeds r table columns mode (def, found, resolves, safe) =
      rw (found, mode)
        (Ends-bind Never Anything Anything (resolve_copy_columns def columns) _ resolves
          λ resolved h.
            Ends-bind Never Anything Anything
              (preload_table env.delta config.output_uri
                (task_name table (get_key (qualified table) r.preloads)))
              _
              (Ends-bind Never Anything Anything
                (table_uri config.output_uri
                  (task_name table (get_key (qualified table) r.preloads)))
                _ safe
                λ uri g.
                  Ends-bind Never Anything Anything (env.delta.load_table uri) _ (works.loads uri)
                    λ loaded i. tt)
              λ preloaded g.
                Ends-bind Never Anything Anything
                  (finish_open env.delta preloaded table
                    (arrow_schema (zipped columns resolved) config.wide_numeric_as_decimal
                      config.native_arrays)
                    WriteMode.overwrite)
                  _ (finish_open-Succeeds env works preloaded table _)
                  λ opened i.
                    Ends-bind Never Anything Anything (dispatch_all env.pool r.sent 0 env.threads _)
                      _ (dispatch_all-Succeeds env works r.sent 0 env.threads _) λ sent j. tt)

  -- The block of this table is open, behind finished tables of these names.
  abbrev InBlock : TableName → List Bytes → Reader T A → Type 0
  InBlock table names s =
      (block : OpenBlock) × (s.current ≡ some block)
      × (block.table ≡ table)
      × (block.qualified ≡ qualified table)
      × (s.skipping ≡ false)
      × (done_names s.tables ≡ names)

  numbered-some :
      (o : Option OpenBlock) (x : ℕ × TableName × Bytes)
      → numbered o ≡ some x
      → (block : OpenBlock) × (o ≡ some block) × (block.table ≡ x.1) × (block.qualified ≡ x.2)
  numbered-some none x e = absurd (subst Given (sym e) tt)
  numbered-some (some block) x e =
      (block, refl, ap (λ o. (or_this x o).1) e, ap (λ o. (or_this x o).2) e)

  start-Succeeds :
      (r : Reader T A) (bytes_read : ℕ) (table : TableName) (columns : List Bytes)
      → config.mode ≡ WriteMode.overwrite
      → wanted config table ≡ true
      → (config.write_manifest && reserved_collision table) ≡ false
      → r.current ≡ none
      → r.skipping ≡ false
      → IsDefined r table columns
      → Ends Never
          (InBlock table (done_names r.tables))
          (on_event env config r bytes_read (Event.copy_start table columns))
  unfolding on_event
  start-Succeeds r bytes_read table columns mode w free idle loading defined =
      by_current r.current idle
    where
      seen : Reader T A
      seen = record r { seen_tables = insert_name (qualified table) r.seen_tables }

      by_current :
          (o : Option OpenBlock)
          → o ≡ none
          → Ends Never
              (InBlock table (done_names r.tables))
              (start_unless_open env config r table columns o)
      by_current (some b) e = absurd (subst Given (ap numbered e) tt)
      by_current none e =
          rw (free, w)
            (Ends-both Never _ (start_block env config seen table columns)
              (start_block-Succeeds seen table columns mode defined)
              (Ends-map Anything _ _ (start_block env config seen table columns)
                (start_block-Shows env config seen table columns)
                λ s h.
                  let (block, is, named, known) =
                    numbered-some s.current (r.generation + 1, table, qualified table)
                      (ap (λ (o : Outline). o.opened) h) in
                  (
                    block,
                    is,
                    named,
                    known,
                    ap (λ (o : Outline). o.skipping) h ∙ loading,
                    ap (λ (o : Outline). o.done) h,
                  )))

  row-Succeeds :
      (r : Reader T A) (bytes_read : ℕ) (table : TableName) (names : List Bytes) (payload : Bytes)
      → InBlock table names r
      → Ends Never
          (InBlock table names)
          (on_event env config r bytes_read (Event.copy_rows payload))
  unfolding on_event
  row-Succeeds r bytes_read table names payload (block, is, named, known, loading, done) =
      by_state r.skipping r.current loading is
    where
      by_state :
          (skip : Bool) (o : Option OpenBlock)
          → skip ≡ false
          → o ≡ some block
          → Ends Never
              (InBlock table names)
              (if skip then ok r else rows_to_worker env config r payload o)
      by_state true o f e = (block, is, named, known, loading, done)
      by_state false none f e = absurd (subst Given (ap numbered (sym e)) tt)
      by_state false (some b) f e =
          Ends-bind Never Anything _
            (dispatch env.pool r.sent (r.round_robin % env.threads) (rows b.generation payload)) _
            (dispatch-Succeeds env works r.sent (r.round_robin % env.threads)
              (rows b.generation payload))
            λ sent h. (block, is, named, known, loading, done)

  finish_block-Succeeds :
      (r : Reader T A) (bytes_read : ℕ) (block : OpenBlock) (names : List Bytes)
      → r.skipping ≡ false
      → done_names r.tables ≡ names
      → Ends Never
          (IsIdle (names ++ block.qualified ∷ []))
          (finish_block env config r bytes_read block)
  unfolding finish_block done_names
  finish_block-Succeeds r bytes_read block names loading done =
      Ends-bind Never Anything _
        (dispatch_all env.pool r.sent 0 env.threads (close_block block.generation)) _
        (dispatch_all-Succeeds env works r.sent 0 env.threads _)
        λ sent h.
          Ends-bind Never Anything _ (collect env.pool sent 0 env.threads (zero_totals block)) _
            (collect-Succeeds env works sent 0 env.threads (zero_totals block))
            λ totals g.
              rw
                (works.goes_on r.progress_calls (record {
                  bytes_read = bytes_read;
                  rows = r.total_rows + totals.rows;
                  tables_done = length (r.tables ++ stats_of block totals ∷ []);
                  table = some (qualified block.table);
                }))
                (
                  refl,
                  loading,
                  done_names-append r.tables (stats_of block totals ∷ [])
                      ∙ ap (λ ns. ns ++ block.qualified ∷ []) done,
                )

  end-Succeeds :
      (r : Reader T A) (bytes_read : ℕ) (table : TableName) (names : List Bytes)
      → InBlock table names r
      → Ends Never
          (IsIdle (names ++ qualified table ∷ []))
          (on_event env config r bytes_read (Event.copy_end table))
  unfolding on_event
  end-Succeeds r bytes_read table names (block, is, named, known, loading, done) =
      subst (λ q. Ends Never (IsIdle (names ++ q ∷ [])) (on_end env config r bytes_read table))
        known (by_state r.skipping r.current loading is)
    where
      by_state :
          (skip : Bool) (o : Option OpenBlock)
          → skip ≡ false
          → o ≡ some block
          → Ends Never (IsIdle (names ++ block.qualified ∷ [])) (
              if skip
              then ok (record r { skipping = false })
              else end_block env config r bytes_read table o)
      by_state true o f e = absurd (subst IsTrue f tt)
      by_state false o f e =
          subst
            (λ o.
              Ends Never (IsIdle (names ++ block.qualified ∷ []))
                (end_block env config r bytes_read table o))
            (sym e)
            (rw (same_table_refl block.table table named)
              (finish_block-Succeeds r bytes_read block names loading done))

  rows_of-Succeeds :
      (r : Reader T A) (bytes_read : ℕ) (table : TableName) (names : List Bytes)
      (payloads : List Bytes)
      → InBlock table names r
      → Ends Never
          (IsIdle (names ++ qualified table ∷ []))
          (on_events env config r bytes_read (rows_of table payloads))
  unfolding on_events
  rows_of-Succeeds r bytes_read table names [] h =
      Ends-bind Never _ _ (on_event env config r bytes_read (Event.copy_end table)) _
        (end-Succeeds r bytes_read table names h) λ s i. i
  rows_of-Succeeds r bytes_read table names (payload ∷ payloads) h =
      Ends-bind Never _ _ (on_event env config r bytes_read (Event.copy_rows payload)) _
        (row-Succeeds r bytes_read table names payload h)
        λ s i. rows_of-Succeeds s bytes_read table names payloads i

  -- If the storage, the workers and `progress` do what they are asked to and tables are overwritten,
  -- then a block of any rows of a table that is wanted, whose name is not reserved and that is defined
  -- with its columns is loaded without an error: the reader is idle again, with the table finished.
  pub on_events-IsIdle :
      (r : Reader T A) (bytes_read : ℕ) (table : TableName) (columns : List Bytes)
      (payloads : List Bytes)
      → config.mode ≡ WriteMode.overwrite
      → wanted config table ≡ true
      → (config.write_manifest && reserved_collision table) ≡ false
      → r.current ≡ none
      → r.skipping ≡ false
      → IsDefined r table columns
      → Ends Never (IsIdle (done_names r.tables ++ qualified table ∷ [])) (
          on_events env config r bytes_read
            (Event.copy_start table columns ∷ rows_of table payloads))
  unfolding on_events
  on_events-IsIdle r bytes_read table columns payloads mode w free idle loading defined =
      Ends-bind Never _ _ (on_event env config r bytes_read (Event.copy_start table columns)) _
        (start-Succeeds r bytes_read table columns mode w free idle loading defined)
        λ s h. rows_of-Succeeds s bytes_read table (done_names r.tables) payloads h
