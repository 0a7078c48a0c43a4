-- ===== src/Pipeline/Reader/Seen.antt =====
-- src/pipeline.rs: the names of `seen_tables`, by the events of the scanner.
use rust_streamer_pgdb.Error.Ends.{Ends-pure, Ends, Ends-bind, Anything}
use rust_streamer_pgdb.Pipeline.Reader.{
  def_or_error, Surroundings, on_events, on_event, report_progress, start_unless_open,
  rows_to_worker, finish_block, end_block, start_block,
}
use rust_streamer_pgdb.Pipeline.State.{
  bytes_less, mismatched, same_table, get_key, Reader, OpenBlock, insert_name,
}
use rust_streamer_pgdb.Scan.Scanner.{Event}
use rust_streamer_pgdb.Scan.Names.{qualified, TableName}
use rust_streamer_pgdb.Pipeline.Config.{
  wanted, reserved_collision, resolve_copy_columns, LoadConfig, is_listed,
}
use rust_streamer_pgdb.Pipeline.Report.Expected.{or_exchange}
use rust_streamer_pgdb.Prelude.{
  ap, if◌then◌else◌, ◌∙◌, bytes_eq→eq, inr, none, inl, ◌%◌, length, ◌&&◌, Bool-cases, subst, some,
  ◌⊎◌, Option, ℕ, sym, refl, true, [], ◌||◌, false, bytes_eq, Bool, ◌++◌, ◌∷◌, ◌≡◌, Bytes, List,
}
use rust_streamer_pgdb.Types.Name.{Lowercase}
use rust_streamer_pgdb.Error.{Result}
use rust_streamer_pgdb.Sink.Paths.{CharClass}
use rust_streamer_pgdb.Sink.Drift.{KernelType}
use rust_streamer_pgdb.Pipeline.Pool.{dispatch, collect, dispatch_all}
use rust_streamer_pgdb.Sink.Opening.{finish_open, preload_table}

-- Whether a block of a name starts.
unfoldable pub has_block : List Event → Bytes → Bool
has_block [] x = false
has_block (Event.copy_start table columns ∷ es) x = bytes_eq (qualified table) x || has_block es x
has_block (_ ∷ es) x = has_block es x

-- The names behind an event, and behind some.
abbrev pub seen_behind : List Bytes → Event → List Bytes
seen_behind names (Event.copy_start table columns) = insert_name (qualified table) names
seen_behind names _ = names

abbrev pub all_seen : List Bytes → List Event → List Bytes
all_seen names [] = names
all_seen names (e ∷ es) = all_seen (seen_behind names e) es

pub all_seen-append :
    (names : List Bytes) (es fs : List Event)
    → all_seen names (es ++ fs) ≡ all_seen (all_seen names es) fs
all_seen-append names [] fs = refl
all_seen-append names (e ∷ es) fs = all_seen-append (seen_behind names e) es fs

or_twice : (a b : Bool) → (a || b) ≡ (a || (a || b))
or_twice true b = refl
or_twice false b = refl

or_false : (a : Bool) → (a || false) ≡ a
or_false true = refl
or_false false = refl

or_swap : (a b c : Bool) → ((a || b) || c) ≡ (b || (a || c))
or_swap true true c = refl
or_swap true false c = refl
or_swap false b c = refl

is_listed-insert_name :
    (x name : Bytes) (names : List Bytes)
    → is_listed (insert_name name names) x ≡ (bytes_eq name x || is_listed names x)
unfolding is_listed insert_name
is_listed-insert_name x name [] = refl
is_listed-insert_name x name (n ∷ names) =
    by_cases (Bool-cases (bytes_eq n name)) (Bool-cases (bytes_less name n))
      (is_listed-insert_name x name names)
  where
    by_cases :
        (bytes_eq n name ≡ true) ⊎ (bytes_eq n name ≡ false)
        → (bytes_less name n ≡ true) ⊎ (bytes_less name n ≡ false)
        → is_listed (insert_name name names) x ≡ (bytes_eq name x || is_listed names x)
        → is_listed (insert_name name (n ∷ names)) x ≡ (bytes_eq name x || is_listed (n ∷ names) x)
    by_cases (inl same) b rest =
        rw (same, bytes_eq→eq n name same) (or_twice (bytes_eq name x) (is_listed names x))
    by_cases (inr other) (inl before) rest = rw (other, before) refl
    by_cases (inr other) (inr behind) rest =
        rw (other, behind, rest) (or_exchange (bytes_eq n x) (bytes_eq name x) (is_listed names x))

pub is_listed-all_seen :
    (x : Bytes) (names : List Bytes) (es : List Event)
    → is_listed (all_seen names es) x ≡ (is_listed names x || has_block es x)
unfolding has_block
is_listed-all_seen x names [] = sym (or_false (is_listed names x))
is_listed-all_seen x names (Event.copy_start table columns ∷ es) =
    is_listed-all_seen x (insert_name (qualified table) names) es
    ∙ ap (λ b. b || has_block es x) (is_listed-insert_name x (qualified table) names)
    ∙ or_swap (bytes_eq (qualified table) x) (is_listed names x) (has_block es x)
is_listed-all_seen x names (Event.dump_version by from ∷ es) = is_listed-all_seen x names es
is_listed-all_seen x names (Event.table def ∷ es) = is_listed-all_seen x names es
is_listed-all_seen x names (Event.copy_rows payload ∷ es) = is_listed-all_seen x names es
is_listed-all_seen x names (Event.copy_end table ∷ es) = is_listed-all_seen x names es

module _ {T A : Type 0} where
  -- The names that a reader has seen, where a call gives one.
  abbrev pub Sees : List Bytes → Result (Reader T A) → Type 0
  Sees names m = Ends Anything (λ t. t.seen_tables ≡ names) m

  either-Sees :
      (names : List Bytes) (test : Bool) (m n : Result (Reader T A))
      → Sees names m
      → Sees names n
      → Sees names (if test then m else n)
  either-Sees names true m n h k = h
  either-Sees names false m n h k = k

module _ {T K A : Type 0} ⦃l : Lowercase⦄ ⦃c : CharClass⦄ ⦃k : KernelType K⦄
    (env : Surroundings T K A) (config : LoadConfig) where
  pub report_progress-Sees :
      (r : Reader T A) (bytes_read : ℕ) (table : Option Bytes)
      → Sees r.seen_tables (report_progress env config r bytes_read table)
  report_progress-Sees r bytes_read table =
      elim (Bool-cases (
        env.progress r.progress_calls (record {
          bytes_read = bytes_read;
          rows = r.total_rows;
          tables_done = length r.tables;
          table = table;
        }))) [ inl on ↦ rw on refl | inr off ↦ rw off tt ]

  start_block-Sees :
      (r : Reader T A) (table : TableName) (columns : List Bytes)
      → Sees r.seen_tables (start_block env config r table columns)
  unfolding start_block
  start_block-Sees r table columns =
      Ends-pure _ (def_or_error (qualified table) (get_key (qualified table) r.table_defs)) _ λ def.
        Ends-pure _ (resolve_copy_columns def columns) _ λ resolved.
          Ends-pure _ (preload_table env.delta config.output_uri _) _ λ preloaded.
            Ends-pure _ (finish_open env.delta preloaded table _ config.mode) _
              λ opened. Ends-pure _ (dispatch_all env.pool r.sent 0 env.threads _) _ λ sent. refl

  start-Sees :
      (r : Reader T A) (table : TableName) (columns : List Bytes) (o : Option OpenBlock)
      → Sees
          (insert_name (qualified table) r.seen_tables)
          (start_unless_open env config r table columns o)
  start-Sees r table columns (some block) = tt
  start-Sees r table columns none =
      elim (Bool-cases (config.write_manifest && reserved_collision table)) [
        | inl reserved ↦ rw reserved tt
        | inr free ↦ elim (Bool-cases (wanted config table)) [
          | inl w ↦
              rw (free, w)
                (start_block-Sees
                  (record r { seen_tables = insert_name (qualified table) r.seen_tables }) table
                  columns)
          | inr w ↦ rw (free, w) refl
        ]
      ]

  rows-Sees :
      (r : Reader T A) (payload : Bytes) (o : Option OpenBlock)
      → Sees r.seen_tables (rows_to_worker env config r payload o)
  rows-Sees r payload none = tt
  rows-Sees r payload (some block) =
      Ends-pure _ (dispatch env.pool r.sent (r.round_robin % env.threads) _) _ λ sent. refl

  finish_block-Sees :
      (r : Reader T A) (bytes_read : ℕ) (block : OpenBlock)
      → Sees r.seen_tables (finish_block env config r bytes_read block)
  unfolding finish_block
  finish_block-Sees r bytes_read block =
      Ends-pure _ (dispatch_all env.pool r.sent 0 env.threads _) _ λ sent.
        Ends-pure _ (collect env.pool sent 0 env.threads _) _
          λ totals. report_progress-Sees _ bytes_read (some (qualified block.table))

  end-Sees :
      (r : Reader T A) (bytes_read : ℕ) (table : TableName) (o : Option OpenBlock)
      → Sees r.seen_tables (end_block env config r bytes_read table o)
  end-Sees r bytes_read table none = tt
  end-Sees r bytes_read table (some block) = elim (Bool-cases (same_table block.table table)) [
    | inl same ↦ rw same (finish_block-Sees r bytes_read block)
    | inr other ↦ rw other tt
  ]

  on_event-Sees :
      (r : Reader T A) (bytes_read : ℕ) (e : Event)
      → Sees (seen_behind r.seen_tables e) (on_event env config r bytes_read e)
  unfolding on_event
  on_event-Sees r bytes_read (Event.dump_version by from) =
      elim (Bool-cases (mismatched config.expect_pg_major by)) [
        | inl wrong ↦ rw wrong tt
        | inr right ↦ rw right refl
      ]
  on_event-Sees r bytes_read (Event.table def) = refl
  on_event-Sees r bytes_read (Event.copy_start table columns) = start-Sees r table columns r.current
  on_event-Sees r bytes_read (Event.copy_rows payload) =
      either-Sees r.seen_tables r.skipping _ _ refl (rows-Sees r payload r.current)
  on_event-Sees r bytes_read (Event.copy_end table) =
      either-Sees r.seen_tables r.skipping _ _ refl (end-Sees r bytes_read table r.current)

  pub on_events-Sees :
      (r : Reader T A) (bytes_read : ℕ) (es : List Event)
      → Sees (all_seen r.seen_tables es) (on_events env config r bytes_read es)
  unfolding on_events
  on_events-Sees r bytes_read [] = refl
  on_events-Sees r bytes_read (e ∷ es) =
      Ends-bind Anything _ _ (on_event env config r bytes_read e) _ (on_event-Sees r bytes_read e)
        λ s h.
          subst (λ names. Sees (all_seen names es) (on_events env config s bytes_read es)) h
            (on_events-Sees s bytes_read es)
