-- ===== src/Pipeline/Drive/Bracketed.antt =====
-- src/pipeline.rs with src/scan.rs: what a load that succeeds has done with the dump.
use mathlib.Core.List.{Permᴰ}
use rust_streamer_pgdb.Error.Ends.{Ends-pure, Ends, Ends-map, Ends-bind, Anything}
use rust_streamer_pgdb.Scan.Scanner.{set_excluded_schemas}
use rust_streamer_pgdb.Scan.Scanner.{Scanner, Fed, Event, new, finish}
use rust_streamer_pgdb.Scan.Scanner.Feed.{feed}
use rust_streamer_pgdb.Scan.Scanner.Dump.{feed_all}
use rust_streamer_pgdb.Scan.Scanner.Lines.{in_front}
use rust_streamer_pgdb.Scan.Scanner.Nested.{feed_all-Ordered, finish-finished, finished}
use rust_streamer_pgdb.Pipeline.Reader.{Surroundings, on_events, report_progress}
use rust_streamer_pgdb.Pipeline.State.{TableStats, Reader, new_reader}
use rust_streamer_pgdb.Pipeline.Reader.Outline.{
  done_names, outline_event, Outline, outline, outline_events,
}
use rust_streamer_pgdb.Pipeline.Reader.Refines.{on_events-outline, report_progress-Shows}
use rust_streamer_pgdb.Prelude.{
  inr, subst, inl, Bool-cases, some, Option, sym, ap, ◌∙◌, none, refl, ◌≡◌, [], ◌∷◌, ◌++◌, Bytes, ℕ,
  List, Memchr,
}
use rust_streamer_pgdb.Pipeline.Config.{LoadConfig}
use rust_streamer_pgdb.Types.Name.{Lowercase}
use rust_streamer_pgdb.Sink.Paths.{CharClass}
use rust_streamer_pgdb.Sink.Drift.{KernelType}
use rust_streamer_pgdb.Pipeline.Drive.{
  version_or_error, no_failure, with_record, Ending, excluding, drive, Source, handle_events,
  read_chunks,
}
use rust_streamer_pgdb.Error.{Result, Error, err, ◌>>=◌, ok}
use rust_streamer_pgdb.Scan.Scanner.Blocks.{Follows, Ordered, Valid}
use rust_streamer_pgdb.Pipeline.Report.{LoadReport}
use rust_streamer_pgdb.Scan.Names.{TableName}
use rust_streamer_pgdb.Pipeline.Commit.{commit_phase, Outcome}
use rust_streamer_pgdb.Pipeline.Commit.Counts.{commit_phase-Reports, Reports}
use rust_streamer_pgdb.Pipeline.Reader.Rows.{outline_events-loaded, loaded_tables}

-- The chunks without the bytes read.
unfoldable pub contents_of : List (Bytes × ℕ) → List Bytes
contents_of [] = []
contents_of (chunk ∷ chunks) = chunk.0 ∷ contents_of chunks

outline_events-append :
    (threads : ℕ) (config : LoadConfig) (o : Outline) (es fs : List Event)
    → outline_events threads config o (es ++ fs)
      ≡ outline_events threads config (outline_events threads config o es) fs
unfolding outline_events
outline_events-append threads config o [] fs = refl
outline_events-append threads config o (e ∷ es) fs =
    outline_events-append threads config (outline_event threads config o e) es fs

module _ {T K A : Type 0} ⦃m : Memchr⦄ ⦃l : Lowercase⦄ ⦃c : CharClass⦄ ⦃k : KernelType K⦄
    (env : Surroundings T K A) (config : LoadConfig) where
  -- The scanner gave these events, and the reader did with them what the outline does.
  abbrev Handles : Fed → Outline → Scanner × Reader T A → Type 0
  Handles fed o x =
      (es : List Event) × (fed ≡ ok (x.0, es))
      × (outline x.1 ≡ outline_events env.threads config o es)

  read_chunks-Handles :
      (s : Scanner) (r : Reader T A) (chunks : List (Bytes × ℕ))
      → Ends Anything
          (Handles (feed_all s (contents_of chunks)) (outline r))
          (read_chunks env config s r chunks)
  unfolding read_chunks feed_all contents_of outline_events
  read_chunks-Handles s r [] = ([], refl, refl)
  read_chunks-Handles s r ((chunk, bytes_read) ∷ chunks) =
      step (feed s chunk) (λ t u. read_chunks-Handles t u chunks)
    where
      step :
          (f : Fed)
          → ((t : Scanner) (u : Reader T A)
              → Ends Anything
                  (Handles (feed_all t (contents_of chunks)) (outline u))
                  (read_chunks env config t u chunks))
          → Ends Anything
              (Handles (f >>= λ q. in_front q.1 (feed_all q.0 (contents_of chunks))) (outline r))
              (f >>= handle_events env config r bytes_read >>= λ x.
                read_chunks env config x.0 x.1 chunks)
      step (err e) later = tt
      step (ok (t, es)) later =
          Ends-bind Anything
            (λ x. (x.0 ≡ t) × (outline x.1 ≡ outline_events env.threads config (outline r) es)) _
            (handle_events env config r bytes_read (t, es)) _
            (Ends-bind Anything _ _ (on_events env config r bytes_read es) _
              (on_events-outline env config r bytes_read es)
              λ handled h.
                Ends-bind Anything _ _ (report_progress env config handled bytes_read none) _
                  (report_progress-Shows env config handled bytes_read none)
                  λ reported g. (refl, g ∙ h))
            λ x h.
              Ends-map Anything _ _ (read_chunks env config x.0 x.1 chunks) (later x.0 x.1)
                λ y (fs, fed, done). (
                  es ++ fs,
                  ap (λ t. in_front es (feed_all t (contents_of chunks))) (sym h.0)
                      ∙ ap (in_front es) fed,
                  done
                      ∙ ap (λ o. outline_events env.threads config o fs) h.1
                      ∙ sym (outline_events-append env.threads config (outline r) es fs),
                )

excluding-Ordered :
    (o : Option (List Bytes)) (cs : List Bytes) ⦃m : Memchr⦄
    → Ordered none (feed_all (excluding o new) cs)
excluding-Ordered none cs = feed_all-Ordered new cs tt
excluding-Ordered (some schemas) cs = feed_all-Ordered (set_excluded_schemas new schemas) cs tt

finish-none : (s : Scanner) → Valid s → Ends Anything (λ u. s.open_table ≡ none) (finish s)
finish-none s v =
    subst (Ends Anything (λ u. s.open_table ≡ none)) (sym (finish-finished s v))
      (by_fields s.open_table s.dumped_by)
  where
    by_fields :
        (o : Option TableName) (version : Option ℕ)
        → Ends Anything (λ u. o ≡ none) (finished o version)
    by_fields (some name) version = tt
    by_fields none none = tt
    by_fields none (some version) = refl

Reports-names :
    (display : Error → Bytes) (os : List Outcome) (names : List Bytes)
    (m : Result (List TableStats))
    → Reports display os names m
    → Ends Anything (λ tables. done_names tables ≡ names) m
Reports-names display os names (ok tables) h = h.1
Reports-names display os names (err e) h = tt

with_record-tables :
    (append : LoadReport → Result Bytes) (config : LoadConfig) (report : LoadReport)
    → Ends Anything (λ r. r.tables ≡ report.tables) (with_record append config report)
with_record-tables append config report = elim (Bool-cases config.write_manifest) [
  | inl written ↦ rw written (Ends-pure _ (append report) _ λ load_id. refl)
  | inr plain ↦ rw plain refl
]

-- The dump is whole, and these are the names of its wanted tables, in the order of their blocks.
abbrev pub LoadedWhole : ⦃m : Memchr⦄ → LoadConfig → Source → List Bytes → Type 0
LoadedWhole config source names =
    (es : List Event) × (s : Scanner) × (feed_all (excluding config.excluded_schemas new)
        (contents_of source.chunks)
      ≡ ok (s, es))
    × (source.failure ≡ none)
    × Follows none es none
    × (names ≡ loaded_tables config none es)

module _ {T K A : Type 0} ⦃m : Memchr⦄ ⦃l : Lowercase⦄ ⦃c : CharClass⦄ ⦃k : KernelType K⦄
    (env : Surroundings T K A) (config : LoadConfig) where
  -- If the commits come back each once, then a load that succeeds has read the dump to its end, the
  -- scanner took all of it, every block in it was ended, and the report has one entry for each block of
  -- a wanted table, in the order of the dump, whatever the storage and the workers answer.
  pub drive-LoadedWhole :
      (source : Source) (ending : Ending)
      → ((os : List Outcome) → Permᴰ os (ending.arrive os))
      → Ends Anything
          (λ report. LoadedWhole config source (done_names report.tables))
          (drive env config source ending)
  unfolding drive done_names
  drive-LoadedWhole source ending perm =
      Ends-bind Anything _ _
        (read_chunks env config (excluding config.excluded_schemas new) new_reader source.chunks) _
        (read_chunks-Handles env config (excluding config.excluded_schemas new) new_reader
          source.chunks)
        λ x (es, fed, same).
          let ordered : Ordered none (ok (x.0, es)) =
            subst (Ordered none) fed
              (excluding-Ordered config.excluded_schemas (contents_of source.chunks)) in
          Ends-bind Anything (λ u. source.failure ≡ none) _ (no_failure source.failure) _
            (unfailed source.failure)
            λ u whole. Ends-bind Anything _ _ (finish x.0) _ (finish-none x.0 ordered.0) λ w shut.
              Ends-pure _ (version_or_error x.1.dumped_by) _ λ major.
                Ends-bind Anything _ _
                  (commit_phase env.delta ending.display ending.arrive config.mode x.1.staged
                    x.1.open_tables x.1.tables)
                  _
                  (Reports-names ending.display _ (done_names x.1.tables) _ (
                    commit_phase-Reports env.delta ending.display ending.arrive config.mode
                      x.1.staged x.1.open_tables x.1.tables perm))
                  λ tables names.
                    Ends-map Anything _ _ (with_record ending.append config _)
                      (with_record-tables ending.append config _)
                      λ report t. (
                        es,
                        x.0,
                        fed,
                        whole,
                        subst (Follows none es) shut ordered.1,
                        ap done_names t
                            ∙ names
                            ∙ (outline_events-loaded env config x.1 es none
                                (subst (Follows none es) shut ordered.1) same).1,
                      )
    where
      unfailed : (o : Option Error) → Ends Anything (λ u. o ≡ none) (no_failure o)
      unfailed none = refl
      unfailed (some e) = tt
