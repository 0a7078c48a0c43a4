-- ===== src/Pipeline/Drive/Seen.antt =====
-- src/pipeline.rs: what the report of a load says about the tables that were expected, against the
-- blocks of the dump.
use rust_streamer_pgdb.Error.Ends.{Ends-pure, Ends, Ends-map, Ends-bind, Anything}
use rust_streamer_pgdb.Pipeline.Drive.Bracketed.{contents_of}
use rust_streamer_pgdb.Pipeline.Reader.{Surroundings, on_events, report_progress}
use rust_streamer_pgdb.Pipeline.State.{Reader, new_reader}
use rust_streamer_pgdb.Scan.Scanner.{Fed, Event, Scanner, new}
use rust_streamer_pgdb.Scan.Scanner.Lines.{in_front}
use rust_streamer_pgdb.Pipeline.Config.{LoadConfig, is_listed}
use rust_streamer_pgdb.Pipeline.Report.{LoadReport}
use rust_streamer_pgdb.Pipeline.Report.Expected.{
  is_listed-missing_tables, is_listed-unexpected_tables, is_expected, is_surprise,
}
use rust_streamer_pgdb.Pipeline.Drive.{
  drive, Source, Ending, read_chunks, excluding, handle_events, no_failure, version_or_error,
  with_record,
}
use rust_streamer_pgdb.Prelude.{
  ap, not, Memchr, ◌∙◌, inr, none, inl, ◌&&◌, Bool-cases, ℕ, sym, refl, [], ◌++◌, ◌∷◌, ◌≡◌, Bytes,
  List,
}
use rust_streamer_pgdb.Types.Name.{Lowercase}
use rust_streamer_pgdb.Error.{err, ok, ◌>>=◌, Result}
use rust_streamer_pgdb.Sink.Paths.{CharClass}
use rust_streamer_pgdb.Sink.Drift.{KernelType}
use rust_streamer_pgdb.Scan.Scanner.Dump.{feed_all}
use rust_streamer_pgdb.Scan.Scanner.Feed.{feed}
use rust_streamer_pgdb.Scan.Scanner.{finish}
use rust_streamer_pgdb.Pipeline.Commit.{commit_phase}
use rust_streamer_pgdb.Pipeline.Reader.Seen.{
  has_block, all_seen, all_seen-append, is_listed-all_seen, on_events-Sees, report_progress-Sees,
}

module _ {T K A : Type 0} ⦃l : Lowercase⦄ ⦃c : CharClass⦄ ⦃k : KernelType K⦄
    (env : Surroundings T K A) (config : LoadConfig) where
  -- The scanner gave these events, and the reader has seen the names of their blocks.
  abbrev Collects : Fed → List Bytes → Scanner × Reader T A → Type 0
  Collects fed names x =
      (es : List Event) × (fed ≡ ok (x.0, es)) × (x.1.seen_tables ≡ all_seen names es)

  handle_events-Sees :
      ⦃m : Memchr⦄ (r : Reader T A) (bytes_read : ℕ) (t : Scanner) (es : List Event)
      → Ends Anything
          (λ x. (x.0 ≡ t) × (x.1.seen_tables ≡ all_seen r.seen_tables es))
          (handle_events env config r bytes_read (t, es))
  handle_events-Sees r bytes_read t es =
      Ends-bind Anything _ _ (on_events env config r bytes_read es) _
        (on_events-Sees env config r bytes_read es)
        λ handled h.
          Ends-bind Anything _ _ (report_progress env config handled bytes_read none) _
            (report_progress-Sees env config handled bytes_read none) λ reported g. (refl, g ∙ h)

  read_chunks-Collects :
      ⦃m : Memchr⦄ (s : Scanner) (r : Reader T A) (chunks : List (Bytes × ℕ))
      → Ends Anything
          (Collects (feed_all s (contents_of chunks)) r.seen_tables)
          (read_chunks env config s r chunks)
  unfolding read_chunks feed_all contents_of
  read_chunks-Collects s r [] = ([], refl, refl)
  read_chunks-Collects s r ((chunk, bytes_read) ∷ chunks) =
      step (feed s chunk) (λ t u. read_chunks-Collects t u chunks)
    where
      step :
          (f : Fed)
          → ((t : Scanner) (u : Reader T A)
              → Ends Anything
                  (Collects (feed_all t (contents_of chunks)) u.seen_tables)
                  (read_chunks env config t u chunks))
          → Ends Anything
              (Collects (f >>= λ q. in_front q.1 (feed_all q.0 (contents_of chunks))) r.seen_tables)
              (f >>= handle_events env config r bytes_read >>= λ x.
                read_chunks env config x.0 x.1 chunks)
      step (err e) later = tt
      step (ok (t, es)) later =
          Ends-bind Anything _ _ (handle_events env config r bytes_read (t, es)) _
            (handle_events-Sees r bytes_read t es)
            λ x h.
              Ends-map Anything _ _ (read_chunks env config x.0 x.1 chunks) (later x.0 x.1)
                λ y (fs, fed, done). (
                  es ++ fs,
                  ap (λ t. in_front es (feed_all t (contents_of chunks))) (sym h.0)
                      ∙ ap (in_front es) fed,
                  done
                      ∙ ap (λ names. all_seen names fs) h.1
                      ∙ sym (all_seen-append r.seen_tables es fs),
                )

with_record-compared :
    (append : LoadReport → Result Bytes) (config : LoadConfig) (report : LoadReport)
    → Ends Anything
        (λ r.
          (r.missing_tables ≡ report.missing_tables)
          × (r.unexpected_tables ≡ report.unexpected_tables))
        (with_record append config report)
with_record-compared append config report = elim (Bool-cases config.write_manifest) [
  | inl written ↦ rw written (Ends-pure _ (append report) _ λ load_id. (refl, refl))
  | inr plain ↦ rw plain (refl, refl)
]

-- What a report says of a name, against the blocks of the dump it was made from.
abbrev pub Compared : ⦃m : Memchr⦄ → LoadConfig → Source → Bytes → LoadReport → Type 0
Compared config source x report =
    (es : List Event) × (s : Scanner) × (feed_all (excluding config.excluded_schemas new)
        (contents_of source.chunks)
      ≡ ok (s, es))
    × (is_listed report.missing_tables x
        ≡ (is_expected config.expect_tables config.tables x && not (has_block es x)))
    × (is_listed report.unexpected_tables x
        ≡ (has_block es x && is_surprise config.expect_tables x))

module _ {T K A : Type 0} ⦃m : Memchr⦄ ⦃l : Lowercase⦄ ⦃c : CharClass⦄ ⦃k : KernelType K⦄
    (env : Surroundings T K A) (config : LoadConfig) where
  -- The report of a load that succeeds calls a name missing if and only if it is expected, by
  -- `expect_tables` or, where that is not given, by `tables`, and no block of that name starts among
  -- the events of the dump; and unexpected if and only if one starts, and `expect_tables` is given and
  -- does not list it.
  pub drive-Compared :
      (source : Source) (ending : Ending) (x : Bytes)
      → Ends Anything (Compared config source x) (drive env config source ending)
  unfolding drive is_listed
  drive-Compared source ending x =
      Ends-bind Anything _ _
        (read_chunks env config (excluding config.excluded_schemas new) new_reader source.chunks) _
        (read_chunks-Collects env config (excluding config.excluded_schemas new) new_reader
          source.chunks)
        λ y (es, fed, seen).
          let told : (z : Bytes) → is_listed y.1.seen_tables z ≡ has_block es z =
            λ z. ap (λ names. is_listed names z) seen ∙ is_listed-all_seen z [] es in
          Ends-pure _ (no_failure source.failure) _ λ u. Ends-pure _ (finish y.0) _ λ w.
            Ends-pure _ (version_or_error y.1.dumped_by) _ λ major.
              Ends-pure _
                (commit_phase env.delta ending.display ending.arrive config.mode y.1.staged
                  y.1.open_tables y.1.tables)
                _
                λ tables.
                  Ends-map Anything _ _ (with_record ending.append config _)
                    (with_record-compared ending.append config _)
                    λ report (missed, extra). (
                      es,
                      y.0,
                      fed,
                      ap (λ names. is_listed names x) missed
                          ∙ is_listed-missing_tables config y.1.seen_tables x
                          ∙ ap (λ b. is_expected config.expect_tables config.tables x && not b)
                              (told x),
                      ap (λ names. is_listed names x) extra
                          ∙ is_listed-unexpected_tables config y.1.seen_tables x
                          ∙ ap (λ b. b && is_surprise config.expect_tables x) (told x),
                    )
