-- ===== src/Pipeline/Drive.antt =====
-- src/pipeline.rs: `drive`, from the chunks to the report. The chunks are what `next_chunk` gave, with
-- the bytes read so far, and the error it failed with, if it did. The record of the load that is
-- written behind it is src/manifest.rs's `append`, an argument.
pub mod Bracketed
pub mod Seen
use rust_streamer_pgdb.Scan.Scanner.{Event, Scanner, new, finish, set_excluded_schemas}
use rust_streamer_pgdb.Scan.Scanner.Feed.{feed}
use rust_streamer_pgdb.Pipeline.Reader.{Surroundings, on_events, report_progress}
use rust_streamer_pgdb.Pipeline.State.{Reader, new_reader}
use rust_streamer_pgdb.Pipeline.Commit.{Outcome, commit_phase}
use rust_streamer_pgdb.Pipeline.Report.{LoadReport, missing_tables, unexpected_tables}
use rust_streamer_pgdb.Prelude.{◌∷◌, [], none, if◌then◌else◌, some, Bytes, ℕ, Memchr, List, Option}
use rust_streamer_pgdb.Error.{◌>>=◌, missing_dump_version, err, ok, Error, Result}
use rust_streamer_pgdb.Types.Name.{Lowercase}
use rust_streamer_pgdb.Sink.Paths.{CharClass}
use rust_streamer_pgdb.Pipeline.Config.{LoadConfig}
use rust_streamer_pgdb.Sink.Drift.{KernelType}

-- What the reader thread is given.
pub record Source : Type 0 where
  pub chunks : List (Bytes × ℕ)
  pub failure : Option Error
  pub compression : Bytes
  pub consumed : ℕ

-- What ends a load: the order in which commits end, what an error displays, and the record of the load.
pub record Ending : Type 0 where
  pub arrive : List Outcome → List Outcome
  pub display : Error → Bytes
  pub append : LoadReport → Result Bytes

abbrev pub excluding : Option (List Bytes) → Scanner → Scanner
excluding none s = s
excluding (some schemas) s = set_excluded_schemas s schemas

abbrev pub no_failure : Option Error → Result (Unit {0})
no_failure none = ok tt
no_failure (some e) = err e

abbrev pub version_or_error : Option ℕ → Result ℕ
version_or_error none = err missing_dump_version
version_or_error (some major) = ok major

abbrev pub with_record : (LoadReport → Result Bytes) → LoadConfig → LoadReport → Result LoadReport
with_record append config report =
    if config.write_manifest
    then (append report >>= λ load_id. ok (record report { load_id = some load_id }))
    else ok report

module _ {T K A : Type 0} ⦃m : Memchr⦄ ⦃l : Lowercase⦄ ⦃c : CharClass⦄ ⦃k : KernelType K⦄
    (env : Surroundings T K A) (config : LoadConfig) where
  -- What is done with the events of a chunk, and then `progress`.
  abbrev pub handle_events : Reader T A → ℕ → Scanner × List Event → Result (Scanner × Reader T A)
  handle_events r bytes_read fed = on_events env config r bytes_read fed.1 >>= λ handled.
      report_progress env config handled bytes_read none >>= λ reported. ok (fed.0, reported)

  -- The body of `while let Some(chunk)`
  abbrev pub read_chunk : Scanner → Reader T A → Bytes → ℕ → Result (Scanner × Reader T A)
  read_chunk s r chunk bytes_read = feed s chunk >>= handle_events r bytes_read

  unfoldable pub read_chunks :
      Scanner → Reader T A → List (Bytes × ℕ) → Result (Scanner × Reader T A)
  read_chunks s r [] = ok (s, r)
  read_chunks s r ((chunk, bytes_read) ∷ chunks) =
      read_chunk s r chunk bytes_read >>= λ x. read_chunks x.0 x.1 chunks

  unfoldable pub drive : Source → Ending → Result LoadReport
  drive source ending =
      read_chunks (excluding config.excluded_schemas new) new_reader source.chunks >>= λ x.
      no_failure source.failure >>= λ _. finish x.0 >>= λ _.
      version_or_error x.1.dumped_by >>= λ major.
      commit_phase env.delta ending.display ending.arrive config.mode x.1.staged x.1.open_tables
        x.1.tables
      >>= λ tables. with_record ending.append config (record {
        dumped_by = major;
        from_database = x.1.from_database;
        compression = source.compression;
        bytes_read = source.consumed;
        total_rows = x.1.total_rows;
        tables = tables;
        missing_tables = missing_tables config x.1.seen_tables;
        unexpected_tables = unexpected_tables config x.1.seen_tables;
        load_id = none;
      })
