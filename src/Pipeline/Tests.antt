-- ===== src/Pipeline/Tests.antt =====
-- src/pipeline.rs: the theorems on the reader, its commits and its report at concrete input.
use mathlib.Core.List.Permᴰ
use rust_streamer_pgdb.Error.Ends.{Ends, Anything, IsExternal}
use rust_streamer_pgdb.Pipeline.Config.{
  resolve_copy_columns, find_column, reserved_collision, wanted, is_listed, LoadConfig,
  default_config,
}
use rust_streamer_pgdb.Pipeline.Pool.{Pool, closed}
use rust_streamer_pgdb.Pipeline.Reader.{Surroundings, on_events}
use rust_streamer_pgdb.Pipeline.State.{get_key, Reader, new_reader, CommitTarget}
use rust_streamer_pgdb.Pipeline.Reader.Outline.{
  numbered, outline, outline_events, kinds, done_names,
}
use rust_streamer_pgdb.Pipeline.Reader.Refines.{on_events-outline}
use rust_streamer_pgdb.Pipeline.Reader.Protocol.{on_events-Serves, is_open, Linked}
use rust_streamer_pgdb.Pipeline.Reader.Jobs.{Serves, jobs_of}
use rust_streamer_pgdb.Pipeline.Reader.Rows.{on_events-loaded, payloads, loaded_rows, loaded_tables}
use rust_streamer_pgdb.Pipeline.Reader.Succeeds.{on_events-IsIdle, IsIdle, rows_of}
use rust_streamer_pgdb.Pipeline.Reader.Works.{Works, Never}
use rust_streamer_pgdb.Pipeline.Reader.Structure.{on_events-IsExternal}
use rust_streamer_pgdb.Pipeline.Reader.Causes.{NoInternal}
use rust_streamer_pgdb.Pipeline.Commit.{Outcome, commit_phase, commit_targets, take_actions}
use rust_streamer_pgdb.Pipeline.Commit.Counts.{commit_phase-Reports, Reports}
use rust_streamer_pgdb.Pipeline.Drive.{Source, Ending, drive}
use rust_streamer_pgdb.Pipeline.Drive.Bracketed.{drive-LoadedWhole, LoadedWhole}
use rust_streamer_pgdb.Pipeline.Drive.Seen.{Compared, drive-Compared}
use rust_streamer_pgdb.Scan.Names.{qualified}
use rust_streamer_pgdb.Scan.Scanner.{Event}
use rust_streamer_pgdb.Sink.Paths.{table_uri, relative_path, total_length}
use rust_streamer_pgdb.Dump.Compression.{starts_with}
use rust_streamer_pgdb.Prelude.Ascii.{ends_with}
use rust_streamer_pgdb.Prelude.Text.{chars}
use rust_streamer_pgdb.Scan.Scanner.Blocks.{Follows}
use rust_streamer_pgdb.Sink.Drift.{KernelType, no_drift}
use rust_streamer_pgdb.Sink.Opening.{Delta, WriteMode}
use rust_streamer_pgdb.Prelude.{
  ◌||◌, false, map, Bool, ◌<◌, some, ◌∷◌, bytes_eq, arith, refl, linear_search, ◌≡◌, none, List,
  true, Memchr, codes, Bytes, ℕ, [],
}
use rust_streamer_pgdb.Sink.Paths.{CharClass}
use rust_streamer_pgdb.Error.{ok, Error}
use rust_streamer_pgdb.Scan.Names.{TableName}
use rust_streamer_pgdb.Prelude.Ascii.{in_range, to_ascii_lowercase}
use rust_streamer_pgdb.Types.Name.{Lowercase}
use rust_streamer_pgdb.Scan.Ddl.{TableDef}

instance abbrev search_bytes : Memchr
search_bytes = linear_search

instance abbrev ascii_lowercase : Lowercase
unfolding to_ascii_lowercase
ascii_lowercase = record { to_lowercase = map to_ascii_lowercase; lowercase_ascii = λ c h. refl }

abbrev ascii_alphanumeric : Bytes → Bool
ascii_alphanumeric (c ∷ []) = in_range b'0' b'9' c || in_range b'A' b'Z' c || in_range b'a' b'z' c
ascii_alphanumeric _ = false

instance abbrev ascii_classes : CharClass
ascii_classes = record {
  is_alphanumeric = ascii_alphanumeric;
  is_control = λ c. bytes_eq c (codes "\n");
  alphanumeric_ascii = λ c h. refl;
}

instance abbrev one_type : KernelType (Unit {0})
one_type = record {
  same = λ a b. true;
  show = λ a. codes "integer";
  same_sound = λ a b h. refl;
  same_refl = λ a. refl;
}

-- A storage without tables, whose commits give version 7.
abbrev empty_storage : Delta (Unit {0}) (Unit {0}) ℕ
empty_storage = record {
  load_table = λ uri. ok (tt, none);
  try_into_kernel = λ schema. ok [];
  create = λ table fields. ok tt;
  current_files = λ table. ok [];
  updated_metadata = λ table fields. ok none;
  commit_actions = λ table mode actions. ok 7;
}

-- Workers that take every job and stage a file each.
abbrev busy_workers : Pool ℕ
busy_workers = record {
  takes = λ sent worker job. true;
  event = λ sent n. some (
      closed (record {
        generation = 1;
        rows = n;
        batches = 1;
        substitutions = 0 ∷ [];
        staged = n ∷ [];
      }));
}

abbrev two_workers : Surroundings (Unit {0}) (Unit {0}) ℕ
two_workers = record {
  delta = empty_storage;
  pool = busy_workers;
  threads = 2;
  threads_positive = omega arith;
  progress = λ n p. true;
}

abbrev config : LoadConfig
config = record default_config {
  output_uri = codes "/out";
  tables = some (codes "t" ∷ codes "u" ∷ []);
}

abbrev name_t : TableName
name_t = record { schema = none; table = codes "t" }

abbrev name_v : TableName
name_v = record { schema = none; table = codes "v" }

-- A table that is wanted, and one that is not.
abbrev two_blocks : List Event
two_blocks =
    Event.dump_version 17 none
    ∷ Event.table (record {
      name = name_t;
      columns = record { name = codes "a"; sql_type = codes "integer" } ∷ [];
    })
    ∷ Event.copy_start name_t (codes "a" ∷ [])
    ∷ Event.copy_rows (codes "1\n2\n")
    ∷ Event.copy_rows (codes "3\n")
    ∷ Event.copy_end name_t
    ∷ Event.copy_start name_v (codes "a" ∷ [])
    ∷ Event.copy_rows (codes "4\n")
    ∷ Event.copy_end name_v
    ∷ []

two_blocks-Follows : Follows none two_blocks none
two_blocks-Follows = (tt, (tt, (tt, (tt, (tt, (refl, (tt, (tt, (refl, refl)))))))))

abbrev first : Reader (Unit {0}) ℕ
first = new_reader

on_events-outline_example :
    Ends Anything
      (λ s. outline s ≡ outline_events 2 config (outline first) two_blocks)
      (on_events two_workers config first 40 two_blocks)
on_events-outline_example = on_events-outline two_workers config first 40 two_blocks

on_events-Serves_example :
    Ends Anything
      (λ r.
        (w : ℕ)
        → w < 2
        → Serves (0, false) (jobs_of w (kinds r.sent)) (r.generation, is_open r.current))
      (on_events two_workers config first 40 two_blocks)
on_events-Serves_example = on_events-Serves two_workers config 40 two_blocks none two_blocks-Follows

on_events-loaded_example :
    Ends Anything
      (λ r.
        (payloads (kinds r.sent) ≡ codes "1\n2\n" ∷ codes "3\n" ∷ [])
        × (done_names r.tables ≡ codes "t" ∷ []))
      (on_events two_workers config first 40 two_blocks)
unfolding loaded_rows loaded_tables wanted is_listed bytes_eq qualified
on_events-loaded_example = on_events-loaded two_workers config 40 two_blocks none two_blocks-Follows

nothing_internal : NoInternal two_workers
nothing_internal = record {
  load_quiet = λ uri. tt;
  kernel_quiet = λ schema. tt;
  create_quiet = λ table fields. tt;
  files_quiet = λ table. tt;
  event_quiet = λ sent n. tt;
}

on_events-IsExternal_example :
    Ends IsExternal
      (λ r. Linked none r.skipping (numbered r.current) r.generation)
      (on_events two_workers config first 40 two_blocks)
on_events-IsExternal_example =
    on_events-IsExternal two_workers config nothing_internal 40 two_blocks none two_blocks-Follows

-- Commits that come back in the order they were given.
abbrev in_turn : List Outcome → List Outcome
in_turn os = os

abbrev shown : Error → Bytes
shown e = codes "failed"

abbrev target_t : CommitTarget (Unit {0}) ℕ
target_t = record { qualified = codes "t"; table = tt; schema = []; drift = no_drift; actions = [] }

commit_phase-Reports_example :
    Reports shown
      (commit_targets empty_storage WriteMode.overwrite (take_actions [] (target_t ∷ [])))
      []
      (commit_phase empty_storage shown in_turn WriteMode.overwrite [] (target_t ∷ []) [])
unfolding done_names
commit_phase-Reports_example =
    commit_phase-Reports empty_storage shown in_turn WriteMode.overwrite [] (target_t ∷ []) []
      (λ os. Permᴰ.refl os)

abbrev one_chunk : Source
one_chunk = record {
  chunks =
      (
        codes
            "-- Dumped by pg_dump version 17.0\nCREATE TABLE t (\n a integer\n);\nCOPY t (a) FROM stdin;\n1\n\\.\n",
        90,
      )
      ∷ [];
  failure = none;
  compression = codes "none";
  consumed = 90;
}

abbrev recorded : Ending
recorded = record { arrive = in_turn; display = shown; append = λ report. ok (codes "1") }

drive-Compared_example :
    Ends Anything
      (Compared config one_chunk (codes "u"))
      (drive two_workers config one_chunk recorded)
drive-Compared_example = drive-Compared two_workers config one_chunk recorded (codes "u")

drive-LoadedWhole_example :
    Ends Anything
      (λ report. LoadedWhole config one_chunk (done_names report.tables))
      (drive two_workers config one_chunk recorded)
drive-LoadedWhole_example =
    drive-LoadedWhole two_workers config one_chunk recorded (λ os. Permᴰ.refl os)

abbrev columns_a : TableDef
columns_a = record {
  name = name_t;
  columns = record { name = codes "a"; sql_type = codes "integer" } ∷ [];
}

-- A reader that has seen the definition of the table.
abbrev defined : Reader (Unit {0}) ℕ
defined = record first { table_defs = (codes "t", columns_a) ∷ [] }

nothing_fails : Works two_workers
nothing_fails = record {
  loads = λ uri. tt;
  converts = λ schema. tt;
  creates = λ table fields. tt;
  takes = λ sent worker job. refl;
  closes = λ sent n. tt;
  goes_on = λ n p. refl;
}

on_events-IsIdle_example : Ends Never (IsIdle (codes "t" ∷ [])) (
    on_events two_workers config defined 40
      (Event.copy_start name_t (codes "a" ∷ []) ∷ rows_of name_t (codes "1\n" ∷ [])))
unfolding done_names wanted is_listed bytes_eq qualified reserved_collision get_key
    resolve_copy_columns find_column table_uri relative_path total_length starts_with ends_with
    chars
on_events-IsIdle_example =
    on_events-IsIdle two_workers config nothing_fails defined 40 name_t (codes "a" ∷ [])
      (codes "1\n" ∷ []) refl refl refl refl refl (columns_a, refl, tt, tt)
