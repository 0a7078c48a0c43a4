-- ===== src/Manifest/Tests.antt =====
-- src/manifest.rs: the columns of the load history at concrete input.
use rust_streamer_pgdb.Manifest.{schema, columns_for, padded_to, number, without_zeros}
use rust_streamer_pgdb.Manifest.Conforms.{columns_for-Conforms, Conforms}
use rust_streamer_pgdb.Manifest.Told.{told, named}
use rust_streamer_pgdb.Pipeline.Report.{LoadReport}
use rust_streamer_pgdb.Pipeline.State.{TableStats}
use rust_streamer_pgdb.Sink.Drift.{no_drift}
use rust_streamer_pgdb.Prelude.{[], ◌∷◌, refl, ◌≡◌, none, codes}

twenty_digits : padded_to 20 1700 ≡ codes "00000000000000001700"
unfolding padded_to
twenty_digits = refl

shortest : number 1700 ≡ codes "1700"
unfolding padded_to without_zeros
shortest = refl

abbrev stats_t : TableStats
stats_t = record {
  table = codes "t";
  schema_drift = no_drift;
  rows = 3;
  batches = 1;
  delta_version = 7;
  null_substitutions = (codes "a", 2) ∷ [];
  text_fallback_columns = [];
}

-- A load of one table that was expected, while another did not arrive.
abbrev one_missing : LoadReport
one_missing = record {
  dumped_by = 17;
  from_database = none;
  compression = codes "none";
  bytes_read = 90;
  total_rows = 3;
  tables = stats_t ∷ [];
  missing_tables = codes "u" ∷ [];
  unexpected_tables = [];
  load_id = none;
}

columns_for-Conforms_example :
    Conforms 2 schema (columns_for one_missing (codes "1") 1)
    × (named schema (columns_for one_missing (codes "1") 1) ≡ told one_missing (codes "1") 1)
columns_for-Conforms_example = columns_for-Conforms one_missing (codes "1") 1
