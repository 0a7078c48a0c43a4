-- ===== src/Pipeline/Report.antt =====
-- src/pipeline.rs: the report of a load, and its comparison of the tables that were expected with those
-- that the dump had.
pub mod Expected
use rust_streamer_pgdb.Pipeline.Config.{LoadConfig, is_listed}
use rust_streamer_pgdb.Pipeline.State.{TableStats, bytes_less}
use rust_streamer_pgdb.Prelude.{
  bytes_eq, if◌then◌else◌, none, some, [], ◌∷◌, Option, Bytes, ℕ, List,
}

pub record LoadReport : Type 0 where
  pub dumped_by : ℕ
  pub from_database : Option ℕ
  pub compression : Bytes
  pub bytes_read : ℕ
  pub total_rows : ℕ
  pub tables : List TableStats
  pub missing_tables : List Bytes
  pub unexpected_tables : List Bytes
  pub load_id : Option Bytes

-- `names.iter().filter(|name| !listed.contains(*name))`
unfoldable pub not_listed : List Bytes → List Bytes → List Bytes
not_listed listed [] = []
not_listed listed (name ∷ names) =
    let rest = not_listed listed names in if is_listed listed name then rest else name ∷ rest

-- `absent.sort()`
unfoldable pub insert_sorted : Bytes → List Bytes → List Bytes
insert_sorted name [] = name ∷ []
insert_sorted name (n ∷ names) =
    if bytes_less n name then n ∷ insert_sorted name names else name ∷ n ∷ names

unfoldable pub sort_names : List Bytes → List Bytes
sort_names [] = []
sort_names (name ∷ names) = insert_sorted name (sort_names names)

-- `absent.dedup()`, behind the name that was kept last.
unfoldable pub dedup_after : Bytes → List Bytes → List Bytes
dedup_after kept [] = []
dedup_after kept (name ∷ names) =
    if bytes_eq kept name then dedup_after kept names else name ∷ dedup_after name names

abbrev pub dedup_names : List Bytes → List Bytes
dedup_names [] = []
dedup_names (name ∷ names) = name ∷ dedup_after name names

-- `expect_tables.as_ref().or(tables.as_ref())`
abbrev pub expectation : Option (List Bytes) → Option (List Bytes) → Option (List Bytes)
expectation none tables = tables
expectation (some names) tables = some names

abbrev pub absent_from : List Bytes → Option (List Bytes) → List Bytes
absent_from seen none = []
absent_from seen (some names) = dedup_names (sort_names (not_listed seen names))

unfoldable pub missing_tables : LoadConfig → List Bytes → List Bytes
missing_tables config seen = absent_from seen (expectation config.expect_tables config.tables)

abbrev pub unlisted_in : List Bytes → Option (List Bytes) → List Bytes
unlisted_in seen none = []
unlisted_in seen (some names) = not_listed names seen

unfoldable pub unexpected_tables : LoadConfig → List Bytes → List Bytes
unexpected_tables config seen = unlisted_in seen config.expect_tables
