-- ===== src/Pipeline/Commit.antt =====
-- src/pipeline.rs: phase two of `drive`, which commits every table. The outcomes come back in an
-- order of their own, which is the argument `arrive`; how many commits run at once is left out. What
-- an error displays is the argument `display`, which the crate derives.
pub mod Counts
use rust_streamer_pgdb.Pipeline.State.{remove_key, get_key, or_empty, CommitTarget, TableStats}
use rust_streamer_pgdb.Prelude.{
  length, bytes_eq, if◌then◌else◌, none, ◌+◌, [], some, ◌∷◌, ℕ, Bytes, Option, List,
}
use rust_streamer_pgdb.Error.{commit_failed, err, ok, Result, Error}
use rust_streamer_pgdb.Sink.Opening.{commit_table, WriteMode, Delta}
use rust_streamer_pgdb.Sink.Drift.{is_unchanged}

-- An outcome, with the name of its table.
abbrev pub Outcome : Type 0
Outcome = Bytes × Result ℕ

-- `staged.remove(&target.qualified).unwrap_or_default()`
unfoldable pub take_actions :
    {T A : Type 0} → List (Bytes × List A) → List (CommitTarget T A) → List (CommitTarget T A)
take_actions staged [] = []
take_actions staged (target ∷ targets) =
    record target { actions = or_empty (get_key target.qualified staged) }
    ∷ take_actions (remove_key target.qualified staged) targets

-- `tables.iter_mut().find(|t| t.table == name)`, with the version set.
unfoldable pub set_version : Bytes → ℕ → List TableStats → List TableStats
set_version name version [] = []
set_version name version (s ∷ stats) =
    if bytes_eq s.table name
    then record s { delta_version = version } ∷ stats
    else s ∷ set_version name version stats

pub record Committed : Type 0 where
  pub committed : ℕ
  pub failure : Option (Bytes × Error)
  pub tables : List TableStats

abbrev pub first_failure : Option (Bytes × Error) → Bytes × Error → Option (Bytes × Error)
first_failure none f = some f
first_failure (some f) g = some f

abbrev pub count_outcome : Committed → Outcome → Committed
count_outcome c (name, ok version) = record c {
  committed = c.committed + 1;
  tables = set_version name version c.tables;
}
count_outcome c (name, err e) = record c { failure = first_failure c.failure (name, e) }

-- `for (name, outcome) in outcomes`
unfoldable pub count_outcomes : Committed → List Outcome → Committed
count_outcomes c [] = c
count_outcomes c (o ∷ outcomes) = count_outcomes (count_outcome c o) outcomes

abbrev pub all_or_failed :
    (Error → Bytes) → ℕ → Committed → Option (Bytes × Error) → Result (List TableStats)
all_or_failed display total c none = ok c.tables
all_or_failed display total c (some (table, e)) =
    err (commit_failed table c.committed total (display e))

module _ {T K A : Type 0} (d : Delta T K A) where
  abbrev pub commit_target : WriteMode → CommitTarget T A → Outcome
  commit_target mode target = (
    target.qualified,
    commit_table d target.table target.actions mode
        (if is_unchanged target.drift then none else some target.schema),
  )

  unfoldable pub commit_targets : WriteMode → List (CommitTarget T A) → List Outcome
  commit_targets mode [] = []
  commit_targets mode (target ∷ targets) = commit_target mode target ∷ commit_targets mode targets

  unfoldable pub commit_phase :
      (Error → Bytes)
      → (List Outcome → List Outcome)
      → WriteMode
      → List (Bytes × List A)
      → List (CommitTarget T A)
      → List TableStats
      → Result (List TableStats)
  commit_phase display arrive mode staged open_tables tables =
      let outcomes = arrive (commit_targets mode (take_actions staged open_tables)) in
      let c = count_outcomes (record { committed = 0; failure = none; tables = tables }) outcomes in
      all_or_failed display (length open_tables) c c.failure
