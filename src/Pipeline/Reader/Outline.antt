-- ===== src/Pipeline/Reader/Outline.antt =====
-- An outline of the reader of src/pipeline.rs: a machine without errors, types or storage that only
-- opens a block, numbers it, spreads its rows over the workers and closes it.
use rust_streamer_pgdb.Pipeline.Pool.{Job, open_block, rows, close_block, Sent}
use rust_streamer_pgdb.Pipeline.State.{Reader, OpenBlock, TableStats}
use rust_streamer_pgdb.Pipeline.Config.{LoadConfig, wanted}
use rust_streamer_pgdb.Scan.Scanner.{Event}
use rust_streamer_pgdb.Scan.Names.{TableName, qualified}
use rust_streamer_pgdb.Prelude.{
  false, ◌%◌, zero, true, none, ◌++◌, suc, ◌+◌, if◌then◌else◌, some, Bytes, Bool, [], ◌∷◌, List,
  Option, ℕ,
}

-- A job without what the storage and the types add to it.
pub data Kind : Type 0 where
  opens : ℕ → Kind
  carries : ℕ → Bytes → Kind
  closes : ℕ → Kind

abbrev pub kind_of : Job → Kind
kind_of (open_block ctx) = opens ctx.generation
kind_of (rows generation bytes) = carries generation bytes
kind_of (close_block generation) = closes generation

unfoldable pub kinds : List Sent → List (ℕ × Kind)
kinds [] = []
kinds (s ∷ sent) = (s.0, kind_of s.1) ∷ kinds sent

pub record Outline : Type 0 where
  pub generation : ℕ
  pub opened : Option (ℕ × TableName × Bytes)
  pub round_robin : ℕ
  pub skipping : Bool
  pub jobs : List (ℕ × Kind)
  pub done : List Bytes

abbrev pub numbered : Option OpenBlock → Option (ℕ × TableName × Bytes)
numbered none = none
numbered (some block) = some (block.generation, block.table, block.qualified)

unfoldable pub done_names : List TableStats → List Bytes
done_names [] = []
done_names (s ∷ stats) = s.table ∷ done_names stats

-- What the outline keeps of the reader.
abbrev pub outline : {T A : Type 0} → Reader T A → Outline
outline r = record {
  generation = r.generation;
  opened = numbered r.current;
  round_robin = r.round_robin;
  skipping = r.skipping;
  jobs = kinds r.sent;
  done = done_names r.tables;
}

-- The same kind of job for each worker, from one index on.
unfoldable pub each_from : ℕ → ℕ → Kind → List (ℕ × Kind)
each_from worker zero kind = []
each_from worker (suc left) kind = (worker, kind) ∷ each_from (suc worker) left kind

module _ (threads : ℕ) where
  abbrev pub opened_by : Outline → TableName → Outline
  opened_by o table = record o {
    generation = o.generation + 1;
    opened = some (o.generation + 1, table, qualified table);
    round_robin = 0;
    jobs = o.jobs ++ each_from 0 threads (opens (o.generation + 1));
  }

  abbrev pub carried : Outline → Bytes → Option (ℕ × TableName × Bytes) → Outline
  carried o payload none = o
  carried o payload (some (g, table, name)) = record o {
    round_robin = o.round_robin + 1;
    jobs = o.jobs ++ (o.round_robin % threads, carries g payload) ∷ [];
  }

  abbrev pub closed_by : Outline → Option (ℕ × TableName × Bytes) → Outline
  closed_by o none = o
  closed_by o (some (g, table, name)) = record o {
    opened = none;
    jobs = o.jobs ++ each_from 0 threads (closes g);
    done = o.done ++ name ∷ [];
  }

  unfoldable pub outline_event : LoadConfig → Outline → Event → Outline
  outline_event config o (Event.dump_version by from) = o
  outline_event config o (Event.table def) = o
  outline_event config o (Event.copy_start table columns) =
      if wanted config table then opened_by o table else record o { skipping = true }
  outline_event config o (Event.copy_rows payload) =
      if o.skipping then o else carried o payload o.opened
  outline_event config o (Event.copy_end table) =
      if o.skipping then record o { skipping = false } else closed_by o o.opened

  unfoldable pub outline_events : LoadConfig → Outline → List Event → Outline
  outline_events config o [] = o
  outline_events config o (e ∷ es) = outline_events config (outline_event config o e) es
