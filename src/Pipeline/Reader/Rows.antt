-- ===== src/Pipeline/Reader/Rows.antt =====
-- src/pipeline.rs: the rows the workers are sent and the tables that are finished.
use rust_streamer_pgdb.Error.Ends.{Ends, Ends-map, Anything}
use rust_streamer_pgdb.Pipeline.Reader.{Surroundings, qualified, on_events}
use rust_streamer_pgdb.Pipeline.State.{Reader, new_reader}
use rust_streamer_pgdb.Pipeline.Reader.Outline.{
  Outline, outline, outline_event, outline_events, kinds, each_from, Kind, opens, carries, closes,
  done_names,
}
use rust_streamer_pgdb.Scan.Scanner.{Event}
use rust_streamer_pgdb.Scan.Scanner.Blocks.{Allowed, open_behind, Follows}
use rust_streamer_pgdb.Pipeline.Config.{wanted, LoadConfig}
use rust_streamer_pgdb.Prelude.{
  append_assoc, subst, inr, true, ◌+◌, ◌%◌, inl, false, Bool-cases, zero, append-nil, refl, none,
  if◌then◌else◌, ap, sym, ◌∙◌, suc, some, ◌∷◌, Bool, [], Option, ◌++◌, Bytes, ◌≡◌, List, ℕ,
}
use rust_streamer_pgdb.Scan.Names.{TableName}
use rust_streamer_pgdb.Types.Name.{Lowercase}
use rust_streamer_pgdb.Sink.Paths.{CharClass}
use rust_streamer_pgdb.Sink.Drift.{KernelType}
use rust_streamer_pgdb.Pipeline.Reader.Refines.{on_events-outline}

-- The rows that jobs carry, in the order they are sent.
unfoldable pub payloads : List (ℕ × Kind) → List Bytes
payloads [] = []
payloads ((w, carries g bytes) ∷ jobs) = bytes ∷ payloads jobs
payloads ((w, opens g) ∷ jobs) = payloads jobs
payloads ((w, closes g) ∷ jobs) = payloads jobs

payloads-append : (xs ys : List (ℕ × Kind)) → payloads (xs ++ ys) ≡ payloads xs ++ payloads ys
unfolding payloads
payloads-append [] ys = refl
payloads-append ((w, carries g bytes) ∷ xs) ys = ap (λ ps. bytes ∷ ps) (payloads-append xs ys)
payloads-append ((w, opens g) ∷ xs) ys = payloads-append xs ys
payloads-append ((w, closes g) ∷ xs) ys = payloads-append xs ys

-- A job without rows, or for every worker.
abbrev Rowless : Kind → Type 0
Rowless (carries g bytes) = ⊥
Rowless _ = Unit

payloads-each :
    (worker left : ℕ) (kind : Kind) → Rowless kind → payloads (each_from worker left kind) ≡ []
unfolding payloads each_from
payloads-each worker zero kind h = refl
payloads-each worker (suc left) (carries g bytes) h = absurd h
payloads-each worker (suc left) (opens g) h = payloads-each (suc worker) left (opens g) h
payloads-each worker (suc left) (closes g) h = payloads-each (suc worker) left (closes g) h

payloads-with_each :
    (jobs : List (ℕ × Kind)) (threads : ℕ) (kind : Kind)
    → Rowless kind
    → payloads (jobs ++ each_from 0 threads kind) ≡ payloads jobs ++ []
payloads-with_each jobs threads kind h =
    payloads-append jobs (each_from 0 threads kind)
    ∙ ap (λ ps. payloads jobs ++ ps) (payloads-each 0 threads kind h)

module _ (config : LoadConfig) where
  -- The rows of an event, if they stand in the block of a table that is wanted.
  abbrev pub loaded_row : Option TableName → Event → List Bytes
  loaded_row (some name) (Event.copy_rows payload) = if wanted config name then payload ∷ [] else []
  loaded_row _ _ = []

  -- The name of the wanted table whose block an event ends.
  abbrev pub loaded_table : Option TableName → Event → List Bytes
  loaded_table (some name) (Event.copy_end closed) =
      if wanted config name then qualified name ∷ [] else []
  loaded_table _ _ = []

  unfoldable pub loaded_rows : Option TableName → List Event → List Bytes
  loaded_rows p [] = []
  loaded_rows p (e ∷ es) = loaded_row p e ++ loaded_rows (open_behind p e) es

  unfoldable pub loaded_tables : Option TableName → List Event → List Bytes
  loaded_tables p [] = []
  loaded_tables p (e ∷ es) = loaded_table p e ++ loaded_tables (open_behind p e) es

  -- What is open or skipped, against the block that the scanner has open.
  abbrev pub Tracks : Option TableName → Bool → Option (ℕ × TableName × Bytes) → Type 0
  Tracks none false none = Unit
  Tracks (some name) true none = wanted config name ≡ false
  Tracks (some name) false (some (h, table, q)) = (wanted config name ≡ true) × (q ≡ qualified name)
  Tracks _ _ _ = ⊥

  -- An outline that tracks the block, with these rows and tables behind it.
  abbrev pub Loads : Option TableName → List Bytes → List Bytes → Outline → Type 0
  Loads p rows tables o =
      Tracks p o.skipping o.opened × (payloads o.jobs ≡ rows) × (o.done ≡ tables)

  module _ (threads : ℕ) where
    open_step :
        (g rr : ℕ) (busy : Option (ℕ × TableName × Bytes)) (skip : Bool) (jobs : List (ℕ × Kind))
        (done : List Bytes) (table : TableName) (columns : List Bytes)
        → Tracks none skip busy
        → Loads (some table) (payloads jobs ++ []) (done ++ []) (
            outline_event threads config
              (record {
                generation = g;
                opened = busy;
                round_robin = rr;
                skipping = skip;
                jobs = jobs;
                done = done;
              })
              (Event.copy_start table columns))
    unfolding outline_event
    open_step g rr (some b) true jobs done table columns h = absurd h
    open_step g rr (some b) false jobs done table columns h = absurd h
    open_step g rr none true jobs done table columns h = absurd h
    open_step g rr none false jobs done table columns h = elim (Bool-cases (wanted config table)) [
      | inl w ↦
          rw w
            ((w, refl), payloads-with_each jobs threads (opens (g + 1)) tt, sym (append-nil done))
      | inr w ↦ rw w (w, sym (append-nil (payloads jobs)), sym (append-nil done))
    ]

    row_step :
        (g rr : ℕ) (name : TableName) (busy : Option (ℕ × TableName × Bytes)) (skip : Bool)
        (jobs : List (ℕ × Kind)) (done : List Bytes) (payload : Bytes)
        → Tracks (some name) skip busy
        → Loads
            (some name)
            (payloads jobs ++ loaded_row (some name) (Event.copy_rows payload))
            (done ++ [])
            (outline_event threads config
              (record {
                generation = g;
                opened = busy;
                round_robin = rr;
                skipping = skip;
                jobs = jobs;
                done = done;
              })
              (Event.copy_rows payload))
    unfolding outline_event payloads
    row_step g rr name (some (h, t, q)) true jobs done payload l = absurd l
    row_step g rr name none false jobs done payload l = absurd l
    row_step g rr name none true jobs done payload l =
        (l, rw l (sym (append-nil (payloads jobs))), sym (append-nil done))
    row_step g rr name (some (h, t, q)) false jobs done payload l = (
      l,
      rw (l.0) (payloads-append jobs ((rr % threads, carries h payload) ∷ [])),
      sym (append-nil done),
    )

    close_step :
        (g rr : ℕ) (name : TableName) (busy : Option (ℕ × TableName × Bytes)) (skip : Bool)
        (jobs : List (ℕ × Kind)) (done : List Bytes) (table : TableName)
        → Tracks (some name) skip busy
        → Loads none
            (payloads jobs ++ [])
            (done ++ loaded_table (some name) (Event.copy_end table))
            (outline_event threads config
              (record {
                generation = g;
                opened = busy;
                round_robin = rr;
                skipping = skip;
                jobs = jobs;
                done = done;
              })
              (Event.copy_end table))
    unfolding outline_event
    close_step g rr name (some (h, t, q)) true jobs done table l = absurd l
    close_step g rr name none false jobs done table l = absurd l
    close_step g rr name none true jobs done table l =
        (tt, sym (append-nil (payloads jobs)), rw l (sym (append-nil done)))
    close_step g rr name (some (h, t, q)) false jobs done table l =
        (tt, payloads-with_each jobs threads (closes h) tt, rw (l.0, l.1) refl)

    event_step :
        (p : Option TableName) (o : Outline) (e : Event)
        → Allowed p e
        → Tracks p o.skipping o.opened
        → Loads
            (open_behind p e)
            (payloads o.jobs ++ loaded_row p e)
            (o.done ++ loaded_table p e)
            (outline_event threads config o e)
    unfolding outline_event
    event_step none o (Event.dump_version by from) h t =
        (t, sym (append-nil (payloads o.jobs)), sym (append-nil o.done))
    event_step (some name) o (Event.dump_version by from) h t = absurd h
    event_step none o (Event.table def) h t =
        (t, sym (append-nil (payloads o.jobs)), sym (append-nil o.done))
    event_step (some name) o (Event.table def) h t = absurd h
    event_step none o (Event.copy_start table columns) h t =
        open_step o.generation o.round_robin o.opened o.skipping o.jobs o.done table columns t
    event_step (some name) o (Event.copy_start table columns) h t = absurd h
    event_step none o (Event.copy_rows payload) h t = absurd h
    event_step (some name) o (Event.copy_rows payload) h t =
        row_step o.generation o.round_robin name o.opened o.skipping o.jobs o.done payload t
    event_step none o (Event.copy_end table) h t = absurd h
    event_step (some name) o (Event.copy_end table) h t =
        close_step o.generation o.round_robin name o.opened o.skipping o.jobs o.done table t

    pub events_step :
        (p q : Option TableName) (o : Outline) (es : List Event)
        → Follows p es q
        → Tracks p o.skipping o.opened
        → Loads q
            (payloads o.jobs ++ loaded_rows p es)
            (o.done ++ loaded_tables p es)
            (outline_events threads config o es)
    unfolding outline_events loaded_rows loaded_tables
    events_step p q o [] h t = (
      subst (λ p. Tracks p o.skipping o.opened) h t,
      sym (append-nil (payloads o.jobs)),
      sym (append-nil o.done),
    )
    events_step p q o (e ∷ es) h t =
        let step : Loads (open_behind p e) (payloads o.jobs ++ loaded_row p e)
            (o.done ++ loaded_table p e) (outline_event threads config o e) =
          event_step p o e h.0 t in
        let rest : Loads q
            (payloads (outline_event threads config o e).jobs ++ loaded_rows (open_behind p e) es)
            ((outline_event threads config o e).done ++ loaded_tables (open_behind p e) es)
            (outline_events threads config (outline_event threads config o e) es) =
          events_step (open_behind p e) q (outline_event threads config o e) es h.1 step.0 in
        (
          rest.0,
          rest.1
              ∙ ap (λ ps. ps ++ loaded_rows (open_behind p e) es) step.1
              ∙ append_assoc (payloads o.jobs) (loaded_row p e) (loaded_rows (open_behind p e) es),
          rest.2
              ∙ ap (λ ds. ds ++ loaded_tables (open_behind p e) es) step.2
              ∙ append_assoc o.done (loaded_table p e) (loaded_tables (open_behind p e) es),
        )

module _ {T K A : Type 0} ⦃l : Lowercase⦄ ⦃c : CharClass⦄ ⦃k : KernelType K⦄
    (env : Surroundings T K A) (config : LoadConfig) where
  -- A reader whose outline is that of the events.
  pub outline_events-loaded :
      (r : Reader T A) (es : List Event) (q : Option TableName)
      → Follows none es q
      → outline r ≡ outline_events env.threads config (outline (new_reader {T = T} {A = A})) es
      → (payloads (kinds r.sent) ≡ loaded_rows config none es)
        × (done_names r.tables ≡ loaded_tables config none es)
  unfolding kinds payloads done_names
  outline_events-loaded r es q h g =
      let loads : Loads config q (loaded_rows config none es) (loaded_tables config none es)
          (outline r) =
        subst (Loads config q (loaded_rows config none es) (loaded_tables config none es)) (sym g)
          (events_step config env.threads none q (outline (new_reader {T = T} {A = A})) es h tt) in
      (loads.1, loads.2)

  -- Behind events whose blocks are in order, the workers were sent the rows of the wanted tables and
  -- no others, in the order of the dump, and the finished tables are the wanted ones whose blocks
  -- ended.
  pub on_events-loaded :
      (bytes_read : ℕ) (es : List Event) (q : Option TableName)
      → Follows none es q
      → Ends Anything
          (λ r.
            (payloads (kinds r.sent) ≡ loaded_rows config none es)
            × (done_names r.tables ≡ loaded_tables config none es))
          (on_events env config new_reader bytes_read es)
  on_events-loaded bytes_read es q h =
      Ends-map Anything _ _ (on_events env config new_reader bytes_read es)
        (on_events-outline env config new_reader bytes_read es) λ r. outline_events-loaded r es q h
