-- ===== src/Pipeline/Reader/Protocol.antt =====
-- src/pipeline.rs: the jobs that one worker is sent.
use rust_streamer_pgdb.Pipeline.Reader.Jobs.{
  jobs_of-append, Serves-append, Serves, Legal, jobs_of, jobs_of-each, behind,
}
use rust_streamer_pgdb.Error.Ends.{Ends, Ends-map, Anything}
use rust_streamer_pgdb.Pipeline.Reader.{Surroundings, on_events}
use rust_streamer_pgdb.Pipeline.State.{OpenBlock, new_reader}
use rust_streamer_pgdb.Pipeline.Reader.Outline.{
  numbered, Outline, outline, outline_event, outline_events, kinds, each_from, Kind, opens, carries,
  closes,
}
use rust_streamer_pgdb.Scan.Scanner.{Event}
use rust_streamer_pgdb.Scan.Scanner.Blocks.{Allowed, open_behind, Follows}
use rust_streamer_pgdb.Prelude.{
  ◌%◌, append-nil, inr, refl, inl, sym, none, Bool-cases, arith, ◌∷◌, subst, some, [], true, ◌++◌,
  ◌≡◌, Bytes, false, ◌+◌, List, Bool, ◌==◌, ◌<◌, Option, ℕ,
}
use rust_streamer_pgdb.Scan.Names.{TableName}
use rust_streamer_pgdb.Pipeline.Config.{wanted, LoadConfig}
use rust_streamer_pgdb.Types.Name.{Lowercase}
use rust_streamer_pgdb.Sink.Paths.{CharClass}
use rust_streamer_pgdb.Sink.Drift.{KernelType}
use rust_streamer_pgdb.Pipeline.Reader.Refines.{on_events-outline}

abbrev pub is_open : {B : Type 0} → Option B → Bool
is_open none = false
is_open (some b) = true

-- The block that the scanner has open, and what the outline has open or skips.
abbrev pub Linked : Option TableName → Bool → Option (ℕ × TableName × Bytes) → ℕ → Type 0
Linked none false none g = Unit
Linked (some name) true none g = Unit
Linked (some name) false (some (h, table, q)) g = (table ≡ name) × (h ≡ g)
Linked _ _ _ _ = ⊥

module _ (threads : ℕ) where
  -- Each worker is where the outline is.
  abbrev pub AllServe : List (ℕ × Kind) → ℕ → Bool → Type 0
  AllServe jobs g busy = (w : ℕ) → w < threads → Serves (0, false) (jobs_of w jobs) (g, busy)

  abbrev pub InStep : Option TableName → Outline → Type 0
  InStep name o =
      Linked name o.skipping o.opened o.generation × AllServe o.jobs o.generation (is_open o.opened)

  each-AllServe :
      (jobs : List (ℕ × Kind)) (s t : ℕ × Bool) (kind : Kind)
      → Legal s kind
      → behind s kind ≡ t
      → AllServe jobs s.0 s.1
      → AllServe (jobs ++ each_from 0 threads kind) t.0 t.1
  each-AllServe jobs s t kind legal e h w below =
      rw
        (
          jobs_of-append w jobs (each_from 0 threads kind),
          jobs_of-each w 0 threads kind (omega arith) (omega arith),
        )
        (Serves-append (0, false) s t (jobs_of w jobs) (kind ∷ []) (h w below) (legal, e))

  row-AllServe :
      (jobs : List (ℕ × Kind)) (worker g : ℕ) (bytes : Bytes)
      → AllServe jobs g true
      → AllServe (jobs ++ (worker, carries g bytes) ∷ []) g true
  unfolding jobs_of
  row-AllServe jobs worker g bytes h w below = elim (Bool-cases (worker == w)) [
    | inl same ↦
        rw (jobs_of-append w jobs ((worker, carries g bytes) ∷ []), same)
          (Serves-append (0, false) (g, true) (g, true) (jobs_of w jobs) (carries g bytes ∷ [])
            (h w below) (refl, refl))
    | inr other ↦
        rw
          (
            jobs_of-append w jobs ((worker, carries g bytes) ∷ []),
            other,
            append-nil (jobs_of w jobs),
          )
          (h w below)
  ]

  open_step :
      (config : LoadConfig) (g rr : ℕ) (busy : Option (ℕ × TableName × Bytes)) (skip : Bool)
      (jobs : List (ℕ × Kind)) (done : List Bytes) (table : TableName) (columns : List Bytes)
      → InStep none (record {
        generation = g;
        opened = busy;
        round_robin = rr;
        skipping = skip;
        jobs = jobs;
        done = done;
      })
      → InStep (some table) (
          outline_event threads config
            (record {
              generation = g;
              opened = busy;
              round_robin = rr;
              skipping = skip;
              jobs = jobs;
              done = done;
            })
            (Event.copy_start table columns))
  unfolding outline_event
  open_step config g rr (some b) true jobs done table columns (h, serve) = absurd h
  open_step config g rr (some b) false jobs done table columns (h, serve) = absurd h
  open_step config g rr none true jobs done table columns (h, serve) = absurd h
  open_step config g rr none false jobs done table columns (h, serve) =
      elim (Bool-cases (wanted config table)) [
        | inl w ↦ rw w (
          (refl, refl),
          each-AllServe jobs (g, false) (g + 1, true) (opens (g + 1)) refl refl serve,
        )
        | inr w ↦ rw w (tt, serve)
      ]

  row_step :
      (config : LoadConfig) (g rr : ℕ) (name : TableName) (busy : Option (ℕ × TableName × Bytes))
      (skip : Bool) (jobs : List (ℕ × Kind)) (done : List Bytes) (payload : Bytes)
      → InStep (some name) (record {
        generation = g;
        opened = busy;
        round_robin = rr;
        skipping = skip;
        jobs = jobs;
        done = done;
      })
      → InStep (some name) (
          outline_event threads config
            (record {
              generation = g;
              opened = busy;
              round_robin = rr;
              skipping = skip;
              jobs = jobs;
              done = done;
            })
            (Event.copy_rows payload))
  unfolding outline_event
  row_step config g rr name (some (h, t, q)) true jobs done payload (l, serve) = absurd l
  row_step config g rr name none false jobs done payload (l, serve) = absurd l
  row_step config g rr name none true jobs done payload (l, serve) = (l, serve)
  row_step config g rr name (some (h, t, q)) false jobs done payload (l, serve) =
      (l, rw (l.1) (row-AllServe jobs (rr % threads) g payload serve))

  close_step :
      (config : LoadConfig) (g rr : ℕ) (name : TableName) (busy : Option (ℕ × TableName × Bytes))
      (skip : Bool) (jobs : List (ℕ × Kind)) (done : List Bytes) (table : TableName)
      → InStep (some name) (record {
        generation = g;
        opened = busy;
        round_robin = rr;
        skipping = skip;
        jobs = jobs;
        done = done;
      })
      → InStep none (
          outline_event threads config
            (record {
              generation = g;
              opened = busy;
              round_robin = rr;
              skipping = skip;
              jobs = jobs;
              done = done;
            })
            (Event.copy_end table))
  unfolding outline_event
  close_step config g rr name (some (h, t, q)) true jobs done table (l, serve) = absurd l
  close_step config g rr name none false jobs done table (l, serve) = absurd l
  close_step config g rr name none true jobs done table (l, serve) = (tt, serve)
  close_step config g rr name (some (h, t, q)) false jobs done table (l, serve) =
      (tt, each-AllServe jobs (g, true) (g, false) (closes h) l.1 refl serve)

  pub event_step :
      (config : LoadConfig) (p : Option TableName) (o : Outline) (e : Event)
      → Allowed p e
      → InStep p o
      → InStep (open_behind p e) (outline_event threads config o e)
  unfolding outline_event
  event_step config p o (Event.dump_version by from) h inv = inv
  event_step config p o (Event.table def) h inv = inv
  event_step config none o (Event.copy_start table columns) h inv =
      open_step config o.generation o.round_robin o.opened o.skipping o.jobs o.done table columns
        inv
  event_step config (some name) o (Event.copy_start table columns) h inv = absurd h
  event_step config none o (Event.copy_rows payload) h inv = absurd h
  event_step config (some name) o (Event.copy_rows payload) h inv =
      row_step config o.generation o.round_robin name o.opened o.skipping o.jobs o.done payload inv
  event_step config none o (Event.copy_end table) h inv = absurd h
  event_step config (some name) o (Event.copy_end table) h inv =
      close_step config o.generation o.round_robin name o.opened o.skipping o.jobs o.done table inv

  events_step :
      (config : LoadConfig) (p q : Option TableName) (o : Outline) (es : List Event)
      → Follows p es q
      → InStep p o
      → InStep q (outline_events threads config o es)
  unfolding outline_events
  events_step config p q o [] h inv = subst (λ p. InStep p o) h inv
  events_step config p q o (e ∷ es) h inv =
      events_step config (open_behind p e) q (outline_event threads config o e) es h.1
        (event_step config p o e h.0 inv)

is_open-numbered : (o : Option OpenBlock) → is_open (numbered o) ≡ is_open o
is_open-numbered none = refl
is_open-numbered (some block) = refl

module _ {T K A : Type 0} ⦃l : Lowercase⦄ ⦃c : CharClass⦄ ⦃k : KernelType K⦄
    (env : Surroundings T K A) (config : LoadConfig) where
  -- Behind events whose blocks are in order, each worker was told to open each block under the next
  -- number, had only rows of the block that was open, and was told to close it under its number.
  pub on_events-Serves :
      (bytes_read : ℕ) (es : List Event) (q : Option TableName)
      → Follows none es q
      → Ends Anything
          (λ r.
            (w : ℕ)
            → w < env.threads
            → Serves (0, false) (jobs_of w (kinds r.sent)) (r.generation, is_open r.current))
          (on_events env config new_reader bytes_read es)
  unfolding kinds jobs_of
  on_events-Serves bytes_read es q h =
      Ends-map Anything _ _ (on_events env config new_reader bytes_read es)
        (on_events-outline env config new_reader bytes_read es)
        λ r g w below. rw (sym (is_open-numbered r.current)) (
          (subst (InStep env.threads q) (sym g) (
              events_step env.threads config none q (outline (new_reader {T = T} {A = A})) es h
                (tt, λ v b. refl))).1
            w below)
