-- ===== src/Scan/Scanner/Feed.antt =====
-- src/scan.rs: `Scanner::feed`.
use rust_streamer_pgdb.Scan.Terminator.{find_terminator-consumed}
use rust_streamer_pgdb.Scan.Scanner.{State, sql, copy}
use rust_streamer_pgdb.Prelude.{
  sym, refl, first_index-SplitsAt, length-drop, take, ◌∷◌, arith, [], ◌≤◌, ◌+◌, is_empty, length,
  ltb, drop, ◌++◌, ◌<◌, first_index, if◌then◌else◌, Option, ◌≡◌, ℕ, Bytes, List, Memchr, none, some,
}
use rust_streamer_pgdb.Scan.Scanner.{sql_line, copy_rows, close_copy, Event, Fed, Scanner}
use rust_streamer_pgdb.Error.{err, ok, Result}
use rust_streamer_pgdb.Prelude.Loop.{more, done, loop, Round}
use rust_streamer_pgdb.Scan.{find_terminator, Found}
use rust_streamer_pgdb.Copy.Field.{is_end_of_data}
use rust_streamer_pgdb.Copy.Rows.{strip_cr}

-- What a loop works on: the scanner, the events so far, and the input that is left.
abbrev pub Work : Type 0
Work = Scanner × List Event × Bytes

-- A line of a block that a chunk completes is handed on with a newline of its own.
abbrev pub whole_copy_line : Scanner → Bytes → Fed
whole_copy_line s line =
    if is_end_of_data line then ok (close_copy s) else ok (s, copy_rows (line ++ b'\n' ∷ []) ∷ [])

-- `match self.state` on a line that a chunk completes.
abbrev pub completed_at : State → Scanner → Bytes → Fed
completed_at sql s line = sql_line s line
completed_at copy s line = whole_copy_line s line

abbrev pub completed_line : Scanner → Bytes → Fed
completed_line s line = completed_at s.state s line

-- The events of a step go behind those so far.
abbrev pub carry_on : List Event → Bytes → Fed → Round Work (Result Work)
carry_on events rest (ok (s, more_events)) = more (s, events ++ more_events, rest)
carry_on events rest (err e) = done (err e)

-- `State::Sql`, on the newline.
abbrev pub sql_round : Scanner → List Event → Bytes → Option ℕ → Round Work (Result Work)
sql_round s events input none = done (ok (s, events, input))
sql_round s events input (some nl) =
    carry_on events (drop (nl + 1) input) (sql_line s (strip_cr (take nl input)))

-- The rows in front of a place, if there are any.
abbrev pub rows_to : Bytes → ℕ → List Event
rows_to input at = if ltb 0 at then copy_rows (take at input) ∷ [] else []

-- `State::Copy`, on what `find_terminator` returns.
abbrev pub copy_round : Scanner → List Event → Bytes → Found → Round Work (Result Work)
copy_round s events input (consumed, some at) =
    more ((close_copy s).0, (events ++ rows_to input at) ++ (close_copy s).1, drop consumed input)
copy_round s events input (consumed, none) =
    done (ok (s, events ++ rows_to input consumed, drop consumed input))

sql_round_falls :
    (s : Scanner) (events : List Event) (input : Bytes) (o : Option ℕ) (t : Work)
    → first_index b'\n' input ≡ o
    → sql_round s events input o ≡ more t
    → length t.2 < length input
sql_round_falls s events input none t e h = cc
sql_round_falls s events input (some nl) t e h =
    let hit = first_index-SplitsAt b'\n' input nl e in
    taken (sql_line s (strip_cr (take nl input))) hit.within h
  where
    taken :
        (f : Fed)
        → nl < length input
        → carry_on events (drop (nl + 1) input) f ≡ more t
        → length t.2 < length input
    taken (err e) w h = cc
    taken (ok (s', es)) w h = ground (arith, length-drop (nl + 1) input)

copy_round_falls :
    (s : Scanner) (events : List Event) (input : Bytes) (f : Found) (t : Work)
    → ((at : ℕ) → f.1 ≡ some at → (0 < f.0) × (f.0 ≤ length input))
    → copy_round s events input f ≡ more t
    → length t.2 < length input
copy_round_falls s events input (n, some at) t k h = ground (arith, k at refl, length-drop n input)
copy_round_falls s events input (n, none) t k h = cc

-- `self.pending.extend_from_slice(input)` behind the loop.
abbrev pub keep_rest : Result Work → Fed
keep_rest (err e) = err e
keep_rest (ok (s, events, rest)) = ok (record s { pending = s.pending ++ rest }, events)

module _ ⦃m : Memchr⦄ where
  -- `match self.state` of the loop.
  abbrev pub round_at : State → Scanner → List Event → Bytes → Round Work (Result Work)
  round_at sql s events input = sql_round s events input (m.memchr b'\n' input)
  round_at copy s events input = copy_round s events input (find_terminator input)

  -- One round of `loop { … }`.
  unfoldable pub feed_round : Work → Round Work (Result Work)
  feed_round (s, events, input) = round_at s.state s events input

  round_at_falls :
      (st : State) (s : Scanner) (events : List Event) (input : Bytes) (t : Work)
      → round_at st s events input ≡ more t
      → length t.2 < length input
  round_at_falls sql s events input t h =
      sql_round_falls s events input _ t (sym (m.memchr_first b'\n' input)) h
  round_at_falls copy s events input t h =
      copy_round_falls s events input (find_terminator input) t (find_terminator-consumed input) h

  pub feed_round_falls : (w t : Work) → feed_round w ≡ more t → length t.2 < length w.2
  unfolding feed_round
  feed_round_falls (s, events, input) t h = round_at_falls s.state s events input t h

  abbrev pub feed_loop : Work → Result Work
  feed_loop = loop (λ (w : Work). length w.2) feed_round feed_round_falls

  -- The loop behind a line that was completed.
  abbrev pub feed_behind : Bytes → Fed → Fed
  feed_behind rest (err e) = err e
  feed_behind rest (ok (s, events)) = keep_rest (feed_loop (s, events, rest))

  -- On the newline of the chunk, with a line pending.
  abbrev pub feed_pending : Scanner → Bytes → Option ℕ → Fed
  feed_pending s chunk none = ok (record s { pending = s.pending ++ chunk }, [])
  feed_pending s chunk (some nl) =
      feed_behind (drop (nl + 1) chunk)
        (completed_line (record s { pending = [] }) (strip_cr (s.pending ++ take nl chunk)))

  -- `Scanner::feed`
  unfoldable pub feed : Scanner → Bytes → Fed
  unfolding feed_round
  feed s chunk =
      if is_empty s.pending
      then keep_rest (feed_loop (s, [], chunk))
      else feed_pending s chunk (m.memchr b'\n' chunk)
