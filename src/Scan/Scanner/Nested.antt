-- ===== src/Scan/Scanner/Nested.antt =====
-- src/scan.rs: whole calls of `feed` keep the events of blocks in order.
use rust_streamer_pgdb.Scan.Scanner.{
  finish, sql_line, close_copy, Fed, State, Scanner, Event, sql, copy,
}
use rust_streamer_pgdb.Prelude.{
  inr, subst, [], take, none, ◌++◌, ◌+◌, inl, is_empty, drop, ltb, length, Bool-cases, ◌∷◌, some,
  refl, List, ℕ, ◌≡◌, Memchr, Option, Bytes,
}
use rust_streamer_pgdb.Scan.Scanner.Dump.{feed_all}
use rust_streamer_pgdb.Scan.Scanner.Feed.{
  feed_round_falls, keep_rest, feed_behind, feed_pending, copy_round, carry_on, completed_at,
  rows_to, round_at, sql_round, feed_loop, Work, feed_round, feed,
}
use rust_streamer_pgdb.Scan.Names.{TableName, qualified}
use rust_streamer_pgdb.Scan.Scanner.Blocks.{
  Matches, rows-Follows, close_copy-Ordered, Follows-append, sql_line-Ordered, Ordered, Follows,
  Valid,
}
use rust_streamer_pgdb.Prelude.Loop.{loop_induction, more, done, Round}
use rust_streamer_pgdb.Error.{unterminated_copy, missing_dump_version, ◌>>=◌, ok, err, Result}
use rust_streamer_pgdb.Scan.{find_terminator, Found}
use rust_streamer_pgdb.Scan.Scanner.Lines.{in_front}
use rust_streamer_pgdb.Copy.Rows.{strip_cr}
use rust_streamer_pgdb.Copy.Field.{is_end_of_data}

abbrev ValidWork : Option TableName → Work → Type 0
ValidWork o w = Valid w.0 × Follows o w.1 w.0.open_table

abbrev WorkOrdered : Option TableName → Result Work → Type 0
WorkOrdered o (err e) = Unit
WorkOrdered o (ok w) = ValidWork o w

abbrev RoundOrdered : Option TableName → Round Work (Result Work) → Type 0
RoundOrdered o (done x) = WorkOrdered o x
RoundOrdered o (more w) = ValidWork o w

carry_on-Ordered :
    (o p : Option TableName) (events : List Event) (rest : Bytes) (f : Fed)
    → Follows o events p
    → Ordered p f
    → RoundOrdered o (carry_on events rest f)
carry_on-Ordered o p events rest (err e) h k = tt
carry_on-Ordered o p events rest (ok (t, es)) h k =
    (k.0, Follows-append o p t.open_table events es h k.1)

sql_round-Ordered :
    (o : Option TableName) (s : Scanner) (events : List Event) (input : Bytes) (nl : Option ℕ)
    → s.state ≡ sql
    → ValidWork o (s, events, input)
    → RoundOrdered o (sql_round s events input nl)
sql_round-Ordered o s events input none e h = h
sql_round-Ordered o s events input (some nl) e h =
    carry_on-Ordered o s.open_table events (drop (nl + 1) input)
      (sql_line s (strip_cr (take nl input))) h.1
      (sql_line-Ordered s (strip_cr (take nl input)) e h.0)

rows_to-Follows :
    (s : Scanner) (input : Bytes) (at : ℕ)
    → s.state ≡ copy
    → Valid s
    → Follows s.open_table (rows_to input at) s.open_table
rows_to-Follows s input at e h = elim (Bool-cases (ltb 0 at)) [
  | inl any ↦ rw any (rows-Follows s (take at input) e h)
  | inr nothing ↦ rw nothing refl
]

copy_round-Ordered :
    (o : Option TableName) (s : Scanner) (events : List Event) (input : Bytes) (f : Found)
    → s.state ≡ copy
    → ValidWork o (s, events, input)
    → RoundOrdered o (copy_round s events input f)
copy_round-Ordered o s events input (n, none) e h = (
  h.0,
  Follows-append o s.open_table s.open_table events (rows_to input n) h.1
      (rows_to-Follows s input n e h.0),
)
copy_round-Ordered o s events input (n, some at) e h =
    let closed = close_copy-Ordered s e h.0 in
    let rows =
      Follows-append o s.open_table s.open_table events (rows_to input at) h.1
        (rows_to-Follows s input at e h.0) in
    (
      closed.0,
      Follows-append o s.open_table (close_copy s).0.open_table (events ++ rows_to input at)
          (close_copy s).1 rows closed.1,
    )

completed_at-Ordered :
    (st : State) (s : Scanner) (line : Bytes)
    → s.state ≡ st
    → Valid s
    → Ordered s.open_table (completed_at st s line)
completed_at-Ordered sql s line e h = sql_line-Ordered s line e h
completed_at-Ordered copy s line e h = elim (Bool-cases (is_end_of_data line)) [
  | inl last ↦ rw last (close_copy-Ordered s e h)
  | inr row ↦ rw row (h, rows-Follows s (line ++ b'\n' ∷ []) e h)
]

keep_rest-Ordered :
    (o : Option TableName) (x : Result Work) → WorkOrdered o x → Ordered o (keep_rest x)
keep_rest-Ordered o (err e) h = tt
keep_rest-Ordered o (ok w) h = h

-- What `finish` has to say, by the block that is open and the version that was read.
abbrev pub finished : Option TableName → Option ℕ → Result (Unit {0})
finished (some name) version = err (unterminated_copy (qualified name))
finished none none = err missing_dump_version
finished none (some version) = ok tt

pub finish-finished : (s : Scanner) → Valid s → finish s ≡ finished s.open_table s.dumped_by
unfolding finish
finish-finished s h = by_fields s.state s.open_table s.dumped_by h
  where
    by_fields :
        (st : State) (o : Option TableName) (v : Option ℕ)
        → Matches st o
        → (elim st as (λ st. Result (Unit {0})) [
          | copy ↦ err (unterminated_copy (elim o [ some name ↦ qualified name | none ↦ [] ]))
          | sql ↦ elim v [ some _ ↦ ok tt | none ↦ err missing_dump_version ]
        ])
          ≡ finished o v
    by_fields sql none none h = refl
    by_fields sql none (some v) h = refl
    by_fields sql (some name) v h = absurd h
    by_fields copy none v h = absurd h
    by_fields copy (some name) v h = refl

module _ ⦃m : Memchr⦄ where
  round_at-Ordered :
      (o : Option TableName) (st : State) (s : Scanner) (events : List Event) (input : Bytes)
      → s.state ≡ st
      → ValidWork o (s, events, input)
      → RoundOrdered o (round_at st s events input)
  round_at-Ordered o sql s events input e h =
      sql_round-Ordered o s events input (m.memchr b'\n' input) e h
  round_at-Ordered o copy s events input e h =
      copy_round-Ordered o s events input (find_terminator input) e h

  feed_round-Ordered :
      (o : Option TableName) (w : Work) → ValidWork o w → RoundOrdered o (feed_round w)
  unfolding feed_round
  feed_round-Ordered o (s, events, input) h = round_at-Ordered o s.state s events input refl h

  feed_loop-Ordered :
      (o : Option TableName) (w : Work) → ValidWork o w → WorkOrdered o (feed_loop w)
  feed_loop-Ordered o =
      loop_induction (λ (w : Work). length w.2) feed_round feed_round_falls
        (λ w x. ValidWork o w → WorkOrdered o x)
        (λ w x q h. subst (RoundOrdered o) q (feed_round-Ordered o w h))
        (λ w t x q k h. k (subst (RoundOrdered o) q (feed_round-Ordered o w h)))

  feed_behind-Ordered :
      (o : Option TableName) (rest : Bytes) (f : Fed) → Ordered o f → Ordered o (feed_behind rest f)
  feed_behind-Ordered o rest (err e) h = tt
  feed_behind-Ordered o rest (ok (s, events)) h =
      keep_rest-Ordered o (feed_loop (s, events, rest)) (feed_loop-Ordered o (s, events, rest) h)

  feed_pending-Ordered :
      (s : Scanner) (chunk : Bytes) (nl : Option ℕ)
      → Valid s
      → Ordered s.open_table (feed_pending s chunk nl)
  feed_pending-Ordered s chunk none h = (h, refl)
  feed_pending-Ordered s chunk (some nl) h =
      feed_behind-Ordered s.open_table (drop (nl + 1) chunk) _ (
        completed_at-Ordered s.state (record s { pending = [] })
          (strip_cr (s.pending ++ take nl chunk)) refl h)

  -- Whatever is fed, a call of `feed` that does not fail leaves a scanner that is inside a block if
  -- and only if a table is open, and its events are in order: definitions and versions come outside
  -- of blocks, rows and the end of a block come only while its table is open, and the end names the
  -- table that was started.
  pub feed-Ordered : (s : Scanner) (chunk : Bytes) → Valid s → Ordered s.open_table (feed s chunk)
  unfolding feed
  feed-Ordered s chunk h = elim (Bool-cases (is_empty s.pending)) [
    | inl nothing ↦ rw nothing (
        keep_rest-Ordered s.open_table (feed_loop (s, [], chunk))
          (feed_loop-Ordered s.open_table (s, [], chunk) (h, refl)))
    | inr something ↦ rw something (feed_pending-Ordered s chunk (m.memchr b'\n' chunk) h)
  ]

  in_front-Ordered :
      (o : Option TableName) (t : Scanner) (es : List Event) (f : Fed)
      → Follows o es t.open_table
      → Ordered t.open_table f
      → Ordered o (in_front es f)
  in_front-Ordered o t es (err e) h k = tt
  in_front-Ordered o t es (ok (u, later)) h k =
      (k.0, Follows-append o t.open_table u.open_table es later h k.1)

  -- If feeding a dump chunk by chunk does not fail, however it is cut, the events of all calls are in
  -- order, from the block that was open before: definitions and versions come outside of blocks,
  -- rows and the end of a block come only while its table is open, and the end names the table that
  -- was started. The scanner is inside a block if and only if a table is open, if it was so before.
  pub feed_all-Ordered :
      (s : Scanner) (cs : List Bytes) → Valid s → Ordered s.open_table (feed_all s cs)
  unfolding feed_all
  feed_all-Ordered s [] h = (h, refl)
  feed_all-Ordered s (c ∷ cs) h = step (feed s c) (feed-Ordered s c h) (λ t. feed_all-Ordered t cs)
    where
      step :
          (f : Fed)
          → Ordered s.open_table f
          → ((t : Scanner) → Valid t → Ordered t.open_table (feed_all t cs))
          → Ordered s.open_table (f >>= λ r. in_front r.1 (feed_all r.0 cs))
      step (err e) k later = tt
      step (ok (t, es)) k later =
          in_front-Ordered s.open_table t es (feed_all t cs) k.1 (later t k.0)
