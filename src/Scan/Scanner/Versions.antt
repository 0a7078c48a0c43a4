-- ===== src/Scan/Scanner/Versions.antt =====
-- src/scan.rs: what `finish` says by the events of the dump: the version that the scanner keeps is the
-- one its events last told.
use rust_streamer_pgdb.Scan.Scanner.{
  closed_with, finish, new, sql_line, close_copy, Fed, State, Scanner, Event, sql, copy,
  schema_is_excluded, copy_opened, has_prefix_ci, is_supported, dumped_by_line, defined,
  from_database_or, ends_statement, copy_line, create_start, skip_line, preamble_or, statement,
}
use rust_streamer_pgdb.Scan.Scanner.Nested.{feed_all-Ordered, finish-finished, finished}
use rust_streamer_pgdb.Scan.Scanner.Blocks.{Ordered, Follows, open_behind}
use rust_streamer_pgdb.Error.{◌>>=◌, err, ok, Result}
use rust_streamer_pgdb.Prelude.{
  take, length, ap₂, true, ltb, ap, ◌+◌, ◌∙◌, subst, refl, drop, if◌then◌else◌, sym, inr, inl, none,
  codes, [], ◌++◌, is_empty, ◌∷◌, ◌≡◌, Bool, Bool-cases, some, List, false, ℕ, Memchr, Bytes,
  Option,
}
use rust_streamer_pgdb.Scan.Scanner.Feed.{
  feed_round_falls, copy_round, rows_to, sql_round, carry_on, feed_loop, keep_rest, round_at,
  feed_behind, feed_pending, Work, completed_at, feed, feed_round,
}
use rust_streamer_pgdb.Scan.Scanner.Dump.{feed_all}
use rust_streamer_pgdb.Scan.Ddl.{parse_copy_header, parse_create_table, TableDef}
use rust_streamer_pgdb.Scan.Names.{
  ends_with_ci, strip_prefix_ci, strip_create_table, leading_major, TableName,
}
use rust_streamer_pgdb.Scan.{find_terminator, Found}
use rust_streamer_pgdb.Prelude.Loop.{more, loop_induction, Round}
use rust_streamer_pgdb.Dump.Compression.{starts_with}
use rust_streamer_pgdb.Copy.Field.{is_end_of_data}
use rust_streamer_pgdb.Scan.Scanner.Lines.{in_front}
use rust_streamer_pgdb.Prelude.Ascii.{trim_ascii_end}
use rust_streamer_pgdb.Copy.Rows.{strip_cr}
use rust_streamer_pgdb.Prelude.Loop.{loop_induction, more, done, Round}

-- The version that is known behind an event, and behind some.
abbrev pub version_behind : Option ℕ → Event → Option ℕ
version_behind v (Event.dump_version by from) = some by
version_behind v e = v

abbrev pub last_version : Option ℕ → List Event → Option ℕ
last_version v [] = v
last_version v (e ∷ es) = last_version (version_behind v e) es

-- The block that is open behind some events.
abbrev pub last_open : Option TableName → List Event → Option TableName
last_open o [] = o
last_open o (e ∷ es) = last_open (open_behind o e) es

Follows-last_open : (o p : Option TableName) (es : List Event) → Follows o es p → p ≡ last_open o es
Follows-last_open o p [] h = sym h
Follows-last_open o p (e ∷ es) h = Follows-last_open (open_behind o e) p es h.1

last_version-append :
    (v : Option ℕ) (es fs : List Event)
    → last_version v (es ++ fs) ≡ last_version (last_version v es) fs
last_version-append v [] fs = refl
last_version-append v (e ∷ es) fs = last_version-append (version_behind v e) es fs

-- A result that keeps the version its events tell, behind one that was known.
abbrev Tells : Option ℕ → Fed → Type 0
Tells v (err e) = Unit
Tells v (ok (t, es)) = t.dumped_by ≡ last_version v es

if-Tells :
    (v : Option ℕ) (b : Bool) (x y : Fed) → Tells v x → Tells v y → Tells v (if b then x else y)
if-Tells v true x y h g = h
if-Tells v false x y h g = g

defined-Tells : (s : Scanner) (d : Result TableDef) → Tells s.dumped_by (defined s d)
defined-Tells s (ok def) = refl
defined-Tells s (err e) = tt

copy_line-Tells : (s : Scanner) (line : Bytes) → Tells s.dumped_by (copy_line s line)
copy_line-Tells s line =
    if-Tells s.dumped_by (ends_with_ci (trim_ascii_end line) (codes "FROM stdin;")) _ _
      (opened (parse_copy_header (trim_ascii_end line))) refl
  where
    opened : (r : Result (TableName × List Bytes)) → Tells s.dumped_by (copy_opened s r)
    opened (ok (n, cs)) = refl
    opened (err e) = tt

dumped_by-Tells : (s : Scanner) (o : Option ℕ) → Tells s.dumped_by (dumped_by_line s o)
dumped_by-Tells s none = refl
dumped_by-Tells s (some major) = if-Tells s.dumped_by (is_supported major) _ _ refl tt

skip_line-Tells : (s : Scanner) (line : Bytes) → Tells s.dumped_by (skip_line s line)
skip_line-Tells s line = elim (Bool-cases (ends_statement line)) [
  | inl e ↦ rw e refl
  | inr e ↦ rw e refl
]

create_start-Tells :
    (s : Scanner) (line after_kw : Bytes) → Tells s.dumped_by (create_start s line after_kw)
create_start-Tells s line after_kw = elim (Bool-cases (ends_statement line)) [
  | inl e ↦ rw e (
      if-Tells s.dumped_by (schema_is_excluded s after_kw) _ _ refl
        (defined-Tells (record s { ddl = [] }) (parse_create_table line)))
  | inr e ↦ rw e (if-Tells s.dumped_by (schema_is_excluded s after_kw) _ _ refl refl)
]

statement-Tells :
    (s : Scanner) (line : Bytes) (o : Option Bytes) → Tells s.dumped_by (statement s line o)
statement-Tells s line (some after_kw) = create_start-Tells s line after_kw
statement-Tells s line none =
    if-Tells s.dumped_by (has_prefix_ci line (codes "COPY ")) _ _ (copy_line-Tells s line) refl

from_database-Tells :
    (s : Scanner) (line : Bytes) (o : Option Bytes) → Tells s.dumped_by (from_database_or s line o)
from_database-Tells s line (some rest) = refl
from_database-Tells s line none =
    if-Tells s.dumped_by (starts_with line (codes "--")) _ _ refl
      (statement-Tells s line (strip_create_table line))

preamble-Tells :
    (s : Scanner) (line : Bytes) (o : Option Bytes) → Tells s.dumped_by (preamble_or s line o)
preamble-Tells s line (some rest) = dumped_by-Tells s (leading_major rest)
preamble-Tells s line none =
    from_database-Tells s line (strip_prefix_ci line (codes "-- Dumped from database version "))

sql_line-Tells : (s : Scanner) (line : Bytes) → Tells s.dumped_by (sql_line s line)
unfolding sql_line
sql_line-Tells s line = if-Tells s.dumped_by s.skipping_create _ _ (skip_line-Tells s line) (
    if-Tells s.dumped_by s.in_create _ _
      (if-Tells s.dumped_by (ends_statement line) _ _
        (defined-Tells (record s { in_create = false; ddl = [] })
          (parse_create_table (s.ddl ++ (b'\n' ∷ line))))
        refl)
      (preamble-Tells s line (strip_prefix_ci line (codes "-- Dumped by pg_dump version "))))

close_copy-Tells : (s : Scanner) → Tells s.dumped_by (ok (close_copy s))
unfolding close_copy
close_copy-Tells s = by_table s.open_table
  where
    by_table : (o : Option TableName) → Tells s.dumped_by (ok (closed_with s o))
    by_table none = refl
    by_table (some name) = refl

-- The same of what a loop works on.
abbrev WorkTells : Option ℕ → Result Work → Type 0
WorkTells v (err e) = Unit
WorkTells v (ok w) = w.0.dumped_by ≡ last_version v w.1

abbrev RoundTells : Option ℕ → Round Work (Result Work) → Type 0
RoundTells v (done x) = WorkTells v x
RoundTells v (more w) = w.0.dumped_by ≡ last_version v w.1

-- Later events behind those so far.
behind :
    (v : Option ℕ) (s t : Scanner) (es fs : List Event)
    → s.dumped_by ≡ last_version v es
    → t.dumped_by ≡ last_version s.dumped_by fs
    → t.dumped_by ≡ last_version v (es ++ fs)
behind v s t es fs h k = k ∙ ap (λ v. last_version v fs) h ∙ sym (last_version-append v es fs)

carry_on-Tells :
    (v : Option ℕ) (s : Scanner) (events : List Event) (rest : Bytes) (f : Fed)
    → s.dumped_by ≡ last_version v events
    → Tells s.dumped_by f
    → RoundTells v (carry_on events rest f)
carry_on-Tells v s events rest (err e) h k = tt
carry_on-Tells v s events rest (ok (t, es)) h k = behind v s t events es h k

rows_to-quiet : (v : Option ℕ) (input : Bytes) (at : ℕ) → v ≡ last_version v (rows_to input at)
rows_to-quiet v input at = elim (Bool-cases (ltb 0 at)) [
  | inl any ↦ rw any refl
  | inr nothing ↦ rw nothing refl
]

sql_round-Tells :
    (v : Option ℕ) (s : Scanner) (events : List Event) (input : Bytes) (nl : Option ℕ)
    → s.dumped_by ≡ last_version v events
    → RoundTells v (sql_round s events input nl)
sql_round-Tells v s events input none h = h
sql_round-Tells v s events input (some nl) h =
    carry_on-Tells v s events (drop (nl + 1) input) (sql_line s (strip_cr (take nl input))) h
      (sql_line-Tells s (strip_cr (take nl input)))

copy_round-Tells :
    (v : Option ℕ) (s : Scanner) (events : List Event) (input : Bytes) (f : Found)
    → s.dumped_by ≡ last_version v events
    → RoundTells v (copy_round s events input f)
copy_round-Tells v s events input (n, none) h =
    behind v s s events (rows_to input n) h (rows_to-quiet s.dumped_by input n)
copy_round-Tells v s events input (n, some at) h =
    behind v s (close_copy s).0 (events ++ rows_to input at) (close_copy s).1
      (behind v s s events (rows_to input at) h (rows_to-quiet s.dumped_by input at))
      (close_copy-Tells s)

completed_at-Tells :
    (st : State) (s : Scanner) (line : Bytes) → Tells s.dumped_by (completed_at st s line)
completed_at-Tells sql s line = sql_line-Tells s line
completed_at-Tells copy s line =
    if-Tells s.dumped_by (is_end_of_data line) _ _ (close_copy-Tells s) refl

keep_rest-Tells : (v : Option ℕ) (x : Result Work) → WorkTells v x → Tells v (keep_rest x)
keep_rest-Tells v (err e) h = tt
keep_rest-Tells v (ok w) h = h

module _ ⦃m : Memchr⦄ where
  round_at-Tells :
      (v : Option ℕ) (st : State) (s : Scanner) (events : List Event) (input : Bytes)
      → s.dumped_by ≡ last_version v events
      → RoundTells v (round_at st s events input)
  round_at-Tells v sql s events input h = sql_round-Tells v s events input (m.memchr b'\n' input) h
  round_at-Tells v copy s events input h =
      copy_round-Tells v s events input (find_terminator input) h

  feed_round-Tells :
      (v : Option ℕ) (w : Work) → w.0.dumped_by ≡ last_version v w.1 → RoundTells v (feed_round w)
  unfolding feed_round
  feed_round-Tells v (s, events, input) h = round_at-Tells v s.state s events input h

  feed_loop-Tells :
      (v : Option ℕ) (w : Work) → w.0.dumped_by ≡ last_version v w.1 → WorkTells v (feed_loop w)
  feed_loop-Tells v =
      loop_induction (λ (w : Work). length w.2) feed_round feed_round_falls
        (λ w x. w.0.dumped_by ≡ last_version v w.1 → WorkTells v x)
        (λ w x q h. subst (RoundTells v) q (feed_round-Tells v w h))
        (λ w t x q k h. k (subst (RoundTells v) q (feed_round-Tells v w h)))

  feed_behind-Tells :
      (v : Option ℕ) (rest : Bytes) (f : Fed) → Tells v f → Tells v (feed_behind rest f)
  feed_behind-Tells v rest (err e) h = tt
  feed_behind-Tells v rest (ok (s, events)) h =
      keep_rest-Tells v (feed_loop (s, events, rest)) (feed_loop-Tells v (s, events, rest) h)

  feed_pending-Tells :
      (s : Scanner) (chunk : Bytes) (nl : Option ℕ) → Tells s.dumped_by (feed_pending s chunk nl)
  feed_pending-Tells s chunk none = refl
  feed_pending-Tells s chunk (some nl) = feed_behind-Tells s.dumped_by (drop (nl + 1) chunk) _ (
      completed_at-Tells s.state (record s { pending = [] })
        (strip_cr (s.pending ++ take nl chunk)))

  feed-Tells : (s : Scanner) (chunk : Bytes) → Tells s.dumped_by (feed s chunk)
  unfolding feed
  feed-Tells s chunk =
      if-Tells s.dumped_by (is_empty s.pending) _ _
        (keep_rest-Tells s.dumped_by (feed_loop (s, [], chunk))
          (feed_loop-Tells s.dumped_by (s, [], chunk) refl))
        (feed_pending-Tells s chunk (m.memchr b'\n' chunk))

  feed_all-Tells : (s : Scanner) (cs : List Bytes) → Tells s.dumped_by (feed_all s cs)
  unfolding feed_all
  feed_all-Tells s [] = refl
  feed_all-Tells s (c ∷ cs) = step (feed s c) (feed-Tells s c) (λ t. feed_all-Tells t cs)
    where
      later_Tells :
          (t : Scanner) (es : List Event) (f : Fed)
          → t.dumped_by ≡ last_version s.dumped_by es
          → Tells t.dumped_by f
          → Tells s.dumped_by (in_front es f)
      later_Tells t es (err e) h k = tt
      later_Tells t es (ok (u, fs)) h k = behind s.dumped_by t u es fs h k

      step :
          (f : Fed)
          → Tells s.dumped_by f
          → ((t : Scanner) → Tells t.dumped_by (feed_all t cs))
          → Tells s.dumped_by (f >>= λ r. in_front r.1 (feed_all r.0 cs))
      step (err e) k later = tt
      step (ok (t, es)) k later = later_Tells t es (feed_all t cs) k (later t)

  -- A dump that a new scanner reads without an error ends well if and only if its events end the
  -- block they started last and tell a version. Otherwise `finish` is the error that names the table
  -- of the block that is still open behind the events, or else the missing version.
  pub finish-feed_all :
      (cs : List Bytes) (s : Scanner) (es : List Event)
      → feed_all new cs ≡ ok (s, es)
      → finish s ≡ finished (last_open none es) (last_version none es)
  finish-feed_all cs s es e =
      let ordered = subst (Ordered none) e (feed_all-Ordered new cs tt) in
      let told = subst (Tells none) e (feed_all-Tells new cs) in
      finish-finished s ordered.0
      ∙ ap₂ finished (Follows-last_open none s.open_table es ordered.1) told
