-- ===== src/Scan/Scanner/Blocks.antt =====
-- src/scan.rs: the events of a block stand between its start and its end.
use rust_streamer_pgdb.Scan.Scanner.{
  closed_with, copy_rows, sql_line, Fed, close_copy, State, Scanner, Event, sql, copy,
}
use rust_streamer_pgdb.Scan.Scanner.SqlLines.{sql_line-SqlOutcome, SqlOutcome, Kept}
use rust_streamer_pgdb.Prelude.{
  ap, sym, [], ap₂, subst, refl, ◌++◌, ◌∷◌, List, some, none, ◌≡◌, Option, Bytes,
}
use rust_streamer_pgdb.Scan.Names.{TableName}
use rust_streamer_pgdb.Error.{err, ok}

-- Whether an event may come while this table's block is open, or none is.
abbrev pub Allowed : Option TableName → Event → Type 0
Allowed none (Event.copy_rows rows) = ⊥
Allowed none (Event.copy_end name) = ⊥
Allowed none e = Unit
Allowed (some name) (Event.copy_rows rows) = Unit
Allowed (some name) (Event.copy_end closed) = closed ≡ name
Allowed (some name) e = ⊥

-- Which block is open behind an event.
abbrev pub open_behind : Option TableName → Event → Option TableName
open_behind o (Event.copy_start name columns) = some name
open_behind o (Event.copy_end name) = none
open_behind o e = o

-- The events lead from one open block, or none, to another.
abbrev pub Follows : Option TableName → List Event → Option TableName → Type 0
Follows o [] o' = o ≡ o'
Follows o (e ∷ es) o' = Allowed o e × Follows (open_behind o e) es o'

pub Follows-append :
    (o p q : Option TableName) (xs ys : List Event)
    → Follows o xs p
    → Follows p ys q
    → Follows o (xs ++ ys) q
Follows-append o p q [] ys h k = subst (λ o. Follows o ys q) (sym h) k
Follows-append o p q (e ∷ xs) ys h k = (h.0, Follows-append (open_behind o e) p q xs ys h.1 k)

-- The state `Copy` goes with an open table.
abbrev pub Matches : State → Option TableName → Type 0
Matches sql none = Unit
Matches sql (some name) = ⊥
Matches copy none = ⊥
Matches copy (some name) = Unit

abbrev pub Valid : Scanner → Type 0
Valid s = Matches s.state s.open_table

-- A result with its events in order.
abbrev pub Ordered : Option TableName → Fed → Type 0
Ordered o (err e) = Unit
Ordered o (ok (s, es)) = Valid s × Follows o es s.open_table

abbrev AsKept : Kept → Type 0
AsKept k = Matches k.0 k.2

outcome-Ordered : (p : Bytes) (f : Fed) → SqlOutcome (sql, p, none) f → Ordered none f
outcome-Ordered p (err e) h = tt
outcome-Ordered p (ok (t, [])) h = (subst AsKept (sym h) tt, ap (λ k. k.2) (sym h))
outcome-Ordered p (ok (t, Event.copy_start name columns ∷ [])) h =
    (subst AsKept (sym h) tt, (tt, ap (λ k. k.2) (sym h)))
outcome-Ordered p (ok (t, Event.dump_version by from ∷ [])) h =
    (subst AsKept (sym h.1) tt, (tt, ap (λ k. k.2) (sym h.1)))
outcome-Ordered p (ok (t, Event.table def ∷ [])) h =
    (subst AsKept (sym h.1) tt, (tt, ap (λ k. k.2) (sym h.1)))
outcome-Ordered p (ok (t, Event.copy_rows rows ∷ [])) h = absurd h.0
outcome-Ordered p (ok (t, Event.copy_end name ∷ [])) h = absurd h.0
outcome-Ordered p (ok (t, e ∷ f ∷ es)) h = absurd h

sql_open : (o : Option TableName) → Matches sql o → o ≡ none
sql_open none h = refl
sql_open (some name) h = absurd h

pub sql_line-Ordered :
    (s : Scanner) (line : Bytes) → s.state ≡ sql → Valid s → Ordered s.open_table (sql_line s line)
sql_line-Ordered s line e h =
    let shut : s.open_table ≡ none =
      sql_open s.open_table (subst (λ st. Matches st s.open_table) e h) in
    let outcome : SqlOutcome (sql, s.pending, none) (sql_line s line) =
      subst (λ (st, o). SqlOutcome (st, s.pending, o) (sql_line s line))
        (ap₂ (λ st o. (st, o)) e shut) (sql_line-SqlOutcome s line) in
    subst (λ o. Ordered o (sql_line s line)) (sym shut)
      (outcome-Ordered s.pending (sql_line s line) outcome)

closed_with-Ordered :
    (s : Scanner) (o : Option TableName)
    → s.open_table ≡ o
    → s.state ≡ copy
    → Matches copy o
    → Ordered o (ok (closed_with s o))
closed_with-Ordered s none e c h = absurd h
closed_with-Ordered s (some name) e c h = (tt, (refl, refl))

pub close_copy-Ordered :
    (s : Scanner) → s.state ≡ copy → Valid s → Ordered s.open_table (ok (close_copy s))
unfolding close_copy
close_copy-Ordered s e h =
    closed_with-Ordered s s.open_table refl e (subst (λ st. Matches st s.open_table) e h)

-- Rows of the open block.
pub rows-Follows :
    (s : Scanner) (rows : Bytes)
    → s.state ≡ copy
    → Valid s
    → Follows s.open_table (copy_rows rows ∷ []) s.open_table
rows-Follows s rows e h = rows_alone s.open_table (subst (λ st. Matches st s.open_table) e h)
  where
    rows_alone : (o : Option TableName) → Matches copy o → Follows o (copy_rows rows ∷ []) o
    rows_alone none h = absurd h
    rows_alone (some name) h = (tt, refl)
