-- ===== src/Scan/Scanner/Pending.antt =====
-- src/scan.rs: a line leaves alone what is pending.
use rust_streamer_pgdb.Prelude.{
  ap, subst, refl, [], ◌∷◌, Bool-cases, List, ◌≡◌, Bytes, Option, none, some, inl, inr,
}
use rust_streamer_pgdb.Scan.Scanner.{
  closed_with, Fed, sql_line, close_copy, State, sql, copy, Event, Scanner,
}
use rust_streamer_pgdb.Scan.Scanner.Lines.{in_front, read_lines}
use rust_streamer_pgdb.Error.{err, ◌>>=◌, ok}
use rust_streamer_pgdb.Scan.Scanner.Feed.{completed_line, completed_at}
use rust_streamer_pgdb.Copy.Field.{is_end_of_data}
use rust_streamer_pgdb.Scan.Names.{TableName}
use rust_streamer_pgdb.Copy.Rows.{strip_cr}
use rust_streamer_pgdb.Scan.Scanner.SqlLines.{SqlOutcome, sql_line-SqlOutcome, Kept, kept}

-- The scanner keeps what is pending.
abbrev pub KeepsPending : Bytes → Fed → Type 0
KeepsPending p (ok (s, es)) = s.pending ≡ p
KeepsPending p (err e) = Unit

outcome-KeepsPending : (k : Kept) (f : Fed) → SqlOutcome k f → KeepsPending k.1 f
outcome-KeepsPending k (err e) h = tt
outcome-KeepsPending k (ok (t, [])) h = ap (λ k. k.1) h
outcome-KeepsPending k (ok (t, Event.copy_start name columns ∷ [])) h = ap (λ k. k.1) h
outcome-KeepsPending k (ok (t, Event.dump_version by from ∷ [])) h = ap (λ k. k.1) h.1
outcome-KeepsPending k (ok (t, Event.table def ∷ [])) h = ap (λ k. k.1) h.1
outcome-KeepsPending k (ok (t, Event.copy_rows rows ∷ [])) h = absurd h.0
outcome-KeepsPending k (ok (t, Event.copy_end name ∷ [])) h = absurd h.0
outcome-KeepsPending k (ok (t, e ∷ f ∷ es)) h = absurd h

closed_with-pending : (s : Scanner) (o : Option TableName) → (closed_with s o).0.pending ≡ s.pending
closed_with-pending s none = refl
closed_with-pending s (some name) = refl

close_copy-pending : (s : Scanner) → (close_copy s).0.pending ≡ s.pending
unfolding close_copy
close_copy-pending s = closed_with-pending s s.open_table

line-KeepsPending :
    (st : State) (s : Scanner) (line : Bytes) → KeepsPending s.pending (completed_at st s line)
line-KeepsPending sql s line =
    outcome-KeepsPending (kept s) (sql_line s line) (sql_line-SqlOutcome s line)
line-KeepsPending copy s line = elim (Bool-cases (is_end_of_data line)) [
  | inl last ↦ rw last (close_copy-pending s)
  | inr row ↦ rw row refl
]

in_front-KeepsPending :
    (p : Bytes) (es : List Event) (f : Fed) → KeepsPending p f → KeepsPending p (in_front es f)
in_front-KeepsPending p es (ok (s, l)) h = h
in_front-KeepsPending p es (err e) h = tt

pub read_lines-KeepsPending :
    (s : Scanner) (ls : List Bytes) → KeepsPending s.pending (read_lines s ls)
unfolding read_lines
read_lines-KeepsPending s [] = refl
read_lines-KeepsPending s (l ∷ ls) =
    step (completed_line s (strip_cr l)) (line-KeepsPending s.state s (strip_cr l))
      (λ t. read_lines-KeepsPending t ls)
  where
    step :
        (f : Fed)
        → KeepsPending s.pending f
        → ((t : Scanner) → KeepsPending t.pending (read_lines t ls))
        → KeepsPending s.pending (f >>= λ r. in_front r.1 (read_lines r.0 ls))
    step (err e) h k = tt
    step (ok (t, es)) h k =
        in_front-KeepsPending s.pending es (read_lines t ls)
          (subst (λ p. KeepsPending p (read_lines t ls)) h (k t))
