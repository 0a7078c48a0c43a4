-- ===== src/Scan/Scanner/Refines.antt =====
-- src/scan.rs: `feed`, with its slices and searches, does what the scanner does line by line.
use rust_streamer_pgdb.Prelude.{
  append-nil, ◌∙◌, append_assoc, take-append_self, ap, length-append, refl, ltb, Bool-cases, length,
  sym, [], ◌∷◌, ◌≡◌, map, ◌+◌, ◌++◌, arith, All, Lacks, ℕ, List, Bytes, true, false, none, some,
  inl, inr,
}
use rust_streamer_pgdb.Scan.Scanner.{close_copy, Scanner, Fed, copy, Event, copy_rows}
use rust_streamer_pgdb.Scan.Scanner.Lines.{
  bare-strip_cr, strip_cr-Lacks, one_row, in_front, expand, read_lines, expand_event,
}
use rust_streamer_pgdb.Scan.Terminator.{walk}
use rust_streamer_pgdb.Lines.{split_lines, split_lines-unlines, split_lines-cons, unlines}
use rust_streamer_pgdb.Copy.Rows.{strip_cr}
use rust_streamer_pgdb.Copy.Field.{is_end_of_data}
use rust_streamer_pgdb.Scan.{Found}
use rust_streamer_pgdb.Scan.Scanner.Feed.{completed_at, completed_line, rows_to}
use rust_streamer_pgdb.Error.{err, ok}

-- A line that does not end a block.
abbrev pub NotEnd : Bytes → Type 0
NotEnd l = is_end_of_data (strip_cr l) ≡ false

abbrev pub row : Bytes → Event
row l = copy_rows (strip_cr l ++ b'\n' ∷ [])

pub in_front-nil : (f : Fed) → in_front [] f ≡ f
in_front-nil (ok (s, es)) = refl
in_front-nil (err e) = refl

in_front-append :
    (xs ys : List Event) (f : Fed) → in_front xs (in_front ys f) ≡ in_front (xs ++ ys) f
in_front-append xs ys (ok (s, es)) = ap (λ t. ok (s, t)) (sym (append_assoc xs ys es))
in_front-append xs ys (err e) = refl

-- In a block, lines that do not end it are rows.
pub read_rows :
    (s : Scanner) (ls later : List Bytes)
    → s.state ≡ copy
    → All NotEnd ls
    → read_lines s (ls ++ later) ≡ in_front (map row ls) (read_lines s later)
unfolding read_lines
read_rows s [] later c h = sym (in_front-nil (read_lines s later))
read_rows s (l ∷ ls) later c h =
    let first : completed_line s (strip_cr l) ≡ ok (s, row l ∷ []) =
      ap (λ st. completed_at st s (strip_cr l)) c ∙ rw (h.0) refl in
    rw first (
      ap (in_front (row l ∷ [])) (read_rows s ls later c h.1)
      ∙ in_front-append (row l ∷ []) (map row ls) (read_lines s later))

-- A line that ends a block closes it.
pub read_end :
    (s : Scanner) (l : Bytes) (later : List Bytes)
    → s.state ≡ copy
    → is_end_of_data (strip_cr l) ≡ true
    → read_lines s (l ∷ later) ≡ in_front (close_copy s).1 (read_lines (close_copy s).0 later)
unfolding read_lines
read_end s l later c h =
    let first : completed_line s (strip_cr l) ≡ ok (close_copy s) =
      ap (λ st. completed_at st s (strip_cr l)) c ∙ rw h refl in
    rw first refl

expand-row : (l : Bytes) → Lacks b'\n' l → expand_event (row l) ≡ one_row l ∷ []
unfolding expand_event
expand-row l h = rw (split_lines-cons (strip_cr l) [] (strip_cr-Lacks l h)) (
    ap (λ b. copy_rows (b ++ b'\n' ∷ []) ∷ map one_row (split_lines []).0) (bare-strip_cr l)
    ∙ (unfold split_lines in refl))

pub expand-rows : (ls : List Bytes) → All (Lacks b'\n') ls → expand (map row ls) ≡ map one_row ls
unfolding expand
expand-rows [] h = refl
expand-rows (l ∷ ls) h = rw (expand-row l h.0, expand-rows ls h.1) refl

-- A slice that holds whole lines stands for these as rows, and an empty slice is not handed on.
pub expand-rows_to :
    (ls : List Bytes) (r : Bytes)
    → All (Lacks b'\n') ls
    → expand (rows_to (unlines ls ++ r) (length (unlines ls))) ≡ map one_row ls
unfolding expand expand_event
expand-rows_to [] r h = unfold unlines in refl
expand-rows_to (l ∷ ls) r h =
    let some_bytes : ltb 0 (length (unlines (l ∷ ls))) ≡ true =
      unfold unlines in ground (arith, length-append l (b'\n' ∷ unlines ls)) in
    rw
      (
        some_bytes,
        take-append_self (unlines (l ∷ ls)) r,
        split_lines-unlines (l ∷ ls) h,
        append-nil,
      )
      refl

-- What a walk from a place finds among lines.
abbrev pub Span : ℕ → List Bytes → Found → Type 0
Span pos ls (n, none) = (n ≡ pos + length (unlines ls)) × All NotEnd ls
Span pos ls (n, some at) =
    (before : List Bytes) × (l : Bytes) × (later : List Bytes) × (ls ≡ before ++ l ∷ later)
    × All NotEnd before
    × (is_end_of_data (strip_cr l) ≡ true)
    × (at ≡ pos + length (unlines before))
    × (n ≡ pos + length (unlines before) + length l + 1)

Span-later :
    (pos : ℕ) (l : Bytes) (ls : List Bytes) (f : Found)
    → NotEnd l
    → Span (pos + length l + 1) ls f
    → Span pos (l ∷ ls) f
unfolding unlines
Span-later pos l ls (n, none) h (e, k) =
    (omega (arith, e, length-append l (b'\n' ∷ unlines ls)), (h, k))
Span-later pos l ls (n, some at) h (before, x, later, e, k, last, p, q) = (
  l ∷ before,
  x,
  later,
  ap (◌∷◌ l) e,
  (h, k),
  last,
  omega (arith, p, length-append l (b'\n' ∷ unlines before)),
  omega (arith, q, length-append l (b'\n' ∷ unlines before)),
)

pub walk-Span : (pos : ℕ) (ls : List Bytes) → Span pos ls (walk pos ls)
unfolding walk
walk-Span pos [] = unfold unlines in (omega arith, tt)
walk-Span pos (l ∷ ls) = elim (Bool-cases (is_end_of_data (strip_cr l))) [
  | inl last ↦ rw last (unfold unlines in ([], l, ls, refl, tt, last, omega arith, omega arith))
  | inr row ↦
      rw row
        (Span-later pos l ls (walk (pos + length l + 1) ls) row (walk-Span (pos + length l + 1) ls))
]
