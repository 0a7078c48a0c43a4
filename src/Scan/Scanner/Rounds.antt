-- ===== src/Scan/Scanner/Rounds.antt =====
-- src/scan.rs: the loop of `feed`, round by round, reads the lines of its input.
use rust_streamer_pgdb.Prelude.{
  drop-append_self, ap₂, length-append, length, map, arith, suc, append-nil, [],
  first_index-SplitsAt, first_index-Lacks, ◌+◌, append_assoc, drop, refl, ◌∙◌, sym, subst, take, ap,
  Lacks, All, first_index, ◌∷◌, ℕ, ◌++◌, Option, ◌≡◌, List, Bytes, true, none, some,
}
use rust_streamer_pgdb.Scan.Scanner.{close_copy, sql_line, Scanner, Fed, sql, copy, Event}
use rust_streamer_pgdb.Scan.Scanner.Feed.{
  rows_to, copy_round, completed_at, sql_round, carry_on, Work,
}
use rust_streamer_pgdb.Lines.{
  split_lines-parts, split_lines-cons, split_lines-Lacks, split_lines, unlines,
}
use rust_streamer_pgdb.Scan.Scanner.Lines.{expand-append, in_front, expand, read_lines}
use rust_streamer_pgdb.Error.{err, ◌>>=◌, ok, Result}
use rust_streamer_pgdb.Scan.{Found}
use rust_streamer_pgdb.Prelude.Loop.{done, more}
use rust_streamer_pgdb.Copy.Rows.{strip_cr}
use rust_streamer_pgdb.Scan.Scanner.Refines.{
  read_end, expand-rows, read_rows, expand-rows_to, row, NotEnd, Span,
}
use rust_streamer_pgdb.Copy.Field.{is_end_of_data}

abbrev pub expand_work : Result Work → Result Work
expand_work (ok (s, es, r)) = ok (s, expand es, r)
expand_work (err e) = err e

abbrev pub after_lines : List Event → Bytes → Fed → Result Work
after_lines events rest (ok (s, es)) = ok (s, expand events ++ expand es, rest)
after_lines events rest (err e) = err e

-- What the loop gives from a state on.
abbrev pub Reads : Work → Result Work → Type 0
Reads (s, events, input) x =
    expand_work x ≡ after_lines events (split_lines input).1 (read_lines s (split_lines input).0)

-- Events of the lines count with the events in front of them.
after_lines-in_front :
    (events es : List Event) (rest : Bytes) (f : Fed)
    → after_lines events rest (in_front es f) ≡ after_lines (events ++ es) rest f
after_lines-in_front events es rest (err e) = refl
after_lines-in_front events es rest (ok (s, later)) =
    ap (λ t. ok (s, t, rest))
      (ap (λ t. expand events ++ t) (expand-append es later)
        ∙ sym (append_assoc (expand events) (expand es) (expand later))
        ∙ ap (λ t. t ++ expand later) (sym (expand-append events es)))

pub after_lines_cong :
    (xs ys : List Event) (rest : Bytes) (f : Fed)
    → expand xs ≡ expand ys
    → after_lines xs rest f ≡ after_lines ys rest f
after_lines_cong xs ys rest (err e) h = refl
after_lines_cong xs ys rest (ok (s, later)) h = ap (λ t. ok (s, t ++ expand later, rest)) h

-- The input up to its first newline, and behind it.
first_line :
    (input : Bytes) (nl : ℕ)
    → first_index b'\n' input ≡ some nl
    → split_lines input ≡ (
      take nl input ∷ (split_lines (drop (nl + 1) input)).0,
      (split_lines (drop (nl + 1) input)).1,
    )
first_line input nl h =
    let hit = first_index-SplitsAt b'\n' input nl h in
    let next : suc nl ≡ nl + 1 = omega arith in
    ap split_lines hit.splits
    ∙ split_lines-cons (take nl input) (drop (suc nl) input) hit.lacks
    ∙ ap (λ n. (take nl input ∷ (split_lines (drop n input)).0, (split_lines (drop n input)).1))
        next

-- A line of SQL, and the lines behind it.
abbrev pub then_lines : Fed → List Bytes → Fed
then_lines f ls = f >>= λ r. in_front r.1 (read_lines r.0 ls)

read_sql :
    (s : Scanner) (l : Bytes) (ls : List Bytes)
    → s.state ≡ sql
    → read_lines s (l ∷ ls) ≡ then_lines (sql_line s (strip_cr l)) ls
unfolding read_lines
read_sql s l ls c = ap (λ st. then_lines (completed_at st s (strip_cr l)) ls) c

carry_on_ends :
    (events : List Event) (t r : Bytes) (ls : List Bytes) (f : Fed) (x : Result Work)
    → carry_on events t f ≡ done x
    → expand_work x ≡ after_lines events r (then_lines f ls)
carry_on_ends events t r ls (ok (s, es)) x q = cc
carry_on_ends events t r ls (err e) x q =
    let same : ◌≡◌ {A = Result Work} (err e) x = cc in ap expand_work (sym same)

carry_on_goes_on :
    (events : List Event) (t : Bytes) (f : Fed) (w : Work) (x : Result Work)
    → carry_on events t f ≡ more w
    → Reads w x
    → expand_work x ≡ after_lines events (split_lines t).1 (then_lines f (split_lines t).0)
carry_on_goes_on events t (err e) w x q later = cc
carry_on_goes_on events t (ok (s, es)) w x q later =
    let same : ◌≡◌ {A = Work} (s, events ++ es, t) w = cc in
    let now : Reads (s, events ++ es, t) x = subst (λ v. Reads v x) (sym same) later in
    now ∙ sym (after_lines-in_front events es (split_lines t).1 (read_lines s (split_lines t).0))

pub sql_ends :
    (s : Scanner) (events : List Event) (input : Bytes) (o : Option ℕ) (x : Result Work)
    → s.state ≡ sql
    → first_index b'\n' input ≡ o
    → sql_round s events input o ≡ done x
    → Reads (s, events, input) x
unfolding read_lines expand
sql_ends s events input none x c e q =
    let same : ◌≡◌ {A = Result Work} (ok (s, events, input)) x = cc in
    rw (split_lines-Lacks input (first_index-Lacks b'\n' input e))
      (ap expand_work (sym same) ∙ ap (λ t. ok (s, t, input)) (sym (append-nil (expand events))))
sql_ends s events input (some nl) x c e q = rw (first_line input nl e) (
    carry_on_ends events (drop (nl + 1) input) (split_lines (drop (nl + 1) input)).1
      (split_lines (drop (nl + 1) input)).0 (sql_line s (strip_cr (take nl input))) x q
    ∙ ap (after_lines events (split_lines (drop (nl + 1) input)).1)
        (sym (read_sql s (take nl input) (split_lines (drop (nl + 1) input)).0 c)))

pub sql_goes_on :
    (s : Scanner) (events : List Event) (input : Bytes) (o : Option ℕ) (w : Work) (x : Result Work)
    → s.state ≡ sql
    → first_index b'\n' input ≡ o
    → sql_round s events input o ≡ more w
    → Reads w x
    → Reads (s, events, input) x
sql_goes_on s events input none w x c e q later = cc
sql_goes_on s events input (some nl) w x c e q later = rw (first_line input nl e) (
    carry_on_goes_on events (drop (nl + 1) input) (sql_line s (strip_cr (take nl input))) w x q
      later
    ∙ ap (after_lines events (split_lines (drop (nl + 1) input)).1)
        (sym (read_sql s (take nl input) (split_lines (drop (nl + 1) input)).0 c)))

unlines-append : (xs ys : List Bytes) → unlines (xs ++ ys) ≡ unlines xs ++ unlines ys
unfolding unlines
unlines-append [] ys = refl
unlines-append (l ∷ xs) ys =
    ap (λ t. l ++ b'\n' ∷ t) (unlines-append xs ys)
    ∙ sym (append_assoc l (b'\n' ∷ unlines xs) (unlines ys))

-- The rows of a slice, behind events, are the rows of its lines.
rows_behind :
    (events : List Event) (ls : List Bytes) (r : Bytes)
    → All (Lacks b'\n') ls
    → expand (events ++ rows_to (unlines ls ++ r) (length (unlines ls)))
      ≡ expand (events ++ map row ls)
rows_behind events ls r k =
    expand-append events (rows_to (unlines ls ++ r) (length (unlines ls)))
    ∙ ap (λ t. expand events ++ t) (expand-rows_to ls r k ∙ sym (expand-rows ls k))
    ∙ sym (expand-append events (map row ls))

pub copy_ends :
    (s : Scanner) (events : List Event) (ls : List Bytes) (r : Bytes) (f : Found) (x : Result Work)
    → s.state ≡ copy
    → All (Lacks b'\n') ls
    → Span 0 ls f
    → copy_round s events (unlines ls ++ r) f ≡ done x
    → expand_work x ≡ after_lines events r (read_lines s ls)
unfolding read_lines expand
copy_ends s events ls r (n, some at) x c k sp q = cc
copy_ends s events ls r (n, none) x c k (e, h) q =
    let input : Bytes = unlines ls ++ r in
    let same : ◌≡◌ {A = Result Work} (ok (s, events ++ rows_to input n, drop n input)) x = cc in
    let whole : n ≡ length (unlines ls) = omega (arith, e) in
    let rows : read_lines s ls ≡ in_front (map row ls) (ok (s, [])) =
      ap (read_lines s) (sym (append-nil ls)) ∙ read_rows s ls [] c h in
    ap expand_work (sym same)
    ∙ ap (λ j. ok (s, expand (events ++ rows_to input j), drop j input)) whole
    ∙ ap₂ (λ t u. ok (s, t, u)) (rows_behind events ls r k) (drop-append_self (unlines ls) r)
    ∙ ap (λ t. ok (s, t, r)) (sym (append-nil (expand (events ++ map row ls))))
    ∙ sym (after_lines-in_front events (map row ls) r (ok (s, [])))
    ∙ ap (after_lines events r) (sym rows)

All-front : (xs ys : List Bytes) → All (Lacks b'\n') (xs ++ ys) → All (Lacks b'\n') xs
All-front [] ys h = tt
All-front (x ∷ xs) ys h = (h.0, All-front xs ys h.1)

All-behind : (xs ys : List Bytes) → All (Lacks b'\n') (xs ++ ys) → All (Lacks b'\n') ys
All-behind [] ys h = h
All-behind (x ∷ xs) ys h = All-behind xs ys h.1

-- The input of a block that ends, by the rows, the line that ends it and the rest.
block_parts :
    (before : List Bytes) (l : Bytes) (rest : List Bytes) (r : Bytes)
    → unlines (before ++ l ∷ rest) ++ r ≡ unlines before ++ (l ++ b'\n' ∷ (unlines rest ++ r))
block_parts before l rest r =
    ap (λ t. t ++ r) (unlines-append before (l ∷ rest))
    ∙ append_assoc (unlines before) (unlines (l ∷ rest)) r
    ∙ (unfold unlines in ap (λ t. unlines before ++ t) (append_assoc l (b'\n' ∷ unlines rest) r))

behind_end : (a l t : Bytes) → drop (length a + length l + 1) (a ++ (l ++ b'\n' ∷ t)) ≡ t
behind_end a l t =
    let line : Bytes = l ++ b'\n' ∷ [] in
    let n : length a + length l + 1 ≡ length (a ++ line) =
      omega (arith, length-append a line, length-append l (b'\n' ∷ [])) in
    let text : a ++ (l ++ b'\n' ∷ t) ≡ (a ++ line) ++ t =
      ap (λ u. a ++ u) (sym (append_assoc l (b'\n' ∷ []) t)) ∙ sym (append_assoc a line t) in
    ap₂ drop n text ∙ drop-append_self (a ++ line) t

-- The events up to the end of a block.
block_events : Scanner → List Event → List Bytes → List Event
block_events s events before = (events ++ map row before) ++ (close_copy s).1

block_closes :
    (s : Scanner) (events : List Event) (before : List Bytes) (l : Bytes) (rest : List Bytes)
    (r : Bytes) (w : Work) (x : Result Work)
    → s.state ≡ copy
    → All (Lacks b'\n') (before ++ l ∷ rest)
    → Lacks b'\n' r
    → All NotEnd before
    → is_end_of_data (strip_cr l) ≡ true
    → copy_round s events
        (unlines (before ++ l ∷ rest) ++ r)
        (length (unlines before) + length l + 1, some (length (unlines before)))
      ≡ more w
    → Reads w x
    → expand_work x ≡ after_lines events r (read_lines s (before ++ l ∷ rest))
unfolding block_events
block_closes s events before l rest r w x c k kr h last q later =
    let closed = close_copy s in
    let input : Bytes = unlines (before ++ l ∷ rest) ++ r in
    let tail : Bytes = l ++ b'\n' ∷ (unlines rest ++ r) in
    let parts : input ≡ unlines before ++ tail = block_parts before l rest r in
    let rows = events ++ rows_to input (length (unlines before)) in
    let left = drop (length (unlines before) + length l + 1) input in
    let same : ◌≡◌ {A = Work} (closed.0, rows ++ closed.1, left) w = cc in
    let now : Reads (closed.0, rows ++ closed.1, left) x =
      subst (λ v. Reads v x) (sym same) later in
    let split : split_lines left ≡ (rest, r) =
      ap split_lines (
        ap (drop (length (unlines before) + length l + 1)) parts
        ∙ behind_end (unlines before) l (unlines rest ++ r))
      ∙ split_lines-parts rest r (All-behind before (l ∷ rest) k).1 kr in
    let told : expand rows ≡ expand (events ++ map row before) =
      ap (λ i. expand (events ++ rows_to i (length (unlines before)))) parts
      ∙ rows_behind events before tail (All-front before (l ∷ rest) k) in
    let all_told : expand (rows ++ closed.1) ≡ expand (block_events s events before) =
      expand-append rows closed.1
      ∙ ap (λ t. t ++ expand closed.1) told
      ∙ sym (expand-append (events ++ map row before) closed.1) in
    now
    ∙ ap (λ (t : List Bytes × Bytes). after_lines (rows ++ closed.1) t.1 (read_lines closed.0 t.0))
        split
    ∙ after_lines_cong (rows ++ closed.1) (block_events s events before) r
        (read_lines closed.0 rest) all_told
    ∙ sym (after_lines-in_front (events ++ map row before) closed.1 r (read_lines closed.0 rest))
    ∙ sym (
        after_lines-in_front events (map row before) r
          (in_front closed.1 (read_lines closed.0 rest)))
    ∙ ap (after_lines events r) (
        ap (in_front (map row before)) (sym (read_end s l rest c last))
        ∙ sym (read_rows s before (l ∷ rest) c h))

pub copy_goes_on :
    (s : Scanner) (events : List Event) (ls : List Bytes) (r : Bytes) (f : Found) (w : Work)
    (x : Result Work)
    → s.state ≡ copy
    → All (Lacks b'\n') ls
    → Lacks b'\n' r
    → Span 0 ls f
    → copy_round s events (unlines ls ++ r) f ≡ more w
    → Reads w x
    → expand_work x ≡ after_lines events r (read_lines s ls)
copy_goes_on s events ls r (n, none) w x c k kr sp q later = cc
copy_goes_on s events ls r (n, some at) w x c k kr (before, l, rest, e, h, last, p, d) q later =
    let at_rows : at ≡ length (unlines before) = omega (arith, p) in
    let behind : n ≡ length (unlines before) + length l + 1 = omega (arith, d) in
    let moved =
      subst
        (λ (t : List Bytes).
          copy_round s events (unlines t ++ r)
            (length (unlines before) + length l + 1, some (length (unlines before)))
          ≡ more w)
        e
        (subst
          (λ j. copy_round s events (unlines ls ++ r) (j, some (length (unlines before))) ≡ more w)
          behind
          (subst (λ j. copy_round s events (unlines ls ++ r) (n, some j) ≡ more w) at_rows q)) in
    subst (λ (t : List Bytes). expand_work x ≡ after_lines events r (read_lines s t)) (sym e)
      (block_closes s events before l rest r w x c (subst (All (Lacks b'\n')) e k) kr h last moved
        later)
