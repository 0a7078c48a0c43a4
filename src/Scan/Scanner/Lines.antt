-- ===== src/Scan/Scanner/Lines.antt =====
-- src/scan.rs: what the scanner does, told line by line. The code hands on runs of rows as slices of
-- its input; here each row is an event of its own, without carriage returns at its end.
use rust_streamer_pgdb.Prelude.{
  ==_iff, if◌then◌else◌, Option, ◌⊎◌, append_assoc, zero, sym, ◌-◌, arith, refl, suc, length, ◌∙◌,
  Bool-cases, [], ap, take, map, last?, ◌==◌, ◌∷◌, ◌++◌, Lacks, ◌≡◌, ℕ, List, Bytes, none, some,
  inl, inr,
}
use rust_streamer_pgdb.Scan.Scanner.{
  Fed, Scanner, Event, dump_version, table, copy_start, copy_rows, copy_end,
}
use rust_streamer_pgdb.Copy.Rows.{strip_cr}
use rust_streamer_pgdb.Prelude.Ascii.{trim_end_matches}
use rust_streamer_pgdb.Lines.{split_lines}
use rust_streamer_pgdb.Error.{◌>>=◌, err, ok}
use rust_streamer_pgdb.Scan.Scanner.Feed.{completed_line}

-- A line without the carriage returns at its end.
abbrev pub bare : Bytes → Bytes
bare l = trim_end_matches (λ c. c == b'\r') l

abbrev pub one_row : Bytes → Event
one_row l = copy_rows (bare l ++ b'\n' ∷ [])

unfoldable pub expand_event : Event → List Event
expand_event (copy_rows r) = map one_row (split_lines r).0
expand_event (dump_version d f) = dump_version d f ∷ []
expand_event (table d) = table d ∷ []
expand_event (copy_start n cs) = copy_start n cs ∷ []
expand_event (copy_end n) = copy_end n ∷ []

-- The events, with each run of rows taken apart.
unfoldable pub expand : List Event → List Event
expand [] = []
expand (e ∷ es) = expand_event e ++ expand es

abbrev pub expand_fed : Fed → Fed
expand_fed (ok (s, es)) = ok (s, expand es)
expand_fed (err e) = err e

-- The events of a step go in front of those of the steps behind it.
abbrev pub in_front : List Event → Fed → Fed
in_front es (ok (s, later)) = ok (s, es ++ later)
in_front es (err e) = err e

-- The scanner on a list of whole lines.
unfoldable pub read_lines : Scanner → List Bytes → Fed
read_lines s [] = ok (s, [])
read_lines s (l ∷ ls) = completed_line s (strip_cr l) >>= λ r. in_front r.1 (read_lines r.0 ls)

-- The rest of the text behind its lines is kept for the next chunk.
abbrev pub settle : Bytes → Fed → Fed
settle rest (ok (s, es)) = ok (record s { pending = s.pending ++ rest }, expand es)
settle rest (err e) = err e

-- A chunk, told by the lines of what was pending and the chunk.
abbrev pub feed_lines : Scanner → Bytes → Fed
feed_lines s chunk =
    settle (split_lines (s.pending ++ chunk)).1
      (read_lines (record s { pending = [] }) (split_lines (s.pending ++ chunk)).0)

pub expand-append : (xs ys : List Event) → expand (xs ++ ys) ≡ expand xs ++ expand ys
unfolding expand
expand-append [] ys = refl
expand-append (e ∷ xs) ys =
    ap (λ t. expand_event e ++ t) (expand-append xs ys)
    ∙ sym (append_assoc (expand_event e) (expand xs) (expand ys))

-- A trailing carriage return more or less makes no difference.
bare-snoc : (s : Bytes) → bare (s ++ b'\r' ∷ []) ≡ bare s
unfolding trim_end_matches
bare-snoc [] = refl
bare-snoc (c ∷ s) = rw (bare-snoc s) refl

last?-some : (s : Bytes) (c : ℕ) → last? s ≡ some c → s ≡ take (length s - 1) s ++ c ∷ []
last?-some [] c h = cc
last?-some (x ∷ []) c h = ground arith
last?-some (x ∷ y ∷ s) c h =
    let ih = last?-some (y ∷ s) c h in
    let n : suc (length (y ∷ s)) - 1 ≡ suc (length (y ∷ s) - 1) = omega arith in
    rw n (ap (◌∷◌ x) ih)

strip_cr-cases :
    (s : Bytes) → (strip_cr s ≡ s) ⊎ ((strip_cr s ≡ take (length s - 1) s) × (last? s ≡ some b'\r'))
unfolding strip_cr
strip_cr-cases s = by_last (last? s) refl
  where
    by_last :
        (o : Option ℕ)
        → last? s ≡ o
        → ((elim o [ none ↦ s | some c ↦ (if c == b'\r' then take (length s - 1) s else s) ]) ≡ s)
          ⊎ (((elim o [ none ↦ s | some c ↦ (if c == b'\r' then take (length s - 1) s else s) ])
                ≡ take (length s - 1) s)
              × (last? s ≡ some b'\r'))
    by_last none e = inl refl
    by_last (some c) e = elim (Bool-cases (c == b'\r')) [
      | inl cr ↦ inr (rw cr refl, e ∙ ap some ((==_iff c b'\r').0 cr))
      | inr other ↦ inl (rw other refl)
    ]

pub bare-strip_cr : (s : Bytes) → bare (strip_cr s) ≡ bare s
bare-strip_cr s = elim (strip_cr-cases s) [
  | inl same ↦ ap bare same
  | inr (cut, e) ↦
      ap bare cut ∙ sym (bare-snoc (take (length s - 1) s)) ∙ ap bare (sym (last?-some s b'\r' e))
]

take-Lacks : (n : ℕ) (s : Bytes) → Lacks b'\n' s → Lacks b'\n' (take n s)
take-Lacks zero s h = tt
take-Lacks (suc n) [] h = tt
take-Lacks (suc n) (c ∷ s) h = (h.0, take-Lacks n s h.1)

pub strip_cr-Lacks : (s : Bytes) → Lacks b'\n' s → Lacks b'\n' (strip_cr s)
strip_cr-Lacks s h = elim (strip_cr-cases s) [
  | inl same ↦ rw same h
  | inr (cut, e) ↦ rw cut (take-Lacks (length s - 1) s h)
]
