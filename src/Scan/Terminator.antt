-- ===== src/Scan/Terminator.antt =====
-- src/scan.rs: `find_terminator` is a walk along the lines, and finds the end of a block exactly
-- behind its rows.
use rust_streamer_pgdb.Copy.Field.{is_end_of_data}
use rust_streamer_pgdb.Copy.Rows.{strip_cr}
use rust_streamer_pgdb.Copy.DecodeRow.RoundTrip.{written_row}
use rust_streamer_pgdb.Copy.DecodeRow.Blocks.{
  is_end_of_data-written_row, rows-Lacks, strip_cr-written_row,
}
use rust_streamer_pgdb.Lines.{
  unlines-split_lines, split_lines, unlines, split_lines-Lacks, split_lines-cons,
  split_lines-append, split_lines-unlines,
}
use rust_streamer_pgdb.Prelude.Loop.{done, more, loop_done, loop_more}
use rust_streamer_pgdb.Scan.{
  Found, on_line, at_line, line_round, line_round_falls, find_from, find_terminator,
}
use rust_streamer_pgdb.Prelude.{
  ◌≤◌, ℕ, zero, suc, ◌+◌, ◌-◌, ◌<◌, ◌≡◌, Bool-cases, Option, none, some, Bytes, Memchr, List, [],
  ◌∷◌, ◌++◌, map, take, length, arith, Lacks, Lacks-first_index, first_index-append,
  first_occurrence, take-append_self, drop-append_self, length-append, append_assoc, sym, ap, ap₂,
  refl, ◌∙◌, inl, inr, if◌then◌else◌,
}

-- The walk along complete lines, from the place of the first.
unfoldable pub walk : ℕ → List Bytes → Found
walk pos [] = (pos, none)
walk pos (l ∷ ls) =
    let later = walk (pos + length l + 1) ls in
    if is_end_of_data (strip_cr l) then (pos + length l + 1, some pos) else later

module _ ⦃m : Memchr⦄ where
  round_last :
      (pre s : Bytes) → Lacks b'\n' s → line_round (pre ++ s) (length pre) ≡ done (length pre, none)
  unfolding line_round
  round_last pre s h =
      rw (drop-append_self pre s, m.memchr_first b'\n' s, Lacks-first_index b'\n' s h) refl

  round_line :
      (pre l t : Bytes)
      → Lacks b'\n' l
      → line_round (pre ++ (l ++ b'\n' ∷ t)) (length pre)
        ≡ on_line (is_end_of_data (strip_cr l)) (length pre) (length pre + length l)
  unfolding line_round
  round_line pre l t h =
      ap (at_line (pre ++ (l ++ b'\n' ∷ t)) (length pre)) (
        ap (m.memchr b'\n') (drop-append_self pre (l ++ b'\n' ∷ t))
        ∙ m.memchr_first b'\n' (l ++ b'\n' ∷ t)
        ∙ first_index-append b'\n' l t h)
      ∙ ap
          (λ x.
            on_line (is_end_of_data (strip_cr (take (length l) x))) (length pre)
              (length pre + length l))
          (drop-append_self pre (l ++ b'\n' ∷ t))
      ∙ ap (λ x. on_line (is_end_of_data (strip_cr x)) (length pre) (length pre + length l))
          (take-append_self l (b'\n' ∷ t))

  find_ends :
      (input : Bytes) (pos : ℕ) (x : Found)
      → line_round input pos ≡ done x
      → find_from input pos ≡ x
  find_ends input pos x h =
      loop_done (λ p. length input - p) (line_round input) (line_round_falls input) pos x h

  find_goes_on :
      (input : Bytes) (pos t : ℕ)
      → line_round input pos ≡ more t
      → find_from input pos ≡ find_from input t
  find_goes_on input pos t h =
      loop_more (λ p. length input - p) (line_round input) (line_round_falls input) pos t h

  find-walk :
      (k : ℕ) (pre s : Bytes)
      → length s < k
      → find_from (pre ++ s) (length pre) ≡ walk (length pre) (split_lines s).0
  unfolding walk
  find-walk zero pre s h = absurd (omega arith)
  find-walk (suc k) pre s h = elim (first_occurrence b'\n' s) [
    | inl l ↦
        find_ends (pre ++ s) (length pre) (length pre, none) (round_last pre s l)
        ∙ rw (split_lines-Lacks s l) refl
    | inr (p, t, l, e) ↦
        rw (e, split_lines-cons p t l)
          (elim (Bool-cases (is_end_of_data (strip_cr p))) [
            | inl last ↦ rw last (find_ends _ (length pre) _ (round_line pre p t l ∙ rw last refl))
            | inr row ↦
                let nl : Bytes = b'\n' ∷ [] in
                let regroup : pre ++ (p ++ b'\n' ∷ t) ≡ (pre ++ (p ++ nl)) ++ t =
                  ap (λ x. pre ++ x) (sym (append_assoc p nl t))
                  ∙ sym (append_assoc pre (p ++ nl) t) in
                let place : length pre + length p + 1 ≡ length (pre ++ (p ++ nl)) =
                  omega (arith, length-append pre (p ++ nl), length-append p nl) in
                let go =
                  find_goes_on _ (length pre) (length pre + length p + 1)
                    (round_line pre p t l ∙ rw row refl) in
                rw row (
                  go
                  ∙ ap (λ n. find_from (pre ++ (p ++ b'\n' ∷ t)) n) place
                  ∙ ap (λ x. find_from x (length (pre ++ (p ++ nl)))) regroup
                  ∙ find-walk k (pre ++ (p ++ nl)) t
                      (omega (arith, ap length e, length-append p (b'\n' ∷ t)))
                  ∙ ap (λ n. walk n (split_lines t).0) (sym place))
          ])
  ]

  -- The search by bytes is the walk along the complete lines of the input: it stops at the first
  -- line that ends a block, or behind the last complete line.
  pub find_terminator-split_lines :
      (input : Bytes) → find_terminator input ≡ walk 0 (split_lines input).0
  unfolding find_terminator
  find_terminator-split_lines input = find-walk (suc (length input)) [] input (omega arith)

  the_end : (n : ℕ) (ls : List Bytes) → walk (0 + n) ((b'\\' ∷ b'.' ∷ []) ∷ ls) ≡ (n + 3, some n)
  unfolding walk is_end_of_data strip_cr
  the_end n ls = ap₂ (λ a (b : ℕ). (a, some b)) (omega arith) (omega arith)

  walk-rows :
      (pos : ℕ) (rs : List (List (Option Bytes))) (ls : List Bytes)
      → walk pos (map written_row rs ++ ls) ≡ walk (pos + length (unlines (map written_row rs))) ls
  unfolding walk unlines
  walk-rows pos [] ls = ap (λ n. walk n ls) (omega arith)
  walk-rows pos (r ∷ rs) ls =
      rw (strip_cr-written_row r, is_end_of_data-written_row r)
        (walk-rows (pos + length (written_row r) + 1) rs ls
          ∙ ap (λ n. walk n ls)
              (omega (arith, length-append (written_row r) (b'\n' ∷ unlines (map written_row rs)))))

  block_lines :
      (rs : List (List (Option Bytes))) (rest : Bytes)
      → (split_lines (unlines (map written_row rs) ++ (b'\\' ∷ b'.' ∷ b'\n' ∷ rest))).0
        ≡ map written_row rs ++ ((b'\\' ∷ b'.' ∷ []) ∷ (split_lines rest).0)
  block_lines rs rest =
      let tail : Bytes = b'\\' ∷ b'.' ∷ b'\n' ∷ rest in
      let one : (split_lines tail).0 ≡ (b'\\' ∷ b'.' ∷ []) ∷ (split_lines rest).0 =
        ap (λ (x : List Bytes × Bytes). x.0)
          (split_lines-cons (b'\\' ∷ b'.' ∷ []) rest (omega arith, (omega arith, tt))) in
      rw
        (
          split_lines-append (unlines (map written_row rs)) tail,
          split_lines-unlines (map written_row rs) (rows-Lacks rs),
        )
        (ap (λ xs. map written_row rs ++ xs) one)

  -- In a written block of any rows, followed by the line `\.` and anything, the terminator is found
  -- exactly behind the rows, and what is consumed ends behind its newline.
  pub find_terminator-written_row :
      (rs : List (List (Option Bytes))) (rest : Bytes)
      → find_terminator (unlines (map written_row rs) ++ (b'\\' ∷ b'.' ∷ b'\n' ∷ rest))
        ≡ (length (unlines (map written_row rs)) + 3, some (length (unlines (map written_row rs))))
  find_terminator-written_row rs rest =
      find_terminator-split_lines (unlines (map written_row rs) ++ (b'\\' ∷ b'.' ∷ b'\n' ∷ rest))
      ∙ ap (walk 0) (block_lines rs rest)
      ∙ walk-rows 0 rs ((b'\\' ∷ b'.' ∷ []) ∷ (split_lines rest).0)
      ∙ the_end (length (unlines (map written_row rs))) (split_lines rest).0

-- A walk that finds the line has passed it, and stays in the text.
walk_passes :
    (pos : ℕ) (ls : List Bytes) (at : ℕ)
    → (walk pos ls).1 ≡ some at
    → (pos < (walk pos ls).0) × ((walk pos ls).0 ≤ pos + length (unlines ls))
unfolding walk unlines
walk_passes pos [] at h = cc
walk_passes pos (l ∷ ls) at h = elim (Bool-cases (is_end_of_data (strip_cr l))) [
  | inl last ↦ rw last (omega (arith, length-append l (b'\n' ∷ unlines ls)))
  | inr row ↦
      let later = walk_passes (pos + length l + 1) ls at (rw row at h) in
      rw row (omega (arith, later, length-append l (b'\n' ∷ unlines ls)))
]

module _ ⦃m : Memchr⦄ where
  pub find_terminator-consumed :
      (input : Bytes) (at : ℕ)
      → (find_terminator input).1 ≡ some at
      → (0 < (find_terminator input).0) × ((find_terminator input).0 ≤ length input)
  find_terminator-consumed input at h =
      let e = find_terminator-split_lines input in
      let w = walk_passes 0 (split_lines input).0 at (ap (λ (f : Found). f.1) (sym e) ∙ h) in
      let whole = unlines-split_lines input in
      omega (
        arith,
        w,
        ap (λ (f : Found). f.0) e,
        ap length whole,
        length-append (unlines (split_lines input).0) (split_lines input).1,
      )
