-- ===== src/Copy/Rows/Whole.antt =====
-- src/copy.rs: what the iterator `Rows` yields is the text's lines, so a stream may be cut anywhere
-- and the parts decoded one by one, if the remainder of a part is carried into the next.
use rust_streamer_pgdb.Copy.Rows.{
  remainder, State, at_newline, rows, strip_cr, push_row, each_row, each_row_falls, collect,
}
use rust_streamer_pgdb.Lines.{split_lines, split_lines-Lacks, split_lines-cons, split_lines-append}
use rust_streamer_pgdb.Prelude.Loop.{loop, loop_done, loop_more}
use rust_streamer_pgdb.Prelude.{
  first_occurrence, length-append, drop-append_cons, take-append_self, ℕ, zero, suc, ◌<◌, ◌≡◌, ap,
  ◌∙◌, Option, none, some, List, [], ◌∷◌, ◌++◌, map, map-append, append_assoc, append-nil, arith,
  length, Bytes, Memchr, first_index, first_index-append, Lacks-first_index, Lacks, inl, inr,
}

module _ ⦃m : Memchr⦄ where
  abbrev run : List Bytes → Bytes → State
  run acc s = loop (λ (t : State). length t.1.rest) each_row each_row_falls (acc, rows s)

  -- Without a newline the iterator ends; else it goes on behind the newline.
  run-at_newline :
      (acc : List Bytes) (s : Bytes) (o : Option ℕ)
      → first_index b'\n' s ≡ o
      → each_row (acc, rows s) ≡ push_row acc (at_newline o s)
  unfolding each_row
  run-at_newline acc s o e = ap (λ o'. push_row acc (at_newline o' s)) (m.memchr_first b'\n' s ∙ e)

  run_last : (acc : List Bytes) (s : Bytes) → Lacks b'\n' s → run acc s ≡ (acc, rows s)
  run_last acc s h =
      loop_done _ each_row each_row_falls (acc, rows s) (acc, rows s)
        (run-at_newline acc s none (Lacks-first_index b'\n' s h))

  run_first :
      (acc : List Bytes) (p s : Bytes)
      → Lacks b'\n' p
      → run acc (p ++ b'\n' ∷ s) ≡ run (acc ++ strip_cr p ∷ []) s
  run_first acc p s h =
      loop_more _ each_row each_row_falls (acc, rows (p ++ b'\n' ∷ s))
        (acc ++ strip_cr p ∷ [], rows s)
        (run-at_newline acc _ (some (length p)) (first_index-append b'\n' p s h)
          ∙ rw (take-append_self p (b'\n' ∷ s), drop-append_cons p b'\n' s))

  run-split_lines :
      (k : ℕ) (acc : List Bytes) (s : Bytes)
      → length s < k
      → run acc s ≡ (acc ++ map strip_cr (split_lines s).0, rows (split_lines s).1)
  run-split_lines zero acc s h = absurd (omega arith)
  run-split_lines (suc k) acc s h = elim (first_occurrence b'\n' s) [
    | inl l ↦ run_last acc s l ∙ rw (split_lines-Lacks s l, append-nil)
    | inr (p, t, l, e) ↦
        rw (e, split_lines-cons p t l)
          (run_first acc p t l
            ∙ run-split_lines k (acc ++ strip_cr p ∷ []) t
                (omega (arith, ap length e, length-append p (b'\n' ∷ t)))
            ∙ rw append_assoc)
  ]

  -- The iterator yields the complete lines of the chunk in order, each without one trailing
  -- carriage return, and its remainder is what stands behind the last newline.
  pub collect-split_lines :
      (s : Bytes) → collect s ≡ (map strip_cr (split_lines s).0, rows (split_lines s).1)
  collect-split_lines s = unfold collect in run-split_lines (suc (length s)) [] s (omega arith)

  -- A chunk may be cut at any byte: its rows are the rows of the first part, and then the rows of
  -- the first part's remainder followed by the second part.
  pub collect-append :
      (a b : Bytes)
      → collect (a ++ b) ≡ (
        (collect a).0 ++ (collect (remainder (collect a).1 ++ b)).0,
        (collect (remainder (collect a).1 ++ b)).1,
      )
  collect-append a b =
      rw
        (
          collect-split_lines a,
          collect-split_lines (a ++ b),
          collect-split_lines ((split_lines a).1 ++ b),
          split_lines-append a b,
        )
        (rw map-append)
