-- ===== src/Scan/Scanner/Chunks.antt =====
-- src/scan.rs: whole calls of `feed`. The rows it hands on are compared as rows, since the code cuts
-- them into slices as the chunks happen to lie.
use rust_streamer_pgdb.Prelude.{
  append_assoc, drop, ◌+◌, suc, take, first_index-SplitsAt, first_index-Lacks, ◌≢◌, All-append, ap₂,
  ◌++◌, length, first_index, sym, ap, ◌∙◌, refl, ◌∷◌, ℕ, Bool-cases, subst, Option, [], Lacks, ◌≡◌,
  is_empty, Memchr, Bytes, List, true, none, some, inl, inr, arith,
}
use rust_streamer_pgdb.Scan.Scanner.{Fed, State, sql, copy, Event, Scanner}
use rust_streamer_pgdb.Error.{ok, err, Result}
use rust_streamer_pgdb.Scan.Scanner.Feed.{
  completed_line, feed_round_falls, copy_round, feed_pending, feed_loop, round_at, feed_behind,
  keep_rest, Work, feed, feed_round,
}
use rust_streamer_pgdb.Scan.Scanner.Lines.{
  expand-append, in_front, settle, feed_lines, expand, read_lines, expand_fed,
}
use rust_streamer_pgdb.Scan.Scanner.Refines.{walk-Span, in_front-nil, Span}
use rust_streamer_pgdb.Lines.{
  split_lines-cons, split_lines_lack, unlines-split_lines, split_lines-Lacks, split_lines,
}
use rust_streamer_pgdb.Scan.Scanner.Rounds.{
  copy_ends, copy_goes_on, sql_ends, then_lines, sql_goes_on, after_lines, expand_work, Reads,
}
use rust_streamer_pgdb.Scan.{find_terminator}
use rust_streamer_pgdb.Prelude.Loop.{loop_induction, more, done}
use rust_streamer_pgdb.Scan.Terminator.{find_terminator-split_lines}
use rust_streamer_pgdb.Copy.Rows.{strip_cr}

keep_rest-after_lines :
    (es : List Event) (r : Bytes) (f : Fed)
    → keep_rest (after_lines es r f) ≡ settle r (in_front es f)
keep_rest-after_lines es r (err e) = refl
keep_rest-after_lines es r (ok (s, later)) =
    ap (λ t. ok (record s { pending = s.pending ++ r }, t)) (sym (expand-append es later))

expand-keep_rest : (x : Result Work) → expand_fed (keep_rest x) ≡ keep_rest (expand_work x)
expand-keep_rest (err e) = refl
expand-keep_rest (ok (s, es, r)) = refl

is_empty-nil : (s : Bytes) → is_empty s ≡ true → s ≡ []
is_empty-nil [] h = refl
is_empty-nil (c ∷ s) h = cc

module _ ⦃m : Memchr⦄ where
  -- Where the terminator is found, told by the lines.
  found-Span : (input : Bytes) → Span 0 (split_lines input).0 (find_terminator input)
  found-Span input =
      subst (Span 0 (split_lines input).0) (sym (find_terminator-split_lines input))
        (walk-Span 0 (split_lines input).0)

  round_ends :
      (st : State) (s : Scanner) (events : List Event) (input : Bytes) (x : Result Work)
      → s.state ≡ st
      → round_at st s events input ≡ done x
      → Reads (s, events, input) x
  round_ends sql s events input x c q =
      sql_ends s events input _ x c (sym (m.memchr_first b'\n' input)) q
  round_ends copy s events input x c q =
      let lines = split_lines input in
      let q' =
        subst (λ i. copy_round s events i (find_terminator input) ≡ done x)
          (sym (unlines-split_lines input)) q in
      copy_ends s events lines.0 lines.1 (find_terminator input) x c (split_lines_lack input).0
        (found-Span input) q'

  round_goes_on :
      (st : State) (s : Scanner) (events : List Event) (input : Bytes) (w : Work) (x : Result Work)
      → s.state ≡ st
      → round_at st s events input ≡ more w
      → Reads w x
      → Reads (s, events, input) x
  round_goes_on sql s events input w x c q later =
      sql_goes_on s events input _ w x c (sym (m.memchr_first b'\n' input)) q later
  round_goes_on copy s events input w x c q later =
      let lines = split_lines input in
      let q' =
        subst (λ i. copy_round s events i (find_terminator input) ≡ more w)
          (sym (unlines-split_lines input)) q in
      copy_goes_on s events lines.0 lines.1 (find_terminator input) w x c (split_lines_lack input).0
        (split_lines_lack input).1 (found-Span input) q' later

  feed_ends : (w : Work) (x : Result Work) → feed_round w ≡ done x → Reads w x
  unfolding feed_round
  feed_ends (s, events, input) x q = round_ends s.state s events input x refl q

  feed_goes_on : (w t : Work) (x : Result Work) → feed_round w ≡ more t → Reads t x → Reads w x
  unfolding feed_round
  feed_goes_on (s, events, input) t x q later =
      round_goes_on s.state s events input t x refl q later

  feed_loop-Reads : (w : Work) → Reads w (feed_loop w)
  feed_loop-Reads =
      loop_induction (λ (w : Work). length w.2) feed_round feed_round_falls Reads feed_ends
        feed_goes_on

  -- The loop on an input, behind some events.
  feed_loop-lines :
      (s : Scanner) (events : List Event) (input : Bytes)
      → expand_fed (keep_rest (feed_loop (s, events, input)))
        ≡ settle (split_lines input).1 (in_front events (read_lines s (split_lines input).0))
  feed_loop-lines s events input =
      expand-keep_rest (feed_loop (s, events, input))
      ∙ ap keep_rest (feed_loop-Reads (s, events, input))
      ∙ keep_rest-after_lines events (split_lines input).1 (read_lines s (split_lines input).0)

  -- The loop behind a line that was completed.
  feed_behind-lines :
      (f : Fed) (rest : Bytes)
      → expand_fed (feed_behind rest f)
        ≡ settle (split_lines rest).1 (then_lines f (split_lines rest).0)
  feed_behind-lines (err e) rest = refl
  feed_behind-lines (ok (s, es)) rest = feed_loop-lines s es rest

  feed_pending-lines :
      (s : Scanner) (chunk : Bytes) (o : Option ℕ)
      → Lacks b'\n' s.pending
      → first_index b'\n' chunk ≡ o
      → expand_fed (feed_pending s chunk o) ≡ feed_lines s chunk
  unfolding read_lines expand
  feed_pending-lines s chunk none h e =
      rw
        (split_lines-Lacks (s.pending ++ chunk)
          (All-append (λ c. c ≢ b'\n') s.pending chunk h (first_index-Lacks b'\n' chunk e)))
        refl
  feed_pending-lines s chunk (some nl) h e =
      let hit = first_index-SplitsAt b'\n' chunk nl e in
      let front : Bytes = s.pending ++ take nl chunk in
      let next : suc nl ≡ nl + 1 = omega arith in
      let text : s.pending ++ chunk ≡ front ++ b'\n' ∷ drop (nl + 1) chunk =
        ap (λ t. s.pending ++ t) (hit.splits ∙ ap (λ n. take nl chunk ++ b'\n' ∷ drop n chunk) next)
        ∙ sym (append_assoc s.pending (take nl chunk) (b'\n' ∷ drop (nl + 1) chunk)) in
      let lacks = All-append (λ c. c ≢ b'\n') s.pending (take nl chunk) h hit.lacks in
      rw (text, split_lines-cons front (drop (nl + 1) chunk) lacks)
        (feed_behind-lines (completed_line (record s { pending = [] }) (strip_cr front))
          (drop (nl + 1) chunk))

  -- A call of `feed` hands on what the scanner recognises line by line in what was pending and the
  -- chunk, or its error, and keeps what stands behind the last newline, if what was pending holds
  -- no newline. A run of rows counts as its rows, without carriage returns at their ends.
  pub feed-feed_lines :
      (s : Scanner) (chunk : Bytes)
      → Lacks b'\n' s.pending
      → expand_fed (feed s chunk) ≡ feed_lines s chunk
  unfolding feed
  feed-feed_lines s chunk h = elim (Bool-cases (is_empty s.pending)) [
    | inl nothing ↦
        let e = is_empty-nil s.pending nothing in
        let fresh : ◌≡◌ {A = Scanner} s (record s { pending = [] }) =
          ap (λ p. record s { pending = p }) e in
        rw nothing (
          feed_loop-lines s [] chunk
          ∙ ap (settle (split_lines chunk).1) (in_front-nil (read_lines s (split_lines chunk).0))
          ∙ ap₂
              (λ p t.
                settle (split_lines (p ++ chunk)).1 (read_lines t (split_lines (p ++ chunk)).0))
              (sym e) fresh)
    | inr something ↦
        rw something
          (feed_pending-lines s chunk (m.memchr b'\n' chunk) h (sym (m.memchr_first b'\n' chunk)))
  ]
