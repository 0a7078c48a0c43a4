-- ===== src/Dump/ChunkReader/Run.antt =====
-- src/dump.rs: a whole call of `next_chunk`, and the calls until the stream is drained.
use native.Mathlib.Decide.{dec_lt}
use rust_streamer_pgdb.Dump.ChunkReader.NextChunk.{at_newline}
use rust_streamer_pgdb.Prelude.{
  refl, flatten, last?, ◌∷◌, [], List, take-drop, take-take, take-append_below, length-drop, ◌∙◌,
  length-take, none, inr, drop, ◌++◌,
}
use rust_streamer_pgdb.Prelude.{
  ap, ◌==◌, ◌-◌, length-append, take, false, inl, sym, true, ◌*◌, subst, ltb, some, length, min,
  arith, Bool-cases, ◌≤◌, Option, ◌≡◌, ◌<◌, Bytes, Bool, ℕ, Memchr,
}
use rust_streamer_pgdb.Dump.Reader.{Reader}
use rust_streamer_pgdb.Dump.ChunkReader.NextChunk.{
  doubled, chunk_round_falls, chunk_loop, Chunk, without_newline, chunk_round, next_chunk, grow,
  Ready, on_filled,
}
use rust_streamer_pgdb.Dump.ChunkReader.{with_limits, fill_same, fill, Filled, ChunkReader, carry}
use rust_streamer_pgdb.Dump.ChunkReader.Fill.{fill-FillsWell, FillsWell, held_stream, IsValid}
use rust_streamer_pgdb.Prelude.Loop.{loop_induction, more, done}
use rust_streamer_pgdb.Dump.ChunkReader.Splits.{EndsLine, filled_ends, stream, Outcome}
use rust_streamer_pgdb.Error.{ok, err}

-- Every chunk holds whole lines, but the last may lack its newline.
abbrev pub WholeLines : List Bytes → Type 0
WholeLines [] = Unit
WholeLines (c ∷ []) = Unit
WholeLines (c ∷ d ∷ cs) = (last? c ≡ some b'\n') × WholeLines (d ∷ cs)

front_empty : (x y : Bytes) → x ++ y ≡ [] → x ≡ []
front_empty [] y e = refl
front_empty (b ∷ bs) y e = cc

module _ ⦃m : Memchr⦄ {R : Type 0} (source : Reader R) where
  open source use {read, unread, read_delivers, read_end}

  -- What the loop does from a reader that has consumed nothing.
  abbrev Cuts : Ready R → Chunk R → Type 0
  Cuts (r, p) x =
      IsValid source r → r.consumed ≡ 0 → Outcome source r.max_chunk (held_stream source r) x

  -- A round that goes on has doubled the target and nothing else.
  abbrev Doubles : ChunkReader R → Ready R → Type 0
  Doubles r t =
      (t.0 ≡ record r { target = min (r.target * 2) r.max_chunk }) × (r.target < r.max_chunk)

  grow-Doubles :
      (r : ChunkReader R) (p : 0 < r.target) (d : Dec (r.target < r.max_chunk)) (t : Ready R)
      → grow r p d ≡ more t
      → Doubles r t
  unfolding grow
  grow-Doubles r p (no h) t q = cc
  grow-Doubles r p (yes h) t q =
      let same : ◌≡◌ {A = Ready R}
          (record r { target = min (r.target * 2) r.max_chunk }, doubled p h) t =
        cc in
      (sym (ap (λ (z : Ready R). z.0) same), h)

  without_newline-Doubles :
      (eof : Bool) (r : ChunkReader R) (p : 0 < r.target) (t : Ready R)
      → without_newline eof r p ≡ more t
      → Doubles r t
  unfolding without_newline
  without_newline-Doubles true r p t q = cc
  without_newline-Doubles false r p t q = grow-Doubles r p (dec_lt r.target r.max_chunk) t q

  at_newline-Doubles :
      (o : Option ℕ) (r : ChunkReader R) (p : 0 < r.target) (t : Ready R)
      → at_newline o r p ≡ more t
      → Doubles r t
  unfolding at_newline
  at_newline-Doubles (some nl) r p t q = cc
  at_newline-Doubles none r p t q = without_newline-Doubles r.eof r p t q

  doubled-IsValid :
      (r : ChunkReader R)
      → IsValid source r
      → IsValid source (record r { target = min (r.target * 2) r.max_chunk })
  doubled-IsValid r v = record {
    consumed_filled = v.consumed_filled;
    filled_buf = v.filled_buf;
    target_pos = omega (arith, v.target_pos, v.target_max);
    target_max = omega arith;
    at_end = v.at_end;
  }

  filled_goes_on :
      (r : ChunkReader R) (f : Filled source) (p : 0 < f.1.target) (t : Ready R) (x : Chunk R)
      → IsValid source r
      → r.consumed ≡ 0
      → FillsWell source r f
      → on_filled source f p ≡ more t
      → Cuts t x
      → Outcome source r.max_chunk (held_stream source r) x
  unfolding on_filled
  filled_goes_on r (err e, r') p t x v c k q later = cc
  filled_goes_on r (ok u, r') p t x v c k q later = elim (Bool-cases (r'.filled == 0)) [
    | inl nothing ↦ absurd (cc (rw nothing at q))
    | inr some_data ↦
        let f = k v in
        let step = at_newline-Doubles _ r' p t (rw some_data at q) in
        let ready : Outcome source t.0.max_chunk (held_stream source t.0) x =
          later (subst (IsValid source) (sym step.0) (doubled-IsValid r' f.valid))
            (ap (λ (z : ChunkReader R). z.consumed) step.0 ∙ f.same_consumed ∙ c) in
        subst (λ n. Outcome source n (held_stream source r) x)
          (ap (λ (z : ChunkReader R). z.max_chunk) step.0 ∙ f.same_max)
          (subst (λ s. Outcome source t.0.max_chunk s x) (ap (held_stream source) step.0 ∙ f.keeps)
            ready)
  ]

  -- The proof that the round hands on: filling leaves the target alone.
  abbrev filled_pos : (s : Ready R) → 0 < (fill source s.0).1.target
  filled_pos s = subst (λ n. 0 < n) (sym (fill_same source s.0).0) s.1

  chunk_ends : (s : Ready R) (x : Chunk R) → chunk_round source s ≡ done x → Cuts s x
  unfolding chunk_round
  chunk_ends s x q v c =
      filled_ends source s.0 (fill source s.0) (filled_pos s) x v (fill-FillsWell source s.0) q

  chunk_goes_on :
      (s t : Ready R) (x : Chunk R) → chunk_round source s ≡ more t → Cuts t x → Cuts s x
  unfolding chunk_round
  chunk_goes_on s t x q later v c =
      filled_goes_on s.0 (fill source s.0) (filled_pos s) t x v c (fill-FillsWell source s.0) q
        later

  chunk_loop-Cuts : (s : Ready R) → Cuts s (chunk_loop source s)
  chunk_loop-Cuts =
      loop_induction _ (chunk_round source) (chunk_round_falls source) Cuts chunk_ends chunk_goes_on

  carry-consumed : (r : ChunkReader R) → (carry r).consumed ≡ 0
  unfolding carry
  carry-consumed r = ground arith

  carry-max : (r : ChunkReader R) → (carry r).max_chunk ≡ r.max_chunk
  unfolding carry
  carry-max r = ground arith

  carry-IsValid : (r : ChunkReader R) → IsValid source r → IsValid source (carry r)
  unfolding carry
  carry-IsValid r v = elim (Bool-cases (ltb 0 r.consumed)) [
    | inl some_done ↦
        let moved =
          length-append (take (r.filled - r.consumed) (drop r.consumed r.buf))
            (drop (r.filled - r.consumed) r.buf) in
        rw some_done (record {
          consumed_filled = omega arith;
          filled_buf = omega (
            arith,
            v.filled_buf,
            moved,
            length-take (r.filled - r.consumed) (drop r.consumed r.buf),
            length-drop r.consumed r.buf,
          );
          target_pos = v.target_pos;
          target_max = v.target_max;
          at_end = v.at_end;
        })
    | inr nothing_done ↦ rw nothing_done v
  ]

  -- The bytes that move to the front are those behind `consumed`.
  moved_bytes :
      (n c : ℕ) (buf : Bytes)
      → n ≤ length buf
      → c ≤ n
      → take (n - c) (take (n - c) (drop c buf) ++ drop (n - c) buf) ≡ drop c (take n buf)
  moved_bytes n c buf h le =
      let front : length (take (n - c) (drop c buf)) ≡ n - c =
        omega (arith, length-take (n - c) (drop c buf), length-drop c buf) in
      take-append_below (n - c) (take (n - c) (drop c buf)) (drop (n - c) buf) (omega arith)
      ∙ take-take (n - c) (n - c) (drop c buf) (omega arith)
      ∙ take-drop n c buf le

  carry-held :
      (r : ChunkReader R) → IsValid source r → held_stream source (carry r) ≡ stream source r
  unfolding carry
  carry-held r v = elim (Bool-cases (ltb 0 r.consumed)) [
    | inl some_done ↦ rw some_done (
        ap (λ x. x ++ unread r.inner)
          (moved_bytes r.filled r.consumed r.buf v.filled_buf v.consumed_filled))
    | inr nothing_done ↦
        let zero_done : r.consumed ≡ 0 = ground arith in
        rw nothing_done (ap (λ n. drop n (take r.filled r.buf) ++ unread r.inner) (sym zero_done))
  ]

  -- A call on a well-formed reader returns, and what it returns is this. A chunk is not empty, it and
  -- what is still to be returned are what was to be returned before, it ends with a newline or is
  -- all that was left and has none, and the reader behind it is well formed under the same ceiling.
  -- `None` is returned only when nothing was left. An error is that of a read, or the refusal of a
  -- line of which at least the ceiling's number of bytes is held without a newline.
  pub next_chunk-Outcome :
      (r : ChunkReader R) (p : 0 < r.target)
      → IsValid source r
      → Outcome source r.max_chunk (stream source r) (next_chunk source r p)
  unfolding next_chunk
  next_chunk-Outcome r p v =
      let x = next_chunk source r p in
      let out = chunk_loop-Cuts (carry r, _) (carry-IsValid r v) (carry-consumed r) in
      subst (λ n. Outcome source n (stream source r) x) (carry-max r)
        (subst (λ s. Outcome source (carry r).max_chunk s x) (carry-held r v) out)

  -- A reader as it is made is well formed, and holds back nothing of its stream.
  pub with_limits-IsValid :
      (inner : R) (target max_chunk : ℕ) → IsValid source (with_limits inner target max_chunk)
  unfolding with_limits
  with_limits-IsValid inner target max_chunk = record {
    consumed_filled = omega arith;
    filled_buf = omega arith;
    target_pos = omega arith;
    target_max = omega arith;
    at_end = λ e. cc;
  }

  -- Calls of `next_chunk` up to the one that finds nothing, and the chunks they return.
  pub data Drains : ChunkReader R → List Bytes → Type 0 where
    drained :
        (r r' : ChunkReader R) (p : 0 < r.target)
        → next_chunk source r p ≡ (ok none, r')
        → Drains r []
    chunk :
        (r r' : ChunkReader R) (p : 0 < r.target) (c : Bytes) (cs : List Bytes)
        → next_chunk source r p ≡ (ok (some c), r')
        → Drains r' cs
        → Drains r (c ∷ cs)

  ends_line :
      (r : ChunkReader R) (c : Bytes) (cs : List Bytes)
      → EndsLine source c (stream source r)
      → flatten cs ≡ stream source r
      → Drains r cs
      → WholeLines cs
      → IsValid source r
      → WholeLines (c ∷ cs)
  ends_line r c [] e s d w v = tt
  ends_line r c (x ∷ xs) (inl e) s d w v = (e, w)
  ends_line r c (x ∷ xs) (inr e) s (chunk _ r' p _ _ q d) w v =
      let out = subst (Outcome source r.max_chunk (stream source r)) q (next_chunk-Outcome r p v) in
      absurd (out.1 (front_empty x _ (sym out.0 ∙ e.1)))

  Drains-flatten :
      (r : ChunkReader R) (cs : List Bytes)
      → IsValid source r
      → Drains r cs
      → (flatten cs ≡ stream source r) × WholeLines cs
  Drains-flatten r _ v (drained _ r' p q) =
      (sym (subst (Outcome source r.max_chunk (stream source r)) q (next_chunk-Outcome r p v)), tt)
  Drains-flatten r _ v (chunk _ r' p c cs q d) =
      let out = subst (Outcome source r.max_chunk (stream source r)) q (next_chunk-Outcome r p v) in
      let rest = Drains-flatten r' cs out.3 d in
      (ap (λ x. c ++ x) rest.0 ∙ sym out.0, ends_line r' c cs out.2 rest.0 d rest.1 out.3)

  -- When calls on a new reader have run up to the one that returns `None`, the chunks they returned
  -- are, one behind the other, the whole stream of the source, and each but the last ends with a
  -- newline, however short the single reads were and whatever the limits.
  pub with_limits-Drains :
      (inner : R) (target max_chunk : ℕ) (cs : List Bytes)
      → Drains (with_limits inner target max_chunk) cs
      → (flatten cs ≡ unread inner) × WholeLines cs
  unfolding with_limits
  with_limits-Drains inner target max_chunk cs d =
      Drains-flatten (with_limits inner target max_chunk) cs
        (with_limits-IsValid inner target max_chunk) d
