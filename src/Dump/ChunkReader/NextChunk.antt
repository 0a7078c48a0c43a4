-- ===== src/Dump/ChunkReader/NextChunk.antt =====
-- src/dump.rs: `ChunkReader::next_chunk`. The buffer grows by doubling the target, which ends
-- because the target is not zero: a reader comes with the proof of that.
use rust_streamer_pgdb.Dump.ChunkReader.{fill_same, ChunkReader, carry, Filled, fill}
use rust_streamer_pgdb.Dump.Reader.{Reader}
use rust_streamer_pgdb.Prelude.Loop.{Round, done, more, loop}
use native.Mathlib.Decide.{dec_lt}
use rust_streamer_pgdb.Prelude.{
  false, true, Bool, inr, inl, ◌==◌, sym, Bool-cases, Memchr, subst, none, if◌then◌else◌, ◌+◌, take,
  arith, ◌*◌, ◌-◌, Bytes, ◌≡◌, some, min, Option, ℕ, ◌<◌,
}
use rust_streamer_pgdb.Error.{row_too_large, err, ok, Result}

abbrev pub Ready : Type 0 → Type 0
Ready R = (r : ChunkReader R) × (0 < r.target)

-- The result of a call, and the reader behind it.
abbrev pub Chunk : Type 0 → Type 0
Chunk R = Result (Option Bytes) × ChunkReader R

pub doubled : {t max_chunk : ℕ} → 0 < t → t < max_chunk → 0 < min (t * 2) max_chunk
doubled p h = omega arith

module _ {R : Type 0} where
  -- One line is longer than the target: the target grows, or the ceiling is met.
  unfoldable pub grow :
      (r : ChunkReader R) → 0 < r.target → Dec (r.target < r.max_chunk) → Round (Ready R) (Chunk R)
  grow r p (yes h) = more (record r { target = min (r.target * 2) r.max_chunk }, doubled p h)
  grow r p (no h) = done (err (row_too_large r.filled r.max_chunk), r)

  -- The data holds no newline: at the end of the stream it is the last line.
  unfoldable pub without_newline :
      Bool → (r : ChunkReader R) → 0 < r.target → Round (Ready R) (Chunk R)
  without_newline true r p =
      done (ok (some (take r.filled r.buf)), record r { consumed = r.filled })
  without_newline false r p = grow r p (dec_lt r.target r.max_chunk)

  -- On the last newline of the data.
  unfoldable pub at_newline :
      Option ℕ → (r : ChunkReader R) → 0 < r.target → Round (Ready R) (Chunk R)
  unfolding grow without_newline
  at_newline (some nl) r p = done (ok (some (take (nl + 1) r.buf)), record r { consumed = nl + 1 })
  at_newline none r p = without_newline r.eof r p

  grow_falls :
      (r : ChunkReader R) (p : 0 < r.target) (d : Dec (r.target < r.max_chunk)) (t : Ready R)
      → grow r p d ≡ more t
      → t.0.max_chunk - t.0.target < r.max_chunk - r.target
  unfolding grow
  grow_falls r p (yes h) t e =
      let same : ◌≡◌ {A = Ready R}
          (record r { target = min (r.target * 2) r.max_chunk }, doubled p h) t =
        cc in
      subst (λ (z : Ready R). z.0.max_chunk - z.0.target < r.max_chunk - r.target) same
        (omega arith)
  grow_falls r p (no h) t e = cc

  without_newline_falls :
      (eof : Bool) (r : ChunkReader R) (p : 0 < r.target) (t : Ready R)
      → without_newline eof r p ≡ more t
      → t.0.max_chunk - t.0.target < r.max_chunk - r.target
  unfolding without_newline
  without_newline_falls true r p t e = cc
  without_newline_falls false r p t e = grow_falls r p (dec_lt r.target r.max_chunk) t e

  at_newline_falls :
      (o : Option ℕ) (r : ChunkReader R) (p : 0 < r.target) (t : Ready R)
      → at_newline o r p ≡ more t
      → t.0.max_chunk - t.0.target < r.max_chunk - r.target
  unfolding at_newline
  at_newline_falls (some nl) r p t e = cc
  at_newline_falls none r p t e = without_newline_falls r.eof r p t e

module _ ⦃m : Memchr⦄ {R : Type 0} (source : Reader R) where
  -- Behind the filling loop, with its `?`.
  unfoldable pub on_filled : (t : Filled source) → 0 < t.1.target → Round (Ready R) (Chunk R)
  unfolding at_newline
  on_filled (err e, r) p = done (err e, r)
  on_filled (ok _, r) p =
      if r.filled == 0
      then done (ok none, r)
      else at_newline (m.memrchr b'\n' (take r.filled r.buf)) r p

  -- One round of `loop { … }`.
  unfoldable pub chunk_round : Ready R → Round (Ready R) (Chunk R)
  unfolding on_filled
  chunk_round (r, p) = on_filled (fill source r) (subst (λ t. 0 < t) (sym (fill_same source r).0) p)

  on_filled_falls :
      (f : Filled source) (p : 0 < f.1.target) (t : Ready R)
      → on_filled f p ≡ more t
      → t.0.max_chunk - t.0.target < f.1.max_chunk - f.1.target
  unfolding on_filled
  on_filled_falls (err e, r) p t h = cc
  on_filled_falls (ok _, r) p t h = elim (Bool-cases (r.filled == 0)) [
    | inl nothing ↦ absurd (cc (rw nothing at h))
    | inr some_data ↦ at_newline_falls _ r p t (rw some_data at h)
  ]

  pub chunk_round_falls :
      (s t : Ready R)
      → chunk_round s ≡ more t
      → t.0.max_chunk - t.0.target < s.0.max_chunk - s.0.target
  unfolding chunk_round
  chunk_round_falls (r, p) t h =
      omega (arith, fill_same source r, on_filled_falls (fill source r) _ t h)

  pub carry-target : (r : ChunkReader R) → (carry r).target ≡ r.target
  unfolding carry
  carry-target r = ground arith

  abbrev pub chunk_loop : Ready R → Chunk R
  chunk_loop = loop (λ (s : Ready R). s.0.max_chunk - s.0.target) chunk_round chunk_round_falls

  -- `ChunkReader::next_chunk`
  unfoldable pub next_chunk : (r : ChunkReader R) → 0 < r.target → Chunk R
  unfolding carry fill chunk_round
  next_chunk r p = chunk_loop (carry r, subst (λ t. 0 < t) (sym (carry-target r)) p)
