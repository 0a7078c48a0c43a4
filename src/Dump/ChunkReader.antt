-- ===== src/Dump/ChunkReader.antt =====
-- src/dump.rs: `ChunkReader`. The buffer is the list of its bytes, data or not; a slice of it is
-- copied out, and a read writes over its place.
pub mod Fill
pub mod NextChunk
pub mod Run
pub mod Splits
use rust_streamer_pgdb.Dump.Reader.{Reader}
use rust_streamer_pgdb.Prelude.{
  subst, refl, inr, ◌∙◌, inl, length-append, Bool-cases, arith, replicate, ◌-◌, drop, not, take,
  ◌^◌, ◌∷◌, ◌&&◌, max, ◌++◌, ◌+◌, ◌<◌, ltb, false, ◌*◌, length, true, Bool, [], Bytes,
  if◌then◌else◌, ◌≡◌, ℕ,
}
use rust_streamer_pgdb.Prelude.Loop.{loop_induction, done, more, loop, Round}
use rust_streamer_pgdb.Error.{err, ok, Result}

-- `16 << 20` and `256 << 20`
abbrev pub default_chunk_bytes : ℕ
default_chunk_bytes = 16 * 2 ^ 20

abbrev pub default_max_chunk_bytes : ℕ
default_max_chunk_bytes = 256 * 2 ^ 20

pub record ChunkReader (R : Type 0) : Type 0 where
  pub inner : R
  pub buf : Bytes
  pub filled : ℕ
  pub consumed : ℕ
  pub target : ℕ
  pub max_chunk : ℕ
  pub eof : Bool

module _ {R : Type 0} where
  -- `ChunkReader::with_limits`
  unfoldable pub with_limits : R → ℕ → ℕ → ChunkReader R
  with_limits inner target max_chunk = record {
    inner = inner;
    buf = [];
    filled = 0;
    consumed = 0;
    target = max target 1;
    max_chunk = max max_chunk (max target 1);
    eof = false;
  }

  -- `ChunkReader::new`
  unfoldable pub new : R → ChunkReader R
  new inner = with_limits inner default_chunk_bytes default_max_chunk_bytes

  -- The carry at the head of `next_chunk`: `copy_within` moves the bytes to the front.
  unfoldable pub carry : ChunkReader R → ChunkReader R
  carry r =
      if ltb 0 r.consumed
      then record r {
        buf =
            take (r.filled - r.consumed) (drop r.consumed r.buf)
            ++ drop (r.filled - r.consumed) r.buf;
        filled = r.filled - r.consumed;
        consumed = 0;
      }
      else r

  -- `if self.buf.len() < self.target { self.buf.resize(self.target, 0) }`
  unfoldable pub resize : ChunkReader R → ChunkReader R
  resize r =
      if ltb (length r.buf) r.target
      then record r { buf = r.buf ++ replicate (r.target - length r.buf) 0 }
      else r

  -- What the reader delivered, written into `buf[filled..target]`.
  unfoldable pub accept : ChunkReader R → R → Bytes → ChunkReader R
  accept r inner [] = record r { inner = inner; eof = true }
  accept r inner (b ∷ bs) = record r {
    inner = inner;
    buf = take r.filled r.buf ++ ((b ∷ bs) ++ drop (r.filled + length (b ∷ bs)) r.buf);
    filled = r.filled + length (b ∷ bs);
  }

module _ {R : Type 0} (source : Reader R) where
  open source use {read, unread, read_delivers, read_end}

  abbrev pub Filled : Type 0
  Filled = Result (Unit {0}) × ChunkReader R

  -- A read, with its `?`.
  abbrev pub on_read : ChunkReader R → Result Bytes × R → Round (ChunkReader R) Filled
  on_read r (ok got, inner) = more (accept r inner got)
  on_read r (err e, inner) = done (err e, record r { inner = inner })

  -- One round of `while self.filled < self.target && !self.eof`.
  unfoldable pub fill_round : ChunkReader R → Round (ChunkReader R) Filled
  fill_round r =
      if ltb r.filled r.target && not r.eof
      then (let r' = resize r in on_read r' (read r'.inner (r'.target - r'.filled)))
      else done (ok tt, r)

  -- A read shortens the stream or finds its end.
  abbrev pub to_read : ChunkReader R → ℕ
  to_read r = length (unread r.inner) + (if r.eof then 0 else 1)

  on_read_falls :
      (r t : ChunkReader R) (n : ℕ) (x : Result Bytes × R)
      → r.eof ≡ false
      → read r.inner n ≡ x
      → on_read r x ≡ more t
      → to_read t < to_read r
  unfolding accept
  on_read_falls r t n (err e, inner) live h q = cc
  on_read_falls r t n (ok [], inner) live h q = ground (arith, read_delivers r.inner inner n [] h)
  on_read_falls r t n (ok (b ∷ bs), inner) live h q =
      ground
        (arith, read_delivers r.inner inner n (b ∷ bs) h, length-append (b ∷ bs) (unread inner))

  resize-reading : (r : ChunkReader R) → ((resize r).inner ≡ r.inner) × ((resize r).eof ≡ r.eof)
  unfolding resize
  resize-reading r = ground arith

  to_read-resize : (r : ChunkReader R) → to_read (resize r) ≡ to_read r
  unfolding resize
  to_read-resize r = ground arith

  pub fill_round_falls : (r t : ChunkReader R) → fill_round r ≡ more t → to_read t < to_read r
  unfolding fill_round
  fill_round_falls r t h = elim (Bool-cases (ltb r.filled r.target && not r.eof)) [
    | inl on ↦
        let kept = resize-reading r in
        let fell =
          on_read_falls (resize r) t ((resize r).target - (resize r).filled) _
            (kept.1 ∙ (ground arith)) refl (rw on at h) in
        rw (← to_read-resize r) fell
    | inr off ↦ absurd (ground arith)
  ]

  unfoldable pub fill : ChunkReader R → Filled
  unfolding fill_round resize accept
  fill = loop to_read fill_round fill_round_falls

  -- Filling moves neither the target nor its ceiling.
  abbrev pub Keeps : ChunkReader R → ChunkReader R → Type 0
  Keeps r r' = (r'.target ≡ r.target) × (r'.max_chunk ≡ r.max_chunk)

  accept-Keeps :
      (r : ChunkReader R) (inner : R) (got : Bytes) → Keeps r (accept (resize r) inner got)
  unfolding accept resize
  accept-Keeps r inner [] = ground arith
  accept-Keeps r inner (b ∷ bs) = ground arith

  read_ends :
      (r : ChunkReader R) (x : Result Bytes × R) (t : Filled)
      → on_read (resize r) x ≡ done t
      → Keeps r t.1
  unfolding resize
  read_ends r (ok got, inner) t e = cc
  read_ends r (err z, inner) t e = ground arith

  read_goes_on :
      (r r' : ChunkReader R) (x : Result Bytes × R) → on_read (resize r) x ≡ more r' → Keeps r r'
  read_goes_on r r' (ok got, inner) e =
      let same : accept (resize r) inner got ≡ r' = cc in
      subst (λ z. Keeps r z) same (accept-Keeps r inner got)
  read_goes_on r r' (err z, inner) e = cc

  fill_round_ends : (r : ChunkReader R) (t : Filled) → fill_round r ≡ done t → Keeps r t.1
  unfolding fill_round
  fill_round_ends r t e = elim (Bool-cases (ltb r.filled r.target && not r.eof)) [
    | inl on ↦ read_ends r _ t (rw on at e)
    | inr off ↦ ground arith
  ]

  fill_round_goes_on :
      (r r' : ChunkReader R) (t : Filled) → fill_round r ≡ more r' → Keeps r' t.1 → Keeps r t.1
  unfolding fill_round
  fill_round_goes_on r r' t e k = elim (Bool-cases (ltb r.filled r.target && not r.eof)) [
    | inl on ↦ let now = read_goes_on r r' _ (rw on at e) in (k.0 ∙ now.0, k.1 ∙ now.1)
    | inr off ↦ absurd (cc (rw off at e))
  ]

  pub fill_same : (r : ChunkReader R) → Keeps r (fill r).1
  unfolding fill
  fill_same =
      loop_induction to_read fill_round fill_round_falls (λ r t. Keeps r t.1) fill_round_ends
        fill_round_goes_on
