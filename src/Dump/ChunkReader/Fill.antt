-- ===== src/Dump/ChunkReader/Fill.antt =====
-- src/dump.rs: the loop of `next_chunk` that fills the buffer.
use rust_streamer_pgdb.Dump.ChunkReader.{
  ChunkReader, resize, accept, fill_round, fill_round_falls, Filled, on_read, to_read, fill,
}
use rust_streamer_pgdb.Dump.Reader.{Reader}
use rust_streamer_pgdb.Prelude.Loop.{done, more, loop_induction}
use rust_streamer_pgdb.Prelude.{
  not, subst, ◌&&◌, ◌⊎◌, refl, take-append_below, inr, length-drop, take-append_self, append_assoc,
  inl, length-take, ◌+◌, ltb, ◌∙◌, ap, Bool-cases, ℕ, sym, length-replicate, ◌∷◌, replicate, [],
  true, ◌-◌, length-append, take, ◌<◌, arith, length, ◌++◌, drop, Bytes, ◌≡◌, ◌≤◌,
}
use rust_streamer_pgdb.Error.{Error, Result, err, ok}

module _ {R : Type 0} (source : Reader R) where
  open source use {read, unread, read_delivers, read_end}

  -- The data in the buffer.
  abbrev pub held : ChunkReader R → Bytes
  held r = take r.filled r.buf

  -- The data in the buffer and what the reader has yet to deliver.
  abbrev pub held_stream : ChunkReader R → Bytes
  held_stream r = held r ++ unread r.inner

  -- The counts lie in the buffer, the target in its ceiling, and the end was seen only if it is one.
  pub record IsValid (r : ChunkReader R) : Type 0 where
    pub consumed_filled : r.consumed ≤ r.filled
    pub filled_buf : r.filled ≤ length r.buf
    pub target_pos : 0 < r.target
    pub target_max : r.target ≤ r.max_chunk
    pub at_end : r.eof ≡ true → unread r.inner ≡ []

  resize-target : (r : ChunkReader R) → r.target ≤ length (resize r).buf
  unfolding resize
  resize-target r = ground (
    arith,
    length-append r.buf (replicate (r.target - length r.buf) 0),
    length-replicate {A = ℕ} (r.target - length r.buf) 0,
  )

  resize-IsValid : (r : ChunkReader R) → IsValid r → IsValid (resize r)
  unfolding resize
  resize-IsValid r v =
      let grown = length-append r.buf (replicate (r.target - length r.buf) 0) in
      elim (Bool-cases (ltb (length r.buf) r.target)) [
        | inl short ↦ rw short (record {
          consumed_filled = v.consumed_filled;
          filled_buf = omega (arith, grown, v.filled_buf);
          target_pos = v.target_pos;
          target_max = v.target_max;
          at_end = v.at_end;
        })
        | inr long ↦ rw long v
      ]

  resize-held : (r : ChunkReader R) → IsValid r → held_stream (resize r) ≡ held_stream r
  unfolding resize
  resize-held r v = elim (Bool-cases (ltb (length r.buf) r.target)) [
    | inl short ↦
        rw short (
          rw
            (take-append_below r.filled r.buf (replicate (r.target - length r.buf) 0) v.filled_buf))
    | inr long ↦ rw long refl
  ]

  -- What a write behind the data leaves in front of it, and its length.
  write_over :
      (f : ℕ) (buf got rest : Bytes)
      → f ≤ length buf
      → take (f + length got) (take f buf ++ (got ++ rest)) ≡ take f buf ++ got
  write_over f buf got rest h =
      let front : length (take f buf ++ got) ≡ f + length got =
        omega (arith, length-append (take f buf) got, length-take f buf) in
      rw (← front, ← append_assoc (take f buf) got rest) (take-append_self (take f buf ++ got) rest)

  accept-IsValid :
      (r : ChunkReader R) (inner : R) (got : Bytes)
      → IsValid r
      → r.target ≤ length r.buf
      → r.filled < r.target
      → read r.inner (r.target - r.filled) ≡ (ok got, inner)
      → IsValid (accept r inner got)
  unfolding accept
  accept-IsValid r inner [] v w lt h = record {
    consumed_filled = v.consumed_filled;
    filled_buf = v.filled_buf;
    target_pos = v.target_pos;
    target_max = v.target_max;
    at_end =
        λ _. sym (read_delivers r.inner inner _ [] h).1 ∙ read_end r.inner inner _ (omega arith) h;
  }
  accept-IsValid r inner (b ∷ bs) v w lt h =
      let got = b ∷ bs in
      let room = read_delivers r.inner inner _ (b ∷ bs) h in
      record {
        consumed_filled = omega (arith, v.consumed_filled);
        filled_buf = omega (
          arith,
          room.0,
          length-append (take r.filled r.buf) (got ++ drop (r.filled + length got) r.buf),
          length-append got (drop (r.filled + length got) r.buf),
          length-take r.filled r.buf,
          length-drop (r.filled + length got) r.buf,
        );
        target_pos = v.target_pos;
        target_max = v.target_max;
        at_end = λ e. let nothing : got ++ unread inner ≡ [] = sym room.1 ∙ v.at_end e in cc;
      }

  accept-held :
      (r : ChunkReader R) (inner : R) (got : Bytes)
      → IsValid r
      → read r.inner (r.target - r.filled) ≡ (ok got, inner)
      → held_stream (accept r inner got) ≡ held_stream r
  unfolding accept
  accept-held r inner [] v h = ap (λ x. held r ++ x) (sym (read_delivers r.inner inner _ [] h).1)
  accept-held r inner (b ∷ bs) v h =
      let got : Bytes = b ∷ bs in
      rw
        (
          write_over r.filled r.buf got (drop (r.filled + length got) r.buf) v.filled_buf,
          append_assoc,
        )
        (ap (λ x. held r ++ x) (sym (read_delivers r.inner inner _ got h).1))

  -- What filling does, unless a read fails: the data and the rest of the stream stay together, and
  -- the buffer is full up to the target or the stream has ended.
  pub record Fills (r r' : ChunkReader R) : Type 0 where
    pub valid : IsValid r'
    pub keeps : held_stream r' ≡ held_stream r
    pub same_target : r'.target ≡ r.target
    pub same_max : r'.max_chunk ≡ r.max_chunk
    pub same_consumed : r'.consumed ≡ r.consumed
    pub full : (r'.target ≤ r'.filled) ⊎ (r'.eof ≡ true)

  -- The error of some read.
  abbrev pub Failed : Error → Type 0
  Failed e = (r r' : R) × (n : ℕ) × (read r n ≡ (err e, r'))

  abbrev pub FillsWell : ChunkReader R → Filled source → Type 0
  FillsWell r (ok _, r') = IsValid r → Fills r r'
  FillsWell r (err e, r') = Failed e

  Fills-refl : (r : ChunkReader R) → IsValid r → (r.target ≤ r.filled) ⊎ (r.eof ≡ true) → Fills r r
  Fills-refl r v f = record {
    valid = v;
    keeps = refl;
    same_target = refl;
    same_max = refl;
    same_consumed = refl;
    full = f;
  }

  accept-fields :
      (r : ChunkReader R) (inner : R) (got : Bytes)
      → ((accept r inner got).target ≡ r.target)
        × ((accept r inner got).max_chunk ≡ r.max_chunk)
        × ((accept r inner got).consumed ≡ r.consumed)
  unfolding accept
  accept-fields r inner [] = (refl, refl, refl)
  accept-fields r inner (b ∷ bs) = (refl, refl, refl)

  resize-fields :
      (r : ChunkReader R)
      → ((resize r).target ≡ r.target)
        × ((resize r).max_chunk ≡ r.max_chunk)
        × ((resize r).consumed ≡ r.consumed)
        × ((resize r).filled ≡ r.filled)
  unfolding resize
  resize-fields r = ground arith

  -- A round that read something, and what the later rounds do.
  after_round :
      (r : ChunkReader R) (inner : R) (got : Bytes) (t : Filled source)
      → r.filled < r.target
      → read (resize r).inner ((resize r).target - (resize r).filled) ≡ (ok got, inner)
      → FillsWell (accept (resize r) inner got) t
      → FillsWell r t
  after_round r inner got (err e, r') lt h k = k
  after_round r inner got (ok u, r') lt h k = λ v.
      let f = resize-fields r in
      let v' = resize-IsValid r v in
      let a = accept-fields (resize r) inner got in
      let later =
        k (
          accept-IsValid (resize r) inner got v' (rw f.0 (resize-target r)) (omega (arith, f)) h) in
      record {
        valid = later.valid;
        keeps = later.keeps ∙ accept-held (resize r) inner got v' h ∙ resize-held r v;
        same_target = later.same_target ∙ a.0 ∙ f.0;
        same_max = later.same_max ∙ a.1 ∙ f.1;
        same_consumed = later.same_consumed ∙ a.2 ∙ f.2;
        full = later.full;
      }

  round_ends :
      (r : ChunkReader R) (x : Result Bytes × R) (t : Filled source)
      → read (resize r).inner ((resize r).target - (resize r).filled) ≡ x
      → on_read source (resize r) x ≡ done t
      → FillsWell r t
  round_ends r (ok got, inner) t h e = cc
  round_ends r (err z, inner) t h e =
      let same : ◌≡◌ {A = Filled source} (err z, record (resize r) { inner = inner }) t = cc in
      subst (FillsWell r) same ((resize r).inner, inner, _, h)

  round_goes_on :
      (r r' : ChunkReader R) (x : Result Bytes × R) (t : Filled source)
      → r.filled < r.target
      → read (resize r).inner ((resize r).target - (resize r).filled) ≡ x
      → on_read source (resize r) x ≡ more r'
      → FillsWell r' t
      → FillsWell r t
  round_goes_on r r' (ok got, inner) t lt h e k =
      let same : r' ≡ accept (resize r) inner got = cc in
      after_round r inner got t lt h (subst (λ z. FillsWell z t) same k)
  round_goes_on r r' (err z, inner) t lt h e k = cc

  fill_ends : (r : ChunkReader R) (t : Filled source) → fill_round source r ≡ done t → FillsWell r t
  unfolding fill_round
  fill_ends r t e = elim (Bool-cases (ltb r.filled r.target && not r.eof)) [
    | inl on ↦ round_ends r _ t refl (rw on at e)
    | inr off ↦
        let same : ◌≡◌ {A = Filled source} (ok tt, r) t = cc (rw off at e) in
        subst (FillsWell r) same (λ v. Fills-refl r v (ground arith))
  ]

  fill_goes_on :
      (r r' : ChunkReader R) (t : Filled source)
      → fill_round source r ≡ more r'
      → FillsWell r' t
      → FillsWell r t
  unfolding fill_round
  fill_goes_on r r' t e k = elim (Bool-cases (ltb r.filled r.target && not r.eof)) [
    | inl on ↦ round_goes_on r r' _ t (ground arith) refl (rw on at e) k
    | inr off ↦ absurd (cc (rw off at e))
  ]

  pub fill-FillsWell : (r : ChunkReader R) → FillsWell r (fill source r)
  unfolding fill
  fill-FillsWell =
      loop_induction (to_read source) (fill_round source) (fill_round_falls source) FillsWell
        fill_ends fill_goes_on
