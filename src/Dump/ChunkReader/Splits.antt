-- ===== src/Dump/ChunkReader/Splits.antt =====
-- src/dump.rs: what a call of `next_chunk` gives: the stream is cut behind a newline, and nothing of
-- it is lost or repeated, however short the single reads are.
use rust_streamer_pgdb.Dump.ChunkReader.{ChunkReader, Filled}
use rust_streamer_pgdb.Dump.ChunkReader.Fill.{Failed, FillsWell, held, held_stream, IsValid, Fills}
use rust_streamer_pgdb.Dump.ChunkReader.NextChunk.{
  Chunk, grow, without_newline, at_newline, on_filled,
}
use native.Mathlib.Decide.{dec_lt}
use rust_streamer_pgdb.Dump.Reader.{Reader}
use rust_streamer_pgdb.Prelude.Loop.{done}
use rust_streamer_pgdb.Prelude.{
  length-append, take-append_self, refl, Bool, Bool-cases, subst, last_index-none, ◌∙◌, inl, inr,
  length, ap, sym, length-take, false, take-append-drop, arith, ◌==◌, suc, Option, drop_all,
  append_assoc, take-take, append-nil, last_index-some, ◌<◌, [], Lacks, ◌+◌, none, ◌++◌, ◌⊎◌, some,
  ◌≢◌, take, last_index, true, ◌≤◌, drop, last?, ℕ, Bytes, ◌≡◌, Memchr,
}
use rust_streamer_pgdb.Error.{Error, row_too_large, err, ok}

module _ ⦃m : Memchr⦄ {R : Type 0} (source : Reader R) where
  open source use {read, unread, read_delivers, read_end}

  -- All that is still to be returned: the data behind `consumed`, and what is to be read.
  abbrev pub stream : ChunkReader R → Bytes
  stream r = drop r.consumed (take r.filled r.buf) ++ unread r.inner

  -- A chunk ends with a newline, but the last, if the stream does not end with one.
  abbrev pub EndsLine : Bytes → Bytes → Type 0
  EndsLine c rest = (last? c ≡ some b'\n') ⊎ (Lacks b'\n' c × (rest ≡ []))

  -- A line that is longer than the ceiling: `len` bytes of it are held.
  abbrev pub TooLong : ℕ → Bytes → Error → Type 0
  TooLong limit s e =
      (len : ℕ) × (e ≡ row_too_large len limit)
      × Lacks b'\n' (take len s)
      × (limit ≤ len)
      × (len ≤ length s)

  -- What a call returns for the stream `s` under a ceiling.
  abbrev pub Outcome : ℕ → Bytes → Chunk R → Type 0
  Outcome limit s (ok (some c), r') =
      (s ≡ c ++ stream r')
      × (c ≢ [])
      × EndsLine c (stream r')
      × IsValid source r'
      × (r'.max_chunk ≡ limit)
  Outcome limit s (ok none, r') = s ≡ []
  Outcome limit s (err e, r') = Failed source e ⊎ TooLong limit s e

  consume-IsValid :
      (r : ChunkReader R) (n : ℕ)
      → IsValid source r
      → n ≤ r.filled
      → IsValid source (record r { consumed = n })
  consume-IsValid r n v h = record {
    consumed_filled = h;
    filled_buf = v.filled_buf;
    target_pos = v.target_pos;
    target_max = v.target_max;
    at_end = v.at_end;
  }

  -- The data in front of a cut is returned, and the rest stays.
  cut_stream :
      (r : ChunkReader R) (n : ℕ)
      → n ≤ r.filled
      → held_stream source r ≡ take n r.buf ++ stream (record r { consumed = n })
  cut_stream r n h = rw (
    ← take-take n r.filled r.buf h,
    ← append_assoc (take n (held source r)) (drop n (held source r)) (unread r.inner),
    take-append-drop n (held source r),
  )

  newline-Outcome :
      (r : ChunkReader R) (nl : ℕ)
      → IsValid source r
      → last_index b'\n' (held source r) ≡ some nl
      → Outcome r.max_chunk
          (held_stream source r)
          (ok (some (take (nl + 1) r.buf)), record r { consumed = nl + 1 })
  newline-Outcome r nl v e =
      let h : Bytes = held source r in
      let found = last_index-some b'\n' h nl e in
      let one : nl + 1 ≡ suc nl = omega arith in
      let within : nl + 1 ≤ r.filled = omega (arith, found.0, length-take r.filled r.buf) in
      let cut : take (nl + 1) r.buf ≡ take (nl + 1) h =
        sym (take-take (nl + 1) r.filled r.buf within) in
      (
        cut_stream r (nl + 1) within,
        (λ z. omega (arith, ap length z, length-take (nl + 1) r.buf, v.filled_buf)),
        inl (ap last? (cut ∙ ap (λ k. take k h) one) ∙ found.1),
        consume-IsValid r (nl + 1) v within,
        refl,
      )

  end-Outcome :
      (r : ChunkReader R)
      → IsValid source r
      → r.eof ≡ true
      → r.filled ≢ 0
      → last_index b'\n' (held source r) ≡ none
      → Outcome r.max_chunk
          (held_stream source r)
          (ok (some (take r.filled r.buf)), record r { consumed = r.filled })
  end-Outcome r v end pos e =
      let nothing_left : stream (record r { consumed = r.filled }) ≡ [] =
        rw (v.at_end end, append-nil)
          (drop_all r.filled (held source r) (omega (arith, length-take r.filled r.buf))) in
      (
        cut_stream r r.filled (omega arith),
        (λ z. omega (arith, ap length z, length-take r.filled r.buf, v.filled_buf)),
        inr (last_index-none b'\n' (held source r) e, nothing_left),
        consume-IsValid r r.filled v (omega arith),
        refl,
      )

  length-held : (r : ChunkReader R) → IsValid source r → length (held source r) ≡ r.filled
  length-held r v = omega (arith, length-take r.filled r.buf, v.filled_buf)

  full-TooLong :
      (r : ChunkReader R)
      → IsValid source r
      → last_index b'\n' (held source r) ≡ none
      → r.max_chunk ≤ r.filled
      → TooLong r.max_chunk (held_stream source r) (row_too_large r.filled r.max_chunk)
  full-TooLong r v e full =
      let front : take r.filled (held_stream source r) ≡ held source r =
        ap (λ n. take n (held_stream source r)) (sym (length-held r v))
        ∙ take-append_self (held source r) (unread r.inner) in
      (
        r.filled,
        refl,
        rw front (last_index-none b'\n' (held source r) e),
        full,
        omega (arith, length-append (held source r) (unread r.inner), length-held r v),
      )

  grow-Outcome :
      (r : ChunkReader R) (p : 0 < r.target) (d : Dec (r.target < r.max_chunk)) (x : Chunk R)
      → IsValid source r
      → last_index b'\n' (held source r) ≡ none
      → r.target ≤ r.filled
      → grow r p d ≡ done x
      → Outcome r.max_chunk (held_stream source r) x
  unfolding grow
  grow-Outcome r p (yes h) x v e full q = cc
  grow-Outcome r p (no h) x v e full q =
      let same : ◌≡◌ {A = Chunk R} (err (row_too_large r.filled r.max_chunk), r) x = cc in
      subst (Outcome r.max_chunk (held_stream source r)) same
        (inr (full-TooLong r v e (omega arith)))

  without_newline-Outcome :
      (r : ChunkReader R) (p : 0 < r.target) (eof : Bool) (x : Chunk R)
      → IsValid source r
      → r.filled ≢ 0
      → (r.target ≤ r.filled) ⊎ (r.eof ≡ true)
      → last_index b'\n' (held source r) ≡ none
      → r.eof ≡ eof
      → without_newline eof r p ≡ done x
      → Outcome r.max_chunk (held_stream source r) x
  unfolding without_newline
  without_newline-Outcome r p true x v pos full e end q =
      let same : ◌≡◌ {A = Chunk R}
          (ok (some (take r.filled r.buf)), record r { consumed = r.filled }) x =
        cc in
      subst (Outcome r.max_chunk (held_stream source r)) same (end-Outcome r v end pos e)
  without_newline-Outcome r p false x v pos full e live q =
      grow-Outcome r p (dec_lt r.target r.max_chunk) x v e (ground arith) q

  -- The exits of a round, behind the filling loop.
  exit-Outcome :
      (r : ChunkReader R) (p : 0 < r.target) (o : Option ℕ) (x : Chunk R)
      → IsValid source r
      → r.filled ≢ 0
      → (r.target ≤ r.filled) ⊎ (r.eof ≡ true)
      → last_index b'\n' (held source r) ≡ o
      → at_newline o r p ≡ done x
      → Outcome r.max_chunk (held_stream source r) x
  unfolding at_newline
  exit-Outcome r p (some nl) x v pos full e q =
      let same : ◌≡◌ {A = Chunk R} (ok (some (take (nl + 1) r.buf)), record r { consumed = nl + 1 })
          x =
        cc in
      subst (Outcome r.max_chunk (held_stream source r)) same (newline-Outcome r nl v e)
  exit-Outcome r p none x v pos full e q = without_newline-Outcome r p r.eof x v pos full e refl q

  -- Nothing held after filling means that the stream has ended.
  empty-Outcome :
      (r r' : ChunkReader R) → Fills source r r' → r'.filled ≡ 0 → held_stream source r ≡ []
  empty-Outcome r r' f e =
      let over : r'.eof ≡ true = ground (arith, f.full, f.valid.target_pos) in
      sym f.keeps ∙ rw (e, f.valid.at_end over)

  pub filled_ends :
      (r : ChunkReader R) (f : Filled source) (p : 0 < f.1.target) (x : Chunk R)
      → IsValid source r
      → FillsWell source r f
      → on_filled source f p ≡ done x
      → Outcome r.max_chunk (held_stream source r) x
  unfolding on_filled
  filled_ends r (err e, r') p x v k q =
      let same : ◌≡◌ {A = Chunk R} (err e, r') x = cc in
      subst (Outcome r.max_chunk (held_stream source r)) same (inl k)
  filled_ends r (ok u, r') p x v k q =
      let f = k v in
      elim (Bool-cases (r'.filled == 0)) [
        | inl nothing ↦
            let same : ◌≡◌ {A = Chunk R} (ok none, r') x = cc (rw nothing at q) in
            subst (Outcome r.max_chunk (held_stream source r)) same
              (empty-Outcome r r' f (ground arith))
        | inr some_data ↦
            let out : Outcome r'.max_chunk (held_stream source r') x =
              exit-Outcome r' p _ x f.valid (ground arith) f.full
                (sym (m.memrchr_last b'\n' (held source r'))) (rw some_data at q) in
            subst (λ n. Outcome n (held_stream source r) x) f.same_max
              (subst (λ s. Outcome r'.max_chunk s x) f.keeps out)
      ]
