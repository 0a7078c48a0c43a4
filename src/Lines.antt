-- ===== src/Lines.antt =====
-- Text as lines: the meaning of a newline for src/copy.rs (`Rows`), src/dump.rs (`ChunkReader`)
-- and src/scan.rs (`Scanner::feed`), by recursion on the bytes. The code finds newlines by search.
use rust_streamer_pgdb.Prelude.{
  inr, inl, append-nil, Bool-cases, ◌≢◌, All, ℕ, ◌≡◌, refl, false, List, [], ◌∷◌, ◌++◌, arith,
  Bytes, Lacks, ◌==◌, if◌then◌else◌,
}

-- Complete lines, each without its newline, and the bytes behind the last newline.
abbrev pub Split : Type 0
Split = List Bytes × Bytes

-- A byte in front of the first line.
abbrev pub prepend : ℕ → Split → Split
prepend c ([], r) = ([], c ∷ r)
prepend c (l ∷ ls, r) = ((c ∷ l) ∷ ls, r)

unfoldable pub split_lines : Bytes → Split
split_lines [] = ([], [])
split_lines (c ∷ s) =
    let rest = split_lines s in if c == b'\n' then ([] ∷ rest.0, rest.1) else prepend c rest

-- Lines put back behind one another, each with its newline.
unfoldable pub unlines : List Bytes → Bytes
unlines [] = []
unlines (l ∷ ls) = l ++ b'\n' ∷ unlines ls

-- Lines in front of a split.
abbrev pub after : List Bytes → Split → Split
after ls t = (ls ++ t.0, t.1)

pub split_lines-Lacks : (s : Bytes) → Lacks b'\n' s → split_lines s ≡ ([], s)
unfolding split_lines
split_lines-Lacks [] h = refl
split_lines-Lacks (c ∷ s) h = ground (arith, split_lines-Lacks s h.1)

pub split_lines-cons :
    (p s : Bytes)
    → Lacks b'\n' p
    → split_lines (p ++ b'\n' ∷ s) ≡ (p ∷ (split_lines s).0, (split_lines s).1)
unfolding split_lines
split_lines-cons [] s h = ground arith
split_lines-cons (c ∷ p) s h = ground (arith, split_lines-cons p s h.1)

unlines-prepend :
    (c : ℕ) (t : Split) → unlines (prepend c t).0 ++ (prepend c t).1 ≡ c ∷ (unlines t.0 ++ t.1)
unfolding unlines
unlines-prepend c ([], r) = refl
unlines-prepend c (l ∷ ls, r) = refl

-- Nothing is lost: the lines and the rest spell the text.
pub unlines-split_lines : (s : Bytes) → unlines (split_lines s).0 ++ (split_lines s).1 ≡ s
unfolding split_lines unlines
unlines-split_lines [] = refl
unlines-split_lines (c ∷ s) =
    ground (arith, unlines-split_lines s, unlines-prepend c (split_lines s))

prepend-after :
    (c : ℕ) (t : Split) (b : Bytes)
    → (c == b'\n') ≡ false
    → prepend c (after t.0 (split_lines (t.1 ++ b)))
      ≡ after (prepend c t).0 (split_lines ((prepend c t).1 ++ b))
unfolding split_lines
prepend-after c ([], r) b h = ground arith
prepend-after c (l ∷ ls, r) b h = refl

-- The bytes behind the last newline go in front of what follows.
pub split_lines-append :
    (a b : Bytes)
    → split_lines (a ++ b) ≡ after (split_lines a).0 (split_lines ((split_lines a).1 ++ b))
unfolding split_lines
split_lines-append [] b = refl
split_lines-append (c ∷ s) b =
    ground (arith, split_lines-append s b, prepend-after c (split_lines s) b)

-- Lines that hold no newline are read back.
pub split_lines-unlines :
    (ls : List Bytes) → All (Lacks b'\n') ls → split_lines (unlines ls) ≡ (ls, [])
unfolding unlines
split_lines-unlines [] h = unfold split_lines in refl
split_lines-unlines (l ∷ ls) h =
    rw (split_lines-cons l (unlines ls) h.0, split_lines-unlines ls h.1)

prepend-Lacks :
    (c : ℕ) (t : Split)
    → c ≢ b'\n'
    → All (Lacks b'\n') t.0
    → Lacks b'\n' t.1
    → All (Lacks b'\n') (prepend c t).0 × Lacks b'\n' (prepend c t).1
prepend-Lacks c ([], r) n h k = (tt, (n, k))
prepend-Lacks c (l ∷ ls, r) n h k = (((n, h.0), h.1), k)

-- No line holds a newline, and the rest holds none.
pub split_lines_lack :
    (s : Bytes) → All (Lacks b'\n') (split_lines s).0 × Lacks b'\n' (split_lines s).1
unfolding split_lines
split_lines_lack [] = (tt, tt)
split_lines_lack (c ∷ s) =
    let rest = split_lines_lack s in
    elim (Bool-cases (c == b'\n')) [
      | inl newline ↦ rw newline ((tt, rest.0), rest.1)
      | inr other ↦ rw other (prepend-Lacks c (split_lines s) (ground arith) rest.0 rest.1)
    ]

-- Lines and a rest that hold no newline are read back.
pub split_lines-parts :
    (ls : List Bytes) (r : Bytes)
    → All (Lacks b'\n') ls
    → Lacks b'\n' r
    → split_lines (unlines ls ++ r) ≡ (ls, r)
split_lines-parts ls r h k =
    rw
      (
        split_lines-append (unlines ls) r,
        split_lines-unlines ls h,
        split_lines-Lacks r k,
        append-nil,
      )
      refl
