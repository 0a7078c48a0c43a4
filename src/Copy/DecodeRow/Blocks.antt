-- ===== src/Copy/DecodeRow/Blocks.antt =====
-- src/copy.rs: the text of a block of rows, through `rows`.
use rust_streamer_pgdb.Copy.DecodeRow.RoundTrip.{
  written, written_byte, written_value, written_row, written_value-Lacks,
}
use rust_streamer_pgdb.Copy.Field.{is_end_of_data}
use rust_streamer_pgdb.Copy.Rows.{rows, strip_cr, collect}
use rust_streamer_pgdb.Copy.Rows.Whole.{collect-split_lines}
use rust_streamer_pgdb.Lines.{split_lines-unlines, unlines}
use rust_streamer_pgdb.Prelude.{
  All-append, ◌∙◌, ap₂, ◌⊎◌, Lacks, ℕ, All, Memchr, map, refl, ◌≢◌, arith, last?, ◌∷◌, false, ◌≡◌,
  Bytes, Option, List,
}
use rust_streamer_pgdb.Prelude.{[], ◌∷◌, some, none, inl, inr}

-- No row is written like the line that ends a block, whatever its values hold.
pub is_end_of_data-written_row :
    (vs : List (Option Bytes)) → is_end_of_data (written_row vs) ≡ false
unfolding is_end_of_data written_row written written_byte
is_end_of_data-written_row [] = refl
is_end_of_data-written_row (none ∷ []) = refl
is_end_of_data-written_row (none ∷ w ∷ vs) = refl
is_end_of_data-written_row (some [] ∷ []) = refl
is_end_of_data-written_row (some [] ∷ w ∷ vs) = refl
is_end_of_data-written_row (some (c ∷ s) ∷ []) = ground arith
is_end_of_data-written_row (some (c ∷ s) ∷ w ∷ vs) = ground arith

last?-Lacks : (b : ℕ) (s : Bytes) → Lacks b s → last? s ≢ some b
last?-Lacks b [] h = cc
last?-Lacks b (x ∷ []) h = ground (arith, h.0)
last?-Lacks b (x ∷ y ∷ s) h = last?-Lacks b (y ∷ s) h.1

strip_cr-Lacks : (s : Bytes) → Lacks b'\r' s → strip_cr s ≡ s
unfolding strip_cr
strip_cr-Lacks s h = ground (arith, last?-Lacks b'\r' s h)

written_row-Lacks :
    (vs : List (Option Bytes)) (b : ℕ) → (b ≡ b'\n') ⊎ (b ≡ b'\r') → Lacks b (written_row vs)
unfolding written_row
written_row-Lacks [] b h = tt
written_row-Lacks (v ∷ []) b h = written_value-Lacks v b (ground arith)
written_row-Lacks (v ∷ w ∷ vs) b h =
    All-append (λ x. x ≢ b) (written_value v) (b'\t' ∷ written_row (w ∷ vs))
      (written_value-Lacks v b (ground arith)) (ground arith, written_row-Lacks (w ∷ vs) b h)

pub rows-Lacks : (rs : List (List (Option Bytes))) → All (Lacks b'\n') (map written_row rs)
rows-Lacks [] = tt
rows-Lacks (r ∷ rs) = (written_row-Lacks r b'\n' (inl refl), rows-Lacks rs)

pub strip_cr-written_row : (r : List (Option Bytes)) → strip_cr (written_row r) ≡ written_row r
strip_cr-written_row r = strip_cr-Lacks (written_row r) (written_row-Lacks r b'\r' (inr refl))

strip_cr_rows :
    (rs : List (List (Option Bytes))) → map strip_cr (map written_row rs) ≡ map written_row rs
strip_cr_rows [] = refl
strip_cr_rows (r ∷ rs) = ap₂ ◌∷◌ (strip_cr-written_row r) (strip_cr_rows rs)

module _ ⦃m : Memchr⦄ where
  -- The text of a block of rows is cut back into exactly its rows, with nothing left over: no
  -- newline, tab or carriage return of a value is taken for the end of a row.
  pub collect-written_row :
      (rs : List (List (Option Bytes)))
      → collect (unlines (map written_row rs)) ≡ (map written_row rs, rows [])
  collect-written_row rs =
      collect-split_lines (unlines (map written_row rs))
      ∙ rw (split_lines-unlines (map written_row rs) (rows-Lacks rs), strip_cr_rows rs)
