-- ===== src/Copy/DecodeRow/Arity.antt =====
-- src/copy.rs: the field count that `decode_row` demands.
use mathlib.Core.Option
use rust_streamer_pgdb.Copy.DecodeRow.{Decoded, decode_row}
use rust_streamer_pgdb.Copy.DecodeRow.Reference.{
  slice, put_first, split_tabs, value, read_parts, check_arity, read_row, contents, map_ok,
}
use rust_streamer_pgdb.Copy.DecodeRow.Refines.{contents-decode_row}
use rust_streamer_pgdb.Copy.Field.{Limits}
use rust_streamer_pgdb.Prelude.{
  inr, inl, if◌then◌else◌, suc, ltb, Bool-cases, length-map, ◌+◌, [], ap, ◌∷◌, ◌∙◌, sym, arith,
  length, Option, ◌≡◌, List, ◌<◌, Memchr, ℕ, Bytes,
}
use rust_streamer_pgdb.Error.{row_too_large, ◌>>=◌, err, Result, ok}

put_first-length : (c : ℕ) (ps : List Bytes) → 0 < length (put_first c ps)
put_first-length c [] = omega arith
put_first-length c (p ∷ ps) = omega arith

split_tabs-length : (s : Bytes) → 0 < length (split_tabs s)
unfolding split_tabs
split_tabs-length [] = omega arith
split_tabs-length (c ∷ s) = ground (arith, put_first-length c (split_tabs s))

check_arity-eq-ok :
    (expected : ℕ) (ws vs : List (Option Bytes))
    → check_arity expected ws ≡ ok vs
    → (ws ≡ vs) × (length ws ≡ expected)
check_arity-eq-ok expected ws vs h = ground arith

-- A list of this length, or an error.
abbrev HasLength : ℕ → Result (List (Option Bytes)) → Type 0
HasLength k (ok vs) = length vs ≡ k
HasLength k (err e) = Unit

cons-HasLength :
    (k : ℕ) (v : Result (Option Bytes)) (r : Result (List (Option Bytes)))
    → HasLength k r
    → HasLength (suc k) (v >>= λ x. r >>= λ xs. ok (x ∷ xs))
cons-HasLength k (ok x) (ok xs) h = ap suc h
cons-HasLength k (ok x) (err e) h = tt
cons-HasLength k (err e) r h = tt

module _ ⦃m : Memchr⦄ (limits : Limits) where
  read_parts-HasLength : (n : ℕ) (ps : List Bytes) → HasLength (length ps) (read_parts limits n ps)
  unfolding read_parts
  read_parts-HasLength n [] = omega arith
  read_parts-HasLength n (p ∷ ps) =
      let rest =
        cons-HasLength _ (value p) (read_parts limits (n + 1) ps)
          (read_parts-HasLength (n + 1) ps) in
      elim (Bool-cases (ltb limits.max_columns (n + 1))) [
        | inl many ↦ rw many tt
        | inr few ↦ elim (Bool-cases (ltb limits.max_field_bytes (length p))) [
          | inl big ↦ rw (few, big) tt
          | inr fits ↦ rw (few, fits) rest
        ]
      ]

  read_row-length :
      (row : Bytes) (expected : ℕ) (vs : List (Option Bytes))
      → read_row limits row expected ≡ ok vs
      → (length vs ≡ expected) × (length (split_tabs row) ≡ expected)
  unfolding read_row
  read_row-length row expected vs h =
      counted (read_parts limits 0 (split_tabs row)) (read_parts-HasLength 0 (split_tabs row)) h
    where
      counted :
          (r : Result (List (Option Bytes)))
          → HasLength (length (split_tabs row)) r
          → (if ltb limits.max_row_bytes (length row)
              then err (row_too_large (length row) limits.max_row_bytes)
              else (r >>= check_arity expected))
            ≡ ok vs
          → (length vs ≡ expected) × (length (split_tabs row) ≡ expected)
      counted (err e) k q = ground arith
      counted (ok ws) k q = ground (arith, check_arity-eq-ok expected ws vs)

  -- A row that decodes has one field more than it has tabs, and exactly the expected number, which
  -- is not zero: with an empty column list every row is refused.
  pub decode_row-arity :
      (row : Bytes) (expected : ℕ) {d : Decoded}
      → decode_row row expected limits ≡ ok d
      → (length (split_tabs row) ≡ expected) × (length d.1 ≡ expected) × (0 < expected)
  decode_row-arity row expected {d} h =
      let read : read_row limits row expected ≡ ok (contents d) =
        sym (contents-decode_row row expected limits) ∙ ap (map_ok contents) h in
      omega (
        arith,
        read_row-length row expected (contents d) read,
        split_tabs-length row,
        length-map (Option.map (slice d.0)) d.1,
      )
