-- ===== src/Copy/DecodeRow/Reference.antt =====
-- src/copy.rs: a row by recursion on its bytes, with no iterator state, buffer or range. This is
-- the format as PostgreSQL documents it, which `decode_row` is compared with.
use mathlib.Core.Option
use rust_streamer_pgdb.Copy.DecodeRow.{Decoded, Ranges}
use rust_streamer_pgdb.Copy.Field.{Limits, classify}
use rust_streamer_pgdb.Copy.Unescape.{to_vec}
use rust_streamer_pgdb.Prelude.{
  take-append_below, drop-append_below, Lacks, ap₂, take-length, refl, length-drop,
  drop-append_self, ap, length-append, ◌≡◌, none, arith, ◌-◌, ◌+◌, drop, All, map, ltb, some,
  length, take, ◌≤◌, ◌++◌, ◌==◌, [], if◌then◌else◌, Option, ◌∷◌, List, ℕ, Memchr, Bytes,
}
use rust_streamer_pgdb.Error.{
  field_too_large, too_many_columns, row_too_large, field_count_mismatch, err, ◌>>=◌, ok, Result,
}

-- A byte in front of the first part.
abbrev pub put_first : ℕ → List Bytes → List Bytes
put_first c [] = (c ∷ []) ∷ []
put_first c (p ∷ ps) = (c ∷ p) ∷ ps

-- The parts between tabs; there is always one.
unfoldable pub split_tabs : Bytes → List Bytes
split_tabs [] = [] ∷ []
split_tabs (c ∷ s) = let rest = split_tabs s in if c == b'\t' then [] ∷ rest else put_first c rest

pub split_tabs-Lacks : (s : Bytes) → Lacks b'\t' s → split_tabs s ≡ s ∷ []
unfolding split_tabs
split_tabs-Lacks [] h = refl
split_tabs-Lacks (c ∷ s) h = ground (arith, split_tabs-Lacks s h.1)

pub split_tabs-cons : (p t : Bytes) → Lacks b'\t' p → split_tabs (p ++ b'\t' ∷ t) ≡ p ∷ split_tabs t
unfolding split_tabs
split_tabs-cons [] t h = ground arith
split_tabs-cons (c ∷ p) t h = ground (arith, split_tabs-cons p t h.1)

-- One value: NULL, or the bytes with the escapes resolved.
abbrev pub value : ⦃m : Memchr⦄ → Bytes → Result (Option Bytes)
value s = to_vec (classify s)

abbrev pub values : ⦃m : Memchr⦄ → List Bytes → Result (List (Option Bytes))
values [] = ok []
values (p ∷ ps) = do v ← value p; vs ← values ps; ok (v ∷ vs)

abbrev pub check_arity : ℕ → List (Option Bytes) → Result (List (Option Bytes))
check_arity expected vs =
    if length vs == expected then ok vs else err (field_count_mismatch (length vs) expected)

module _ ⦃m : Memchr⦄ (limits : Limits) where
  -- The parts from the `n`-th on. The bounds are tested before the part is decoded.
  unfoldable pub read_parts : ℕ → List Bytes → Result (List (Option Bytes))
  read_parts n [] = ok []
  read_parts n (p ∷ ps) =
      if ltb limits.max_columns (n + 1)
      then err (too_many_columns (n + 1) limits.max_columns)
      else if ltb limits.max_field_bytes (length p)
      then err (field_too_large (length p) limits.max_field_bytes)
      else (value p >>= λ v. read_parts (n + 1) ps >>= λ vs. ok (v ∷ vs))

  -- The values of a row that has `expected` fields.
  unfoldable pub read_row : Bytes → ℕ → Result (List (Option Bytes))
  read_row row expected =
      if ltb limits.max_row_bytes (length row)
      then err (row_too_large (length row) limits.max_row_bytes)
      else (read_parts 0 (split_tabs row) >>= check_arity expected)

-- The bytes of a range.
abbrev pub slice : Bytes → ℕ × ℕ → Bytes
slice scratch (a, b) = take (b - a) (drop a scratch)

-- The values that a decoded row holds.
abbrev pub contents : Decoded → List (Option Bytes)
contents (scratch, out) = map (Option.map (slice scratch)) out

-- Every range lies inside the buffer.
abbrev pub InRange : Bytes → Option (ℕ × ℕ) → Type 0
InRange scratch none = Unit
InRange scratch (some (a, b)) = (a ≤ b) × (b ≤ length scratch)

abbrev pub IsSound : Decoded → Type 0
IsSound (scratch, out) = All (InRange scratch) out

abbrev pub map_ok {ℓ κ} : {A : Type ℓ} {B : Type κ} → (A → B) → Result A → Result B
map_ok f (ok a) = ok (f a)
map_ok f (err e) = err e

-- A buffer that grows keeps what its ranges hold.
slice-append :
    (scratch more : Bytes) (a b : ℕ)
    → a ≤ b
    → b ≤ length scratch
    → slice (scratch ++ more) (a, b) ≡ slice scratch (a, b)
slice-append scratch more a b h k =
    rw (drop-append_below a scratch more (omega arith))
      (take-append_below (b - a) (drop a scratch) more (omega (arith, length-drop a scratch)))

pub contents_grow :
    (scratch more : Bytes) (out : Ranges)
    → IsSound (scratch, out)
    → contents (scratch ++ more, out) ≡ contents (scratch, out)
contents_grow scratch more [] h = refl
contents_grow scratch more (none ∷ out) h = ap (◌∷◌ none) (contents_grow scratch more out h.1)
contents_grow scratch more (some (a, b) ∷ out) h =
    ap₂ (λ x xs. some x ∷ xs) (slice-append scratch more a b h.0.0 h.0.1)
      (contents_grow scratch more out h.1)

pub IsSound-grow :
    (scratch more : Bytes) (out : Ranges) → IsSound (scratch, out) → IsSound (scratch ++ more, out)
IsSound-grow scratch more [] h = tt
IsSound-grow scratch more (none ∷ out) h = (tt, IsSound-grow scratch more out h.1)
IsSound-grow scratch more (some (a, b) ∷ out) h =
    (omega (arith, h.0, length-append scratch more), IsSound-grow scratch more out h.1)

-- The range behind the old end holds what was appended.
pub slice_end :
    (scratch v : Bytes) → slice (scratch ++ v) (length scratch, length (scratch ++ v)) ≡ v
slice_end scratch v =
    let rest : length (scratch ++ v) - length scratch ≡ length v =
      omega (arith, length-append scratch v) in
    rw (drop-append_self scratch v, rest) (take-length v)
