-- ===== src/Values/Numbers/Written.antt =====
-- src/values.rs: the numbers read from written digits.
use rust_streamer_pgdb.Prelude.Int.{ℤ}
use rust_streamer_pgdb.Values.{bad}
use rust_streamer_pgdb.Prelude.{
  ◌≤◌, inr, inl, Bool-cases, refl, ◌==◌, ◌≡◌, none, false, some, arith, ◌++◌, true, ◌∷◌, Option, [],
  ◌+◌, ltb, ◌<◌, if◌then◌else◌, codes, All, Bytes, ℕ, Bool,
}
use rust_streamer_pgdb.Values.Numbers.{
  magnitude, with_sign, parse_int, on_text, signed, parse_i64, parse_i32, or_bad, parse_i16,
}
use rust_streamer_pgdb.Error.{err, ok, Result}
use rust_streamer_pgdb.Prelude.Text.{
  parse_digits-value, trim-solid, is_utf8-ascii, digits_value, IsSolid, IsDigit,
}

abbrev pub sign : Bool → Bytes
sign true = codes "-"
sign false = []

-- A digit or a point.
abbrev pub IsBody : ℕ → Type 0
IsBody c = (b'.' ≤ c) × (c ≤ b'9')

pub digits-IsBody : (s : Bytes) → All IsDigit s → All IsBody s
digits-IsBody [] h = tt
digits-IsBody (c ∷ s) h = ((omega arith, omega arith), digits-IsBody s h.1)

pub body-IsSolid : (s : Bytes) → All IsBody s → All IsSolid s
body-IsSolid [] h = tt
body-IsSolid (c ∷ s) h = ((omega arith, omega arith), body-IsSolid s h.1)

pub signed-sign :
    (negative : Bool) (s : Bytes) → All IsBody s → signed (sign negative ++ s) ≡ (negative, s)
signed-sign true s h = refl
signed-sign false [] h = refl
signed-sign false (d ∷ s) h =
    let minus : (d == b'-') ≡ false = ground arith in
    let plus : (d == b'+') ≡ false = ground arith in rw (minus, plus) refl

-- A number that has to be below a bound.
abbrev pub fits : ℕ → Bytes → Bytes → Bool → ℕ → Result (Option ℤ)
fits bound column expected negative n =
    if ltb n bound then ok (some (with_sign negative n)) else err (bad column expected)

abbrev pub above : ℕ → Bool → ℕ
above limit negative = if negative then limit + 1 else limit

pub sign-IsSolid : (negative : Bool) (s : Bytes) → All IsSolid s → All IsSolid (sign negative ++ s)
sign-IsSolid true s h = ((omega arith, omega arith), h)
sign-IsSolid false s h = h

pub on_text-sign :
    (negative : Bool) (s column expected : Bytes) (next : Bytes → Result (Option ℤ))
    → All IsBody s
    → on_text (sign negative ++ s) column expected next ≡ next (sign negative ++ s)
on_text-sign negative s column expected next h =
    let solid : All IsSolid (sign negative ++ s) = sign-IsSolid negative s (body-IsSolid s h) in
    rw (is_utf8-ascii (sign negative ++ s) solid, trim-solid (sign negative ++ s) solid) refl

or_bad-fits :
    (bound : ℕ) (column expected : Bytes) (negative : Bool) (n : ℕ)
    → or_bad column expected negative (if ltb n bound then some n else none)
      ≡ fits bound column expected negative n
or_bad-fits bound column expected negative n = elim (Bool-cases (ltb n bound)) [
  | inl small ↦ rw small refl
  | inr large ↦ rw large refl
]

pub above-positive : (limit : ℕ) (negative : Bool) → 0 < limit → 0 < above limit negative
above-positive limit true lt = omega arith
above-positive limit false lt = lt

parse_int-digits :
    (limit : ℕ) (expected column : Bytes) (negative : Bool) (d : ℕ) (s : Bytes)
    → 0 < limit
    → All IsDigit (d ∷ s)
    → parse_int limit expected (sign negative ++ d ∷ s) column
      ≡ fits (above limit negative) column expected negative (digits_value 0 (d ∷ s))
parse_int-digits limit expected column negative d s lt h =
    let body : All IsBody (d ∷ s) = digits-IsBody (d ∷ s) h in
    let parts : signed (sign negative ++ d ∷ s) ≡ (negative, d ∷ s) =
      signed-sign negative (d ∷ s) body in
    let room : 0 < above limit negative = above-positive limit negative lt in
    let next : Bytes → Result (Option ℤ) =
      λ s. or_bad column expected (signed s).0 (magnitude limit (signed s).0 (signed s).1) in
    rw
      (
        on_text-sign negative (d ∷ s) column expected next body,
        parts,
        parse_digits-value (above limit negative) 0 (d ∷ s) h room,
      )
      (or_bad-fits (above limit negative) column expected negative (digits_value 0 (d ∷ s)))

-- The texts of numbers are read exactly: digits, with a minus or without, give the number they
-- write if it fits 16, 32 or 64 bits in two's complement, and are refused if it does not.
pub parse_int-written :
    (column : Bytes) (negative : Bool) (d : ℕ) (s : Bytes)
    → All IsDigit (d ∷ s)
    → (parse_i16 (sign negative ++ d ∷ s) column
        ≡ fits (above 32768 negative) column (codes "smallint") negative (digits_value 0 (d ∷ s)))
      × (parse_i32 (sign negative ++ d ∷ s) column
          ≡ fits
              (above 2147483648 negative)
              column
              (codes "integer")
              negative
              (digits_value 0 (d ∷ s)))
      × (parse_i64 (sign negative ++ d ∷ s) column
          ≡ fits
              (above 9223372036854775808 negative)
              column
              (codes "bigint")
              negative
              (digits_value 0 (d ∷ s)))
unfolding parse_i16 parse_i32 parse_i64
parse_int-written column negative d s h = (
  parse_int-digits 32768 (codes "smallint") column negative d s (omega arith) h,
  parse_int-digits 2147483648 (codes "integer") column negative d s (omega arith) h,
  parse_int-digits 9223372036854775808 (codes "bigint") column negative d s (omega arith) h,
)
