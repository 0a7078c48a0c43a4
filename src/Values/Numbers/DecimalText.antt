-- ===== src/Values/Numbers/DecimalText.antt =====
-- src/values.rs: `parse_decimal` reads exactly the number that is written.
use rust_streamer_pgdb.Prelude.{
  if◌then◌else◌, drop-append_cons, take-append_self, All-append, first_index-append, refl, true,
  Lacks-first_index, ◌≡◌, none, arith, ◌∷◌, Lacks, codes, some, all, ◌&&◌, is_empty, ◌++◌, [], ◌≤◌,
  All, Option, ℕ, bytes_eq, Bytes, Bool, false,
}
use mathlib.Core.List.{append-nil}
use rust_streamer_pgdb.Values.Numbers.{
  of_digits, or_bad, parts, not_exponent, parse_decimal, signed,
}
use rust_streamer_pgdb.Prelude.Int.{ℤ}
use rust_streamer_pgdb.Values.Numbers.Written.{
  signed-sign, on_text-sign, digits-IsBody, sign, IsBody,
}
use rust_streamer_pgdb.Prelude.Text.{IsDigit}
use rust_streamer_pgdb.Prelude.Ascii.{is_ascii_digit}
use rust_streamer_pgdb.Values.Numbers.Decimal.{scaled-exact, exact}
use rust_streamer_pgdb.Error.{ok, Result}

-- A fraction part, with its point, or none.
abbrev pub fraction : Option Bytes → Bytes
fraction none = []
fraction (some s) = s

abbrev pub point : Option Bytes → Bytes
point none = []
point (some s) = b'.' ∷ s

abbrev pub decimal_text : Bool → Bytes → Option Bytes → Bytes
decimal_text negative int_part frac_part = sign negative ++ (int_part ++ point frac_part)

digits-Lacks : (s : Bytes) → All IsDigit s → Lacks b'.' s
digits-Lacks [] h = tt
digits-Lacks (c ∷ s) h = (λ e. absurd (omega arith), digits-Lacks s h.1)

parts-point :
    (int_part : Bytes) (frac_part : Option Bytes)
    → All IsDigit int_part
    → parts (int_part ++ point frac_part) ≡ (int_part, fraction frac_part)
parts-point int_part none h =
    rw (append-nil int_part, Lacks-first_index b'.' int_part (digits-Lacks int_part h)) refl
parts-point int_part (some s) h =
    rw
      (
        first_index-append b'.' int_part s (digits-Lacks int_part h),
        take-append_self int_part (b'.' ∷ s),
        drop-append_cons int_part b'.' s,
      )
      refl

all-digits : (s : Bytes) → All IsDigit s → all is_ascii_digit s ≡ true
all-digits [] h = refl
all-digits (c ∷ s) h = ground (arith, all-digits s h.1)

all-not_exponent : (s : Bytes) → All IsBody s → all not_exponent s ≡ true
all-not_exponent [] h = refl
all-not_exponent (c ∷ s) h = ground (arith, all-not_exponent s h.1)

point-IsBody : (s : Option Bytes) → All IsDigit (fraction s) → All IsBody (point s)
point-IsBody none h = tt
point-IsBody (some s) h = ((omega arith, omega arith), digits-IsBody s h)

sign-not_nan :
    (negative : Bool) (s : Bytes)
    → All IsBody s
    → bytes_eq (sign negative ++ s) (codes "NaN") ≡ false
unfolding bytes_eq
sign-not_nan true s h = refl
sign-not_nan false [] h = refl
sign-not_nan false (c ∷ s) h = ground arith

text_there :
    (int_part : Bytes) (frac_part : Option Bytes)
    → is_empty int_part && is_empty (fraction frac_part) ≡ false
    → is_empty (int_part ++ point frac_part) ≡ false
text_there (c ∷ s) f h = refl
text_there [] none h = h
text_there [] (some s) h = refl

of_digits-exact :
    (precision scale : ℕ) (int_part : Bytes) (frac_part : Option Bytes)
    → precision ≤ 38
    → All IsDigit int_part
    → All IsDigit (fraction frac_part)
    → is_empty int_part && is_empty (fraction frac_part) ≡ false
    → of_digits precision (ℤ.pos scale) (int_part ++ point frac_part)
      ≡ exact precision scale int_part (fraction frac_part)
of_digits-exact precision scale int_part frac_part le hi hf some_digit =
    let body : All IsBody (int_part ++ point frac_part) =
      All-append IsBody int_part (point frac_part) (digits-IsBody int_part hi)
        (point-IsBody frac_part hf) in
    let there : is_empty (int_part ++ point frac_part) ≡ false =
      text_there int_part frac_part some_digit in
    rw
      (
        there,
        all-not_exponent (int_part ++ point frac_part) body,
        parts-point int_part frac_part hi,
        some_digit,
        all-digits int_part hi,
        all-digits (fraction frac_part) hf,
      )
      (scaled-exact precision scale int_part (fraction frac_part) le)

-- A decimal that is written with digits, with or without a sign, a point and a fraction, and with a
-- digit at least, is read as exactly its number times 10^scale, for a precision of at most 38. It is
-- refused if and only if a digit other than zero would be dropped or the number has more digits
-- than the precision; no overflow of the 128 bits changes the result.
pub parse_decimal-written :
    (negative : Bool) (int_part : Bytes) (frac_part : Option Bytes) (precision scale : ℕ)
    (column : Bytes)
    → precision ≤ 38
    → All IsDigit int_part
    → All IsDigit (fraction frac_part)
    → is_empty int_part && is_empty (fraction frac_part) ≡ false
    → parse_decimal (decimal_text negative int_part frac_part) precision (ℤ.pos scale) column
      ≡ or_bad column
          (codes "numeric")
          negative
          (exact precision scale int_part (fraction frac_part))
unfolding parse_decimal
parse_decimal-written negative int_part frac_part precision scale column le hi hf some_digit =
    let s : Bytes = int_part ++ point frac_part in
    let body : All IsBody s =
      All-append IsBody int_part (point frac_part) (digits-IsBody int_part hi)
        (point-IsBody frac_part hf) in
    let next : Bytes → Result (Option ℤ) = λ s.
      if bytes_eq s (codes "NaN")
      then ok none
      else or_bad column (codes "numeric") (signed s).0
          (of_digits precision (ℤ.pos scale) (signed s).1) in
    rw
      (
        on_text-sign negative s column (codes "numeric") next body,
        sign-not_nan negative s body,
        signed-sign negative s body,
        of_digits-exact precision scale int_part frac_part le hi hf some_digit,
      )
      refl
