-- ===== src/Types/Params.antt =====
-- src/types.rs: `numeric_params` reads the parameters as they are written.
use rust_streamer_pgdb.Prelude.Text.{trim-solid}
use rust_streamer_pgdb.Values.Numbers.Written.{above-positive, body-IsSolid, sign-IsSolid}
use rust_streamer_pgdb.Prelude.{
  inr, ltb, none, zero, inl, leb, Bool-cases, ◌∙◌, if◌then◌else◌, drop-append_cons, suc, drop,
  take-append_self, take, first_index-append, length, some,
}
use mathlib.Core.Option
use rust_streamer_pgdb.Prelude.Int.{ℤ}
use rust_streamer_pgdb.Types.Name.{or_zero, with_scale, parse_i8, parse_u8, numeric_params}
use rust_streamer_pgdb.Prelude.Ascii.{take_while}
use rust_streamer_pgdb.Prelude.{
  first_index, false, refl, true, [], ap, arith, ◌≡◌, ◌++◌, ◌==◌, Lacks, ◌∷◌, not, Option, All, ℕ,
  Bytes, Bool,
}
use rust_streamer_pgdb.Prelude.Text.{trim, parse_digits-value, digits_value, IsDigit}
use rust_streamer_pgdb.Values.Numbers.Written.{signed-sign, digits-IsBody, above, sign, IsBody}
use rust_streamer_pgdb.Values.Numbers.{with_sign}
use rust_streamer_pgdb.Values.Numbers.Decimal.{below}

digits-no_comma : (s : Bytes) → All IsDigit s → Lacks b',' s
digits-no_comma [] h = tt
digits-no_comma (c ∷ s) h = (λ e. absurd (omega arith), digits-no_comma s h.1)

take_while-body : (s : Bytes) → All IsBody s → take_while (λ c. not (c == b',')) s ≡ s
unfolding take_while
take_while-body [] h = refl
take_while-body (c ∷ s) h = ground (arith, take_while-body s h.1)

take_while-sign :
    (negative : Bool) (s : Bytes)
    → All IsBody s
    → take_while (λ c. not (c == b',')) (sign negative ++ s) ≡ sign negative ++ s
unfolding take_while
take_while-sign true s h = ap (λ t. b'-' ∷ t) (take_while-body s h)
take_while-sign false s h = take_while-body s h

parse_u8-digits :
    (d : ℕ) (s : Bytes)
    → All IsDigit (d ∷ s)
    → parse_u8 (d ∷ s) ≡ below 256 (digits_value 0 (d ∷ s))
unfolding parse_u8
parse_u8-digits d s h =
    let plus : (d == b'+') ≡ false = ground arith in
    rw plus (parse_digits-value 256 0 (d ∷ s) h (omega arith))

-- A scale that fits eight bits.
abbrev byte_scale : Bool → ℕ → Option ℤ
byte_scale negative n = Option.map (with_sign negative) (below (above 128 negative) n)

parse_i8-digits :
    (negative : Bool) (d : ℕ) (s : Bytes)
    → All IsDigit (d ∷ s)
    → parse_i8 (sign negative ++ d ∷ s) ≡ byte_scale negative (digits_value 0 (d ∷ s))
unfolding parse_i8
parse_i8-digits negative d s h =
    let body : All IsBody (d ∷ s) = digits-IsBody (d ∷ s) h in
    rw
      (
        signed-sign negative (d ∷ s) body,
        parse_digits-value (above 128 negative) 0 (d ∷ s) h
            (above-positive 128 negative (omega arith)),
      )
      refl

numeric_params_lem :
    (p : ℕ) (ps : Bytes) (negative : Bool) (d : ℕ) (ds : Bytes)
    → All IsDigit (p ∷ ps)
    → All IsDigit (d ∷ ds)
    → numeric_params ((p ∷ ps) ++ b',' ∷ (sign negative ++ d ∷ ds))
      ≡ with_scale
          (below 256 (digits_value 0 (p ∷ ps)))
          (byte_scale negative (digits_value 0 (d ∷ ds)))
unfolding numeric_params
numeric_params_lem p ps negative d ds hp hd =
    let body : All IsBody (d ∷ ds) = digits-IsBody (d ∷ ds) hd in
    let front : first_index b',' ((p ∷ ps) ++ b',' ∷ (sign negative ++ d ∷ ds))
        ≡ some (length (p ∷ ps)) =
      first_index-append b',' (p ∷ ps) (sign negative ++ d ∷ ds) (digits-no_comma (p ∷ ps) hp) in
    let first : take (length (p ∷ ps)) ((p ∷ ps) ++ b',' ∷ (sign negative ++ d ∷ ds)) ≡ p ∷ ps =
      take-append_self (p ∷ ps) _ in
    let second : drop (suc (length (p ∷ ps))) ((p ∷ ps) ++ b',' ∷ (sign negative ++ d ∷ ds))
        ≡ sign negative ++ d ∷ ds =
      drop-append_cons (p ∷ ps) b',' (sign negative ++ d ∷ ds) in
    let solid_first : trim (p ∷ ps) ≡ p ∷ ps =
      trim-solid (p ∷ ps) (body-IsSolid (p ∷ ps) (digits-IsBody (p ∷ ps) hp)) in
    let solid_second : trim (sign negative ++ d ∷ ds) ≡ sign negative ++ d ∷ ds =
      trim-solid (sign negative ++ d ∷ ds)
        (sign-IsSolid negative (d ∷ ds) (body-IsSolid (d ∷ ds) body)) in
    rw
      (
        front,
        first,
        second,
        take_while-sign negative (d ∷ ds) body,
        solid_first,
        solid_second,
        parse_u8-digits p ps hp,
        parse_i8-digits negative d ds hd,
      )
      refl

-- The scale that is meant by a number behind a minus or without one: the number itself from -128 to
-- 127, and zero otherwise.
abbrev pub meant_scale : Bool → ℕ → ℤ
meant_scale false n = if leb n 127 then ℤ.pos n else ℤ.pos 0
meant_scale true zero = ℤ.pos 0
meant_scale true (suc n) = if leb n 127 then ℤ.negsuc n else ℤ.pos 0

-- The precision and the scale that are meant: both, or none for a precision above 255.
abbrev pub meant : ℕ → Bool → ℕ → Option ℕ × Option ℤ
meant p negative n = if leb p 255 then (some p, some (meant_scale negative n)) else (none, none)

scale-meant :
    (negative : Bool) (n : ℕ) → or_zero (byte_scale negative n) ≡ some (meant_scale negative n)
scale-meant false n = ground arith
scale-meant true zero = refl
scale-meant true (suc n) = ground arith

with_scale-meant :
    (p : ℕ) (negative : Bool) (n : ℕ)
    → with_scale (below 256 p) (byte_scale negative n) ≡ meant p negative n
with_scale-meant p negative n = elim (Bool-cases (leb p 255)) [
  | inl fits ↦
      let narrow : ltb p 256 ≡ true = ground arith in
      rw (fits, narrow) (ap (λ s. (some p, s)) (scale-meant negative n))
  | inr wide ↦ let above_byte : ltb p 256 ≡ false = ground arith in rw (wide, above_byte) refl
]

-- The parameters `p,s` of a number, in digits and with a minus in front of the scale or none, are
-- read as the numbers that are written: both if the precision is at most 255 and the scale is from
-- -128 to 127, the precision with a scale of zero if only the scale is out of range, and neither if
-- the precision is.
pub numeric_params-written :
    (p : ℕ) (ps : Bytes) (negative : Bool) (d : ℕ) (ds : Bytes)
    → All IsDigit (p ∷ ps)
    → All IsDigit (d ∷ ds)
    → numeric_params ((p ∷ ps) ++ b',' ∷ (sign negative ++ d ∷ ds))
      ≡ meant (digits_value 0 (p ∷ ps)) negative (digits_value 0 (d ∷ ds))
numeric_params-written p ps negative d ds hp hd =
    numeric_params_lem p ps negative d ds hp hd
    ∙ with_scale-meant (digits_value 0 (p ∷ ps)) negative (digits_value 0 (d ∷ ds))
