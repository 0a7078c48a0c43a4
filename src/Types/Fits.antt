-- ===== src/Types/Fits.antt =====
-- src/types.rs: which declared types are written as decimals.
use rust_streamer_pgdb.Values.Numbers.Decimal.{exact}
use rust_streamer_pgdb.Prelude.Int.{ℤ, negsuc}
use rust_streamer_pgdb.Types.{
  arms, ResolvedType, arm_of, resolved, PgType, pg_type, one_of, is_text, resolve, is_textual,
  decimal_fits,
}
use mathlib.Core.Bool.{true≢false}
use rust_streamer_pgdb.Prelude.{
  codes, ◌&&◌, is_empty, [], ◌∷◌, not, inr, inl, Bool-cases, sym, All, subst, List, refl, arith,
  none, ◌≤◌, false, some, true, ◌≡◌, Bool, ℕ, Bytes, Option,
}
use rust_streamer_pgdb.Types.Name.{
  normalise, split_params, strip_array_suffix, Lowercase, with_scale, numeric_params,
}
use rust_streamer_pgdb.Prelude.Text.{IsDigit, trim}
use rust_streamer_pgdb.Values.Numbers.DecimalText.{parse_decimal-written, decimal_text, fraction}
use rust_streamer_pgdb.Values.Numbers.{or_bad, parse_decimal}

-- A precision from 1 to 38 and a scale from 0 to the precision.
pub record Fits (precision : Option ℕ) (scale : Option ℤ) : Type 0 where
  pub p : ℕ
  pub s : ℕ
  pub precision_given : precision ≡ some p
  pub scale_given : scale ≡ some (ℤ.pos s)
  pub positive : 1 ≤ p
  pub narrow : p ≤ 38
  pub scale_le : s ≤ p

-- The pairs that `numeric_params` gives: a scale if and only if there is a precision.
abbrev pub IsPair : Option ℕ × Option ℤ → Type 0
IsPair (none, none) = Unit
IsPair (none, some s) = ⊥
IsPair (some p, none) = ⊥
IsPair (some p, some s) = Unit

pair-Fits :
    (precision : Option ℕ) (scale : Option ℤ)
    → IsPair (precision, scale)
    → decimal_fits precision scale ≡ true
    → Fits precision scale
unfolding decimal_fits
pair-Fits none scale h e = cc
pair-Fits (some p) none h e = absurd h
pair-Fits (some p) (some (ℤ.pos s)) h e = record {
  p = p;
  s = s;
  precision_given = refl;
  scale_given = refl;
  positive = ground arith;
  narrow = ground arith;
  scale_le = ground arith;
}
pair-Fits (some p) (some (negsuc s)) h e = ground arith

with_scale-IsPair : (precision : Option ℕ) (scale : Option ℤ) → IsPair (with_scale precision scale)
with_scale-IsPair none scale = tt
with_scale-IsPair (some p) none = tt
with_scale-IsPair (some p) (some s) = tt

numeric_params-IsPair : (params : Bytes) → IsPair (numeric_params params)
unfolding numeric_params
numeric_params-IsPair params = with_scale-IsPair _ _

-- The declared parameters reach the type unchanged.
abbrev From : Option ℕ × Option ℤ → PgType → Type 0
From pair (PgType.numeric precision scale) = (precision, scale) ≡ pair
From pair _ = Unit

abbrev FromOption : Option ℕ × Option ℤ → Option PgType → Type 0
FromOption pair none = Unit
FromOption pair (some pg) = From pair pg

arm_of-FromOption :
    (name : Bytes) (pair : Option ℕ × Option ℤ) (arms : List (List Bytes × PgType))
    → All (λ arm. From pair arm.1) arms
    → FromOption pair (arm_of name arms)
unfolding arm_of
arm_of-FromOption name pair [] h = tt
arm_of-FromOption name pair (arm ∷ more_arms) h = elim (Bool-cases (one_of arm.0 name)) [
  | inl hit ↦ rw hit h.0
  | inr miss ↦ rw miss (arm_of-FromOption name pair more_arms h.1)
]

resolved-From :
    (source : Bytes) (n : ℕ) (name : Bytes) (pair : Option ℕ × Option ℤ) (o : Option PgType)
    → FromOption pair o
    → From pair (resolved source n name o).pg
resolved-From source n name pair none h = tt
resolved-From source n name pair (some pg) h = h

resolve-From :
    ⦃m : Lowercase⦄ (sql_type : Bytes)
    → (params : Bytes) × From (numeric_params params) (resolve sql_type).pg
unfolding resolve
resolve-From sql_type =
    let source = trim sql_type in
    let base = strip_array_suffix source in
    let name = split_params base.0 in
    let pair = numeric_params name.1 in
    let each : All (λ (arm : List Bytes × PgType). From pair arm.1) (arms pair) =
      (tt, (tt, (tt, (tt, (tt, (refl, (tt, (tt, (tt, (tt, (tt, (tt, (tt, tt))))))))))))) in
    (
      name.1,
      resolved-From source base.1 (normalise name.0) pair (pg_type (normalise name.0) pair)
          (arm_of-FromOption (normalise name.0) pair (arms pair) each),
    )

not_text :
    (precision : Option ℕ) (scale : Option ℤ) (r : ResolvedType)
    → r.pg ≡ PgType.numeric precision scale
    → is_textual r ≡ false
    → decimal_fits precision scale ≡ true
unfolding is_textual
not_text precision scale r e h = elim (Bool-cases r.is_array) [
  | inl array ↦ absurd (true≢false (rw array at h))
  | inr scalar ↦
      let fit : not (decimal_fits precision scale) ≡ false =
        subst (λ pg. is_text pg ≡ false) e (rw scalar at h) in
      ground (arith, decimal_fits precision scale)
]

-- Every declaration that is resolved to a number and not to text has a precision from 1 to 38 and a
-- scale from 0 to the precision, so that it is a column of Arrow's `Decimal128`.
pub resolve-Fits :
    ⦃m : Lowercase⦄ (sql_type : Bytes) (precision : Option ℕ) (scale : Option ℤ)
    → (resolve sql_type).pg ≡ PgType.numeric precision scale
    → is_textual (resolve sql_type) ≡ false
    → Fits precision scale
resolve-Fits sql_type precision scale e h =
    let (params, from) = resolve-From sql_type in
    let same : (precision, scale) ≡ numeric_params params =
      subst (From (numeric_params params)) e from in
    let pair : IsPair (precision, scale) = subst IsPair (sym same) (numeric_params-IsPair params) in
    pair-Fits precision scale pair (not_text precision scale (resolve sql_type) e h)

-- A column that is declared as a number and is not text has a precision and a scale with which every
-- value that PostgreSQL writes, digits with or without a sign and a fraction, is read as exactly its
-- number times 10^scale, unless digits other than zero would be lost or the precision is exceeded.
pub resolve-parse_decimal :
    ⦃m : Lowercase⦄ (sql_type : Bytes) (precision : Option ℕ) (scale : Option ℤ) (negative : Bool)
    (int_part : Bytes) (frac_part : Option Bytes) (column : Bytes)
    → (resolve sql_type).pg ≡ PgType.numeric precision scale
    → is_textual (resolve sql_type) ≡ false
    → All IsDigit int_part
    → All IsDigit (fraction frac_part)
    → is_empty int_part && is_empty (fraction frac_part) ≡ false
    → (p : ℕ) × (s : ℕ) × (precision ≡ some p)
      × (scale ≡ some (ℤ.pos s))
      × (parse_decimal (decimal_text negative int_part frac_part) p (ℤ.pos s) column
          ≡ or_bad column (codes "numeric") negative (exact p s int_part (fraction frac_part)))
resolve-parse_decimal sql_type precision scale negative int_part frac_part column e h hi hf digit =
    let fits = resolve-Fits sql_type precision scale e h in
    (
      fits.p,
      fits.s,
      fits.precision_given,
      fits.scale_given,
      parse_decimal-written negative int_part frac_part fits.p fits.s column fits.narrow hi hf
          digit,
    )
