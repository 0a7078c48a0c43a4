-- ===== src/Builders/Agree.antt =====
-- src/builders.rs: the schema and the builders agree.
use mathlib.Core.Bool.{true≢false}
use rust_streamer_pgdb.Prelude.Int.{ℤ, negsuc}
use rust_streamer_pgdb.Types.{ResolvedType, is_textual, is_text, decimal_fits, PgType}
use rust_streamer_pgdb.Builders.Schema.{
  scale_or, type_by, new_decimal, unsupported, as_element, wide_numeric, list_of, builder_by,
  precision_or, new_column, list_or_text, new_list, scalar_type, new_scalar, finished_type,
  decimal128, DecimalBuilder, arrow_type, DataType, array_element_type,
}
use rust_streamer_pgdb.Prelude.{
  none, some, ap, ◌==◌, arith, inr, refl, ◌&&◌, inl, ◌≤◌, false, Bool-cases, ℕ, ◌≡◌, Option, Bool,
}

textual-is_text : (rt : ResolvedType) → is_textual rt ≡ false → is_text rt.pg ≡ false
unfolding is_textual
textual-is_text rt h = elim (Bool-cases rt.is_array) [
  | inl array ↦ absurd (true≢false (rw array at h))
  | inr scalar ↦ rw scalar at h
]

-- What Arrow can hold: the decimals are those of `Decimal128`.
abbrev pub IsRepresentable : DataType → Type 0
IsRepresentable (decimal128 p (ℤ.pos s)) = (1 ≤ p) × (p ≤ 38) × (s ≤ p)
IsRepresentable (decimal128 p (negsuc s)) = ⊥
IsRepresentable (list_of t) = IsRepresentable t
IsRepresentable _ = Unit

numeric-IsRepresentable :
    (precision : Option ℕ) (scale : Option ℤ)
    → is_text (PgType.numeric precision scale) ≡ false
    → IsRepresentable (decimal128 (precision_or precision) (scale_or scale))
unfolding decimal_fits
numeric-IsRepresentable none scale h = absurd (true≢false h)
numeric-IsRepresentable (some p) none h = (ground arith, ground arith, omega arith)
numeric-IsRepresentable (some p) (some (ℤ.pos s)) h = (ground arith, ground arith, ground arith)
numeric-IsRepresentable (some p) (some (negsuc s)) h = ground arith

type_by-IsRepresentable : (pg : PgType) → is_text pg ≡ false → IsRepresentable (type_by pg)
type_by-IsRepresentable PgType.small_int h = tt
type_by-IsRepresentable PgType.integer h = tt
type_by-IsRepresentable PgType.big_int h = tt
type_by-IsRepresentable PgType.real h = tt
type_by-IsRepresentable PgType.double_precision h = tt
type_by-IsRepresentable (PgType.numeric precision scale) h =
    numeric-IsRepresentable precision scale h
type_by-IsRepresentable PgType.boolean h = tt
type_by-IsRepresentable PgType.date h = tt
type_by-IsRepresentable (PgType.timestamp tz) h = tt
type_by-IsRepresentable (PgType.time tz) h = tt
type_by-IsRepresentable PgType.bytea h = tt
type_by-IsRepresentable PgType.text h = tt

scalar_type-IsRepresentable :
    (wide : Bool) (rt : ResolvedType) → IsRepresentable (scalar_type wide rt)
scalar_type-IsRepresentable wide rt = elim (Bool-cases (wide_numeric wide rt.pg)) [
  | inl is_wide ↦ rw is_wide (omega arith)
  | inr narrow ↦ elim (Bool-cases (is_textual rt)) [
    | inl textual ↦ rw (narrow, textual) tt
    | inr other ↦ rw (narrow, other) (type_by-IsRepresentable rt.pg (textual-is_text rt other))
  ]
]

element-IsRepresentable :
    (wide : Bool) (rt : ResolvedType) → IsRepresentable (list_or_text (array_element_type rt wide))
unfolding array_element_type
element-IsRepresentable wide rt = elim (Bool-cases (unsupported wide rt rt.pg)) [
  | inl refused ↦ rw refused tt
  | inr taken ↦ rw taken (scalar_type-IsRepresentable wide rt)
]

-- Whatever type is declared and whichever flags are set, a column that is written as a decimal, or
-- as a list of decimals, has a precision from 1 to 38 and a scale from 0 to the precision.
pub arrow_type-IsRepresentable :
    (rt : ResolvedType) (wide native : Bool) → IsRepresentable (arrow_type rt wide native)
unfolding arrow_type
arrow_type-IsRepresentable rt wide native = elim (Bool-cases rt.is_array) [
  | inl array ↦ elim (Bool-cases (native && rt.array_dimensions == 1)) [
    | inl as_list ↦ simp (array, as_list) (element-IsRepresentable wide (as_element rt))
    | inr as_text ↦ simp (array, as_text) tt
  ]
  | inr scalar ↦ simp scalar (scalar_type-IsRepresentable wide rt)
]

module _ ⦃d : DecimalBuilder⦄ where
  new_decimal-type :
      (p : ℕ) (s : ℤ)
      → IsRepresentable (decimal128 p s)
      → finished_type (new_decimal p s) ≡ decimal128 p s
  unfolding finished_type
  new_decimal-type p (ℤ.pos s) h = rw (d.accepts_fitting p s h.0 h.1 h.2) refl
  new_decimal-type p (negsuc s) h = absurd h

  builder_by-type : (pg : PgType) → is_text pg ≡ false → finished_type (builder_by pg) ≡ type_by pg
  unfolding finished_type
  builder_by-type PgType.small_int h = refl
  builder_by-type PgType.integer h = refl
  builder_by-type PgType.big_int h = refl
  builder_by-type PgType.real h = refl
  builder_by-type PgType.double_precision h = refl
  builder_by-type (PgType.numeric precision scale) h =
      new_decimal-type (precision_or precision) (scale_or scale)
        (numeric-IsRepresentable precision scale h)
  builder_by-type PgType.boolean h = refl
  builder_by-type PgType.date h = refl
  builder_by-type (PgType.timestamp tz) h = refl
  builder_by-type (PgType.time tz) h = refl
  builder_by-type PgType.bytea h = refl
  builder_by-type PgType.text h = refl

  new_scalar-type :
      (wide : Bool) (rt : ResolvedType) → finished_type (new_scalar wide rt) ≡ scalar_type wide rt
  unfolding finished_type
  new_scalar-type wide rt = elim (Bool-cases (wide_numeric wide rt.pg)) [
    | inl is_wide ↦
        let accepted = new_decimal-type 38 (ℤ.pos 18) (omega arith) in rw is_wide accepted
    | inr narrow ↦ elim (Bool-cases (is_textual rt)) [
      | inl textual ↦ rw (narrow, textual) refl
      | inr other ↦ rw (narrow, other) (builder_by-type rt.pg (textual-is_text rt other))
    ]
  ]

  new_list-type :
      (wide : Bool) (rt : ResolvedType)
      → finished_type (new_list wide rt (array_element_type (as_element rt) wide))
        ≡ list_or_text (array_element_type (as_element rt) wide)
  unfolding finished_type array_element_type
  new_list-type wide rt = elim (Bool-cases (unsupported wide (as_element rt) rt.pg)) [
    | inl refused ↦ rw refused refl
    | inr taken ↦ rw taken (ap list_of (new_scalar-type wide (as_element rt)))
  ]

  -- The builder that is made for a column gives arrays of exactly the type that the schema states for
  -- the column, whatever is declared and whichever flags are set, so that a batch is never refused
  -- for its types and no decimal silently becomes text.
  pub finished_type-new_column :
      (rt : ResolvedType) (wide native : Bool)
      → finished_type (new_column rt wide native) ≡ arrow_type rt wide native
  unfolding finished_type new_column arrow_type
  finished_type-new_column rt wide native = elim (Bool-cases rt.is_array) [
    | inl array ↦ elim (Bool-cases (native && rt.array_dimensions == 1)) [
      | inl as_list ↦ simp (array, as_list) (new_list-type wide rt)
      | inr as_text ↦ simp (array, as_text) refl
    ]
    | inr scalar ↦ simp scalar (new_scalar-type wide rt)
  ]
