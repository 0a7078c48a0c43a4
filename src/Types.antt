-- ===== src/Types.antt =====
-- src/types.rs: the types that the loader tells apart, and `resolve`.
pub mod Name
pub mod Fits
pub mod Params
pub mod Tests
use rust_streamer_pgdb.Prelude.Int.{ℤ, negsuc}
use rust_streamer_pgdb.Prelude.{
  ◌||◌, ◌&&◌, [], none, bytes_eq, codes, leb, ◌∷◌, not, ltb, if◌then◌else◌, map, some, false, true,
  Option, Bool, Bytes, List, ℕ,
}
use rust_streamer_pgdb.Types.Name.{
  normalise, split_params, strip_array_suffix, Lowercase, numeric_params, suffix_round,
}
use rust_streamer_pgdb.Prelude.Text.{trim}

pub data PgType : Type 0 where
  small_int : PgType
  integer : PgType
  big_int : PgType
  real : PgType
  double_precision : PgType
  numeric : Option ℕ → Option ℤ → PgType
  boolean : PgType
  date : PgType
  timestamp : Bool → PgType
  time : Bool → PgType
  bytea : PgType
  text : PgType

pub record ResolvedType : Type 0 where
  pub pg : PgType
  pub is_array : Bool
  pub array_dimensions : ℕ
  pub recognised : Bool
  pub source : Bytes

abbrev pub max_decimal_precision : ℕ
max_decimal_precision = 38

abbrev pub above_max : Option ℕ → Bool
above_max none = true
above_max (some p) = ltb max_decimal_precision p

unfoldable pub numeric_too_wide : Option ℕ → Bool
numeric_too_wide precision = above_max precision

-- `s >= 0 && s <= p`
abbrev pub scale_fits : ℕ → Option ℤ → Bool
scale_fits p none = true
scale_fits p (some (ℤ.pos s)) = leb s p
scale_fits p (some (negsuc s)) = false

unfoldable pub decimal_fits : Option ℕ → Option ℤ → Bool
decimal_fits none scale = false
decimal_fits (some p) scale =
    if leb 1 p && leb p max_decimal_precision then scale_fits p scale else false

abbrev pub is_text : PgType → Bool
is_text PgType.text = true
is_text (PgType.numeric precision scale) = not (decimal_fits precision scale)
is_text _ = false

unfoldable pub is_textual : ResolvedType → Bool
is_textual r = if r.is_array then true else is_text r.pg

abbrev pub textual : List Bytes
textual = map codes (
    "text" ∷ "character varying" ∷ "varchar" ∷ "character" ∷ "char" ∷ "bpchar" ∷ "name" ∷ "uuid"
    ∷ "json" ∷ "jsonb" ∷ "xml" ∷ "inet" ∷ "cidr" ∷ "macaddr" ∷ "macaddr8" ∷ "interval" ∷ "money"
    ∷ "bit" ∷ "bit varying" ∷ "varbit" ∷ "tsvector" ∷ "tsquery" ∷ "point" ∷ "line" ∷ "lseg" ∷ "box"
    ∷ "path" ∷ "polygon" ∷ "circle" ∷ "int4range" ∷ "int8range" ∷ "numrange" ∷ "tsrange"
    ∷ "tstzrange" ∷ "daterange" ∷ [])

abbrev pub one_of : List Bytes → Bytes → Bool
one_of [] name = false
one_of (n ∷ ns) name = bytes_eq n name || one_of ns name

-- The arms of `match name.as_str()` in their order, with the pair that `numeric_params` gives.
abbrev pub arms : Option ℕ × Option ℤ → List (List Bytes × PgType)
arms (precision, scale) =
    (map codes ("smallint" ∷ "int2" ∷ "smallserial" ∷ "serial2" ∷ []), PgType.small_int)
    ∷ (map codes ("integer" ∷ "int" ∷ "int4" ∷ "serial" ∷ "serial4" ∷ []), PgType.integer)
    ∷ (map codes ("bigint" ∷ "int8" ∷ "bigserial" ∷ "serial8" ∷ []), PgType.big_int)
    ∷ (map codes ("real" ∷ "float4" ∷ []), PgType.real)
    ∷ (map codes ("double precision" ∷ "float8" ∷ []), PgType.double_precision)
    ∷ (map codes ("numeric" ∷ "decimal" ∷ []), PgType.numeric precision scale)
    ∷ (map codes ("boolean" ∷ "bool" ∷ []), PgType.boolean)
    ∷ (map codes ("date" ∷ []), PgType.date)
    ∷ (map codes ("timestamp" ∷ "timestamp without time zone" ∷ []), PgType.timestamp false)
    ∷ (map codes ("timestamptz" ∷ "timestamp with time zone" ∷ []), PgType.timestamp true)
    ∷ (map codes ("time" ∷ "time without time zone" ∷ []), PgType.time false)
    ∷ (map codes ("timetz" ∷ "time with time zone" ∷ []), PgType.time true)
    ∷ (map codes ("bytea" ∷ []), PgType.bytea)
    ∷ []

-- The arm that matches; none is the arm `other`.
unfoldable pub arm_of : Bytes → List (List Bytes × PgType) → Option PgType
arm_of name [] = none
arm_of name ((names, pg) ∷ more_arms) = if one_of names name then some pg else arm_of name more_arms

abbrev pub pg_type : Bytes → Option ℕ × Option ℤ → Option PgType
pg_type name pair = arm_of name (arms pair)

abbrev pub resolved : Bytes → ℕ → Bytes → Option PgType → ResolvedType
resolved source dimensions name (some pg) = record {
  pg = pg;
  is_array = ltb 0 dimensions;
  array_dimensions = dimensions;
  recognised = true;
  source = source;
}
resolved source dimensions name none = record {
  pg = PgType.text;
  is_array = ltb 0 dimensions;
  array_dimensions = dimensions;
  recognised = one_of textual name;
  source = source;
}

unfoldable pub resolve : ⦃m : Lowercase⦄ → Bytes → ResolvedType
unfolding suffix_round
resolve sql_type =
    let source = trim sql_type in
    let base = strip_array_suffix source in
    let name = split_params base.0 in
    resolved source base.1 (normalise name.0) (pg_type (normalise name.0) (numeric_params name.1))
