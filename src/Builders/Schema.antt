-- ===== src/Builders/Schema.antt =====
-- src/builders.rs: `arrow_type`, `as_element`, `array_element_type`, `arrow_schema` and
-- `ColumnBuilder::new`. The builders of the arrow crate that a column holds are new and empty here,
-- and are told by the constructor alone.
use rust_streamer_pgdb.Prelude.Int.{ℤ}
use rust_streamer_pgdb.Types.{
  numeric_too_wide, is_textual, max_decimal_precision, ResolvedType, PgType,
}
use rust_streamer_pgdb.Prelude.{
  true, [], ◌∷◌, ◌==◌, none, ◌≡◌, if◌then◌else◌, false, ◌≤◌, Bytes, ◌&&◌, not, some, Bool, ℕ, List,
  Option,
}

-- The types of Arrow that the code names: times in microseconds, timestamps in UTC, and a list with
-- the nullable field `item`.
pub data DataType : Type 0 where
  int16 : DataType
  int32 : DataType
  int64 : DataType
  float32 : DataType
  float64 : DataType
  decimal128 : ℕ → ℤ → DataType
  boolean : DataType
  date32 : DataType
  timestamp_utc : DataType
  time64 : DataType
  binary : DataType
  utf8 : DataType
  list_of : DataType → DataType

-- `Decimal128Builder::with_precision_and_scale` accepts what Arrow can hold.
pub record DecimalBuilder : Type 0 where
  pub accepts : ℕ → ℤ → Bool
  pub accepts_fitting : (p s : ℕ) → 1 ≤ p → p ≤ 38 → s ≤ p → accepts p (ℤ.pos s) ≡ true

pub data ColumnBuilder : Type 0 where
  int16_builder : ColumnBuilder
  int32_builder : ColumnBuilder
  int64_builder : ColumnBuilder
  float32_builder : ColumnBuilder
  float64_builder : ColumnBuilder
  decimal_builder : ℕ → ℤ → ColumnBuilder
  boolean_builder : ColumnBuilder
  date_builder : ColumnBuilder
  timestamp_builder : Bool → ColumnBuilder
  time_builder : ColumnBuilder
  binary_builder : ColumnBuilder
  list_builder : ColumnBuilder → List ℕ → List Bool → ColumnBuilder
  utf8_builder : ColumnBuilder

abbrev pub wide_numeric_precision : ℕ
wide_numeric_precision = max_decimal_precision

abbrev pub wide_numeric_scale : ℤ
wide_numeric_scale = ℤ.pos 18

-- The condition on `PgType::Numeric { precision, .. }` with the flag.
abbrev pub wide_numeric : Bool → PgType → Bool
wide_numeric wide (PgType.numeric precision scale) = wide && numeric_too_wide precision
wide_numeric wide _ = false

abbrev pub precision_or : Option ℕ → ℕ
precision_or none = 38
precision_or (some p) = p

abbrev pub scale_or : Option ℤ → ℤ
scale_or none = ℤ.pos 0
scale_or (some s) = s

-- The last `match` of `arrow_type`.
abbrev pub type_by : PgType → DataType
type_by PgType.small_int = int16
type_by PgType.integer = int32
type_by PgType.big_int = int64
type_by PgType.real = float32
type_by PgType.double_precision = float64
type_by (PgType.numeric precision scale) = decimal128 (precision_or precision) (scale_or scale)
type_by PgType.boolean = boolean
type_by PgType.date = date32
type_by (PgType.timestamp tz) = timestamp_utc
type_by (PgType.time tz) = time64
type_by PgType.bytea = binary
type_by PgType.text = utf8

-- `arrow_type` on a column that is not an array.
abbrev pub scalar_type : Bool → ResolvedType → DataType
scalar_type wide rt =
    if wide_numeric wide rt.pg
    then decimal128 wide_numeric_precision wide_numeric_scale
    else if is_textual rt
    then utf8
    else type_by rt.pg

abbrev pub as_element : ResolvedType → ResolvedType
as_element rt = record rt { is_array = false; array_dimensions = 0 }

abbrev pub unsupported : Bool → ResolvedType → PgType → Bool
unsupported wide rt PgType.text = not rt.recognised
unsupported wide rt (PgType.numeric precision scale) =
    is_textual rt && not (wide && numeric_too_wide precision)
unsupported wide rt _ = false

-- The element is not an array, so that its type is the one of a scalar.
unfoldable pub array_element_type : ResolvedType → Bool → Option DataType
array_element_type rt wide = if unsupported wide rt rt.pg then none else some (scalar_type wide rt)

abbrev pub list_or_text : Option DataType → DataType
list_or_text none = utf8
list_or_text (some element) = list_of element

unfoldable pub arrow_type : ResolvedType → Bool → Bool → DataType
arrow_type rt wide native =
    if rt.is_array
    then (if native && rt.array_dimensions == 1
        then list_or_text (array_element_type (as_element rt) wide)
        else utf8)
    else scalar_type wide rt

-- A nullable field: its name and its type.
unfoldable pub arrow_schema : List (Bytes × ResolvedType) → Bool → Bool → List (Bytes × DataType)
arrow_schema [] wide native = []
arrow_schema ((name, rt) ∷ columns) wide native =
    (name, arrow_type rt wide native) ∷ arrow_schema columns wide native

module _ ⦃d : DecimalBuilder⦄ where
  abbrev pub new_decimal : ℕ → ℤ → ColumnBuilder
  new_decimal p s = if d.accepts p s then decimal_builder p s else utf8_builder

  -- The last `match` of `ColumnBuilder::new`.
  abbrev pub builder_by : PgType → ColumnBuilder
  builder_by PgType.small_int = int16_builder
  builder_by PgType.integer = int32_builder
  builder_by PgType.big_int = int64_builder
  builder_by PgType.real = float32_builder
  builder_by PgType.double_precision = float64_builder
  builder_by (PgType.numeric precision scale) =
      new_decimal (precision_or precision) (scale_or scale)
  builder_by PgType.boolean = boolean_builder
  builder_by PgType.date = date_builder
  builder_by (PgType.timestamp tz) = timestamp_builder tz
  builder_by (PgType.time tz) = time_builder
  builder_by PgType.bytea = binary_builder
  builder_by PgType.text = utf8_builder

  -- `ColumnBuilder::new` on a column that is not an array.
  abbrev pub new_scalar : Bool → ResolvedType → ColumnBuilder
  new_scalar wide rt =
      if wide_numeric wide rt.pg
      then new_decimal wide_numeric_precision wide_numeric_scale
      else if is_textual rt
      then utf8_builder
      else builder_by rt.pg

  abbrev pub new_list : Bool → ResolvedType → Option DataType → ColumnBuilder
  new_list wide rt none = utf8_builder
  new_list wide rt (some element) = list_builder (new_scalar wide (as_element rt)) (0 ∷ []) []

  -- `ColumnBuilder::new`
  unfoldable pub new_column : ResolvedType → Bool → Bool → ColumnBuilder
  new_column rt wide native =
      if rt.is_array
      then (if native && rt.array_dimensions == 1
          then new_list wide rt (array_element_type (as_element rt) wide)
          else utf8_builder)
      else new_scalar wide rt

-- The type of the array that `ColumnBuilder::finish` returns.
unfoldable pub finished_type : ColumnBuilder → DataType
finished_type int16_builder = int16
finished_type int32_builder = int32
finished_type int64_builder = int64
finished_type float32_builder = float32
finished_type float64_builder = float64
finished_type (decimal_builder p s) = decimal128 p s
finished_type boolean_builder = boolean
finished_type date_builder = date32
finished_type (timestamp_builder tz) = timestamp_utc
finished_type time_builder = time64
finished_type binary_builder = binary
finished_type (list_builder element offsets validity) = list_of (finished_type element)
finished_type utf8_builder = utf8
