-- ===== src/Builders/Column.antt =====
-- src/builders.rs: `ColumnBuilder` with what it holds: `append`, `append_null` and `finish`. The
-- builders of the arrow crate are the parameter `ArrowBuilders`, with the documented contract that a
-- call appends one value and `finish` hands over all values. The parsers of floats, dates and times
-- are the parameter `OtherParsers`, of which nothing is assumed.
pub mod Ops
use rust_streamer_pgdb.Builders.Schema.{ColumnBuilder, DecimalBuilder, new_column}
use rust_streamer_pgdb.Values.{parse_bool, parse_bytea}
use rust_streamer_pgdb.Values.Numbers.{parse_i16, parse_i32, parse_i64, parse_decimal}
use rust_streamer_pgdb.Values.Arrays.{Element, parse_array_elements}
use rust_streamer_pgdb.Prelude.Text.{is_utf8}
use rust_streamer_pgdb.Prelude.Int.{ℤ}
use rust_streamer_pgdb.Prelude.{
  codes, ◌^◌, length, ◌||◌, ltb, ◌+◌, if◌then◌else◌, ◌≡◌, some, true, false, [], ℕ, ◌++◌, Option,
  none, Bytes, List, ◌∷◌, Bool,
}
use rust_streamer_pgdb.Types.{ResolvedType}
use rust_streamer_pgdb.Error.{unparsable_value, internal, non_utf8_text, err, ok, ◌>>=◌, Result}

-- A value that is appended; `F` holds floats.
pub data Value (F : Type 0) : Type 0 where
  integer : ℤ → Value F
  truth : Bool → Value F
  contents : Bytes → Value F
  float : F → Value F

pub record OtherParsers (F : Type 0) : Type 0 where
  pub parse_f32 : Bytes → Bytes → Result (Option F)
  pub parse_f64 : Bytes → Bytes → Result (Option F)
  pub parse_date : Bytes → Bytes → Result (Option ℤ)
  pub parse_time : Bytes → Bytes → Result (Option ℤ)
  pub parse_timestamp : Bytes → Bool → Bytes → Result (Option ℤ)

pub record ArrowBuilders (F S V : Type 0) : Type 0 where
  pub empty : ColumnBuilder → S
  pub append_option : S → Option (Value F) → S
  pub finish : S → S × V
  pub len : S → ℕ
  pub array_len : V → ℕ
  pub empty_len : (kind : ColumnBuilder) → len (empty kind) ≡ 0
  pub append_len : (s : S) (v : Option (Value F)) → len (append_option s v) ≡ len s + 1
  pub finish_len : (s : S) → (len (finish s).0 ≡ 0) × (array_len (finish s).1 ≡ len s)

-- A column by its kind, with the builder of its values; a list has the builder of its elements, since
-- no element is a list again.
pub data Column (S : Type 0) : Type 0 where
  scalar_column : ColumnBuilder → S → Column S
  list_column : ColumnBuilder → S → List ℕ → List Bool → Column S

pub data ColumnArray (V : Type 0) : Type 0 where
  primitive_array : V → ColumnArray V
  list_array : V → List ℕ → List Bool → ColumnArray V

-- `offsets.last()`, where there always is one.
abbrev pub last_or_zero : List ℕ → ℕ
last_or_zero [] = 0
last_or_zero (o ∷ []) = o
last_or_zero (o ∷ p ∷ offsets) = last_or_zero (p ∷ offsets)

abbrev pub is_missing : {X : Type 0} → Option X → Bool
is_missing none = true
is_missing (some x) = false

-- A parsed value and whether it counts as substituted.
abbrev pub Parsed : Type 0 → Type 0
Parsed F = Option (Value F) × Bool

module _ {F : Type 0} where
  abbrev pub plain : {X : Type 0} → (X → Value F) → Option X → Parsed F
  plain f none = (none, false)
  plain f (some x) = (some (f x), false)

  abbrev pub counted : {X : Type 0} → (X → Value F) → Option X → Parsed F
  counted f o = ((plain f o).0, is_missing o)

  -- The arms of `append` on a value, up to the call of the builder. `append` does not come here with
  -- a list.
  abbrev pub parsed : OtherParsers F → ColumnBuilder → Bytes → Bytes → Result (Parsed F)
  parsed p ColumnBuilder.int16_builder v name = parse_i16 v name >>= λ x. ok (plain Value.integer x)
  parsed p ColumnBuilder.int32_builder v name = parse_i32 v name >>= λ x. ok (plain Value.integer x)
  parsed p ColumnBuilder.int64_builder v name = parse_i64 v name >>= λ x. ok (plain Value.integer x)
  parsed p ColumnBuilder.float32_builder v name =
      p.parse_f32 v name >>= λ x. ok (plain Value.float x)
  parsed p ColumnBuilder.float64_builder v name =
      p.parse_f64 v name >>= λ x. ok (plain Value.float x)
  parsed p (ColumnBuilder.decimal_builder precision scale) v name =
      parse_decimal v precision scale name >>= λ x. ok (counted Value.integer x)
  parsed p ColumnBuilder.boolean_builder v name =
      parse_bool v name >>= λ x. ok (plain Value.truth x)
  parsed p ColumnBuilder.date_builder v name =
      p.parse_date v name >>= λ x. ok (counted Value.integer x)
  parsed p (ColumnBuilder.timestamp_builder tz) v name =
      p.parse_timestamp v tz name >>= λ x. ok (counted Value.integer x)
  parsed p ColumnBuilder.time_builder v name =
      p.parse_time v name >>= λ x. ok (plain Value.integer x)
  parsed p ColumnBuilder.binary_builder v name =
      parse_bytea v name [] >>= λ bytes. ok (some (Value.contents bytes), false)
  parsed p ColumnBuilder.utf8_builder v name =
      if is_utf8 v then ok (some (Value.contents v), false) else err (non_utf8_text name)
  parsed p (ColumnBuilder.list_builder element offsets validity) v name =
      err (internal (codes "a list as the element of a list"))

  -- `append` where the column is no list, with `append_null`.
  unfoldable pub parsed_or_null :
      OtherParsers F → ColumnBuilder → Option Bytes → Bytes → Result (Parsed F)
  parsed_or_null p kind none name = ok (none, false)
  parsed_or_null p kind (some v) name = parsed p kind v name

-- `i32::try_from` and `checked_add`, with the new offset.
abbrev pub next_offset : List ℕ → ℕ → Bytes → Result ℕ
next_offset offsets count name =
    if ltb (last_or_zero offsets + count) (2 ^ 31)
    then ok (last_or_zero offsets + count)
    else err (unparsable_value name (codes "array"))

module _ {F S V : Type 0} (arrow : ArrowBuilders F S V) where
  -- `ColumnBuilder::append_null`
  unfoldable pub append_null : Column S → Column S
  append_null (scalar_column kind s) = scalar_column kind (arrow.append_option s none)
  append_null (list_column kind s offsets validity) =
      list_column kind s (offsets ++ last_or_zero offsets ∷ []) (validity ++ false ∷ [])

  -- `ColumnBuilder::finish`
  unfoldable pub finish : Column S → Column S × ColumnArray V
  finish (scalar_column kind s) =
      (scalar_column kind (arrow.finish s).0, primitive_array (arrow.finish s).1)
  finish (list_column kind s offsets validity) = (
    list_column kind (arrow.finish s).0 (0 ∷ []) [],
    list_array (arrow.finish s).1 offsets validity,
  )

  -- The builder that `ColumnBuilder::new` chooses, with what it holds.
  abbrev pub column_of : ColumnBuilder → Column S
  column_of (ColumnBuilder.list_builder element offsets validity) =
      list_column element (arrow.empty element) offsets validity
  column_of kind = scalar_column kind (arrow.empty kind)

  abbrev pub new_held : ⦃d : DecimalBuilder⦄ → ResolvedType → Bool → Bool → Column S
  new_held rt wide native = column_of (new_column rt wide native)

module _ {F S V : Type 0} (arrow : ArrowBuilders F S V) (others : OtherParsers F) where
  -- `for elem in &elements`
  unfoldable pub append_elements :
      ColumnBuilder → S → List Element → Bytes → Bool → Result (S × Bool)
  append_elements kind s [] name substituted = ok (s, substituted)
  append_elements kind s (e ∷ elements) name substituted =
      parsed_or_null others kind e name >>= λ x.
      append_elements kind (arrow.append_option s x.0) elements name (substituted || x.1)

  -- `ColumnBuilder::append`
  unfoldable pub append : Column S → Option Bytes → Bytes → Result (Column S × Bool)
  append c none name = ok (append_null arrow c, false)
  append (scalar_column kind s) (some v) name =
      parsed others kind v name >>= λ x. ok (scalar_column kind (arrow.append_option s x.0), x.1)
  append (list_column kind s offsets validity) (some v) name =
      parse_array_elements v name >>= λ elements.
      append_elements kind s elements name false >>= λ x.
      next_offset offsets (length elements) name >>= λ offset.
      ok (list_column kind x.0 (offsets ++ offset ∷ []) (validity ++ true ∷ []), x.1)
