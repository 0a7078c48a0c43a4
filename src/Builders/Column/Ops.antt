-- ===== src/Builders/Column/Ops.antt =====
-- src/builders.rs: the columns of `ColumnBuilder` keep the count that a batch relies on: an append adds
-- one row, and `finish` hands over all rows and leaves none.
use rust_streamer_pgdb.Builders.Schema.{
  as_element, wide_numeric_scale, wide_numeric_precision, scale_or, array_element_type,
  precision_or, new_list, wide_numeric, DataType, new_scalar, builder_by, new_decimal,
  ColumnBuilder, DecimalBuilder, new_column,
}
use rust_streamer_pgdb.Builders.Column.{
  column_of, next_offset, append_elements, parsed, ArrowBuilders, OtherParsers, Column, ColumnArray,
  append, append_null, finish, new_held,
}
use rust_streamer_pgdb.Prelude.{
  ◌==◌, if◌then◌else◌, subst, ◌&&◌, refl, Bool, true, [], ◌∷◌, false, some, length-append, none,
  length, Bytes, ◌+◌, ℕ, Option, ◌≡◌,
}
use rust_streamer_pgdb.Error.Ends.{Ends-pure, Anything, Ends}
use rust_streamer_pgdb.Values.Arrays.{parse_array_elements}
use rust_streamer_pgdb.Types.{is_textual, ResolvedType, PgType}
use rust_streamer_pgdb.Prelude.Int.{ℤ}
use rust_streamer_pgdb.Builders.Batch.{ColumnOps}

-- A builder that holds no rows.
abbrev pub IsFresh : ColumnBuilder → Type 0
IsFresh (ColumnBuilder.list_builder element offsets validity) = length validity ≡ 0
IsFresh _ = Unit

either-IsFresh :
    (test : Bool) (x y : ColumnBuilder) → IsFresh x → IsFresh y → IsFresh (if test then x else y)
either-IsFresh true x y h k = h
either-IsFresh false x y h k = k

module _ ⦃d : DecimalBuilder⦄ where
  new_decimal-IsFresh : (p : ℕ) (s : ℤ) → IsFresh (new_decimal p s)
  new_decimal-IsFresh p s = either-IsFresh (d.accepts p s) _ _ tt tt

  builder_by-IsFresh : (t : PgType) → IsFresh (builder_by t)
  builder_by-IsFresh (PgType.numeric precision scale) =
      new_decimal-IsFresh (precision_or precision) (scale_or scale)
  builder_by-IsFresh _ = tt

  new_scalar-IsFresh : (wide : Bool) (rt : ResolvedType) → IsFresh (new_scalar wide rt)
  new_scalar-IsFresh wide rt =
      either-IsFresh (wide_numeric wide rt.pg) _ _
        (new_decimal-IsFresh wide_numeric_precision wide_numeric_scale)
        (either-IsFresh (is_textual rt) _ _ tt (builder_by-IsFresh rt.pg))

  new_list-IsFresh :
      (wide : Bool) (rt : ResolvedType) (o : Option DataType) → IsFresh (new_list wide rt o)
  new_list-IsFresh wide rt none = tt
  new_list-IsFresh wide rt (some element) = refl

  pub new_column-IsFresh :
      (rt : ResolvedType) (wide native : Bool) → IsFresh (new_column rt wide native)
  unfolding new_column
  new_column-IsFresh rt wide native =
      either-IsFresh rt.is_array _ _
        (either-IsFresh (native && rt.array_dimensions == 1) _ _
          (new_list-IsFresh wide rt (array_element_type (as_element rt) wide)) tt)
        (new_scalar-IsFresh wide rt)

module _ {F S V : Type 0} (arrow : ArrowBuilders F S V) where
  -- The rows of a column: a list has one validity bit for each.
  abbrev pub column_rows : Column S → ℕ
  column_rows (Column.scalar_column kind s) = arrow.len s
  column_rows (Column.list_column kind s offsets validity) = length validity

  abbrev pub array_rows : ColumnArray V → ℕ
  array_rows (ColumnArray.primitive_array v) = arrow.array_len v
  array_rows (ColumnArray.list_array v offsets validity) = length validity

  rows-append_null : (c : Column S) → column_rows (append_null arrow c) ≡ column_rows c + 1
  unfolding append_null
  rows-append_null (Column.scalar_column kind s) = arrow.append_len s none
  rows-append_null (Column.list_column kind s offsets validity) =
      length-append validity (false ∷ [])

  pub rows-finish :
      (c : Column S)
      → (column_rows (finish arrow c).0 ≡ 0) × (array_rows (finish arrow c).1 ≡ column_rows c)
  unfolding finish
  rows-finish (Column.scalar_column kind s) = arrow.finish_len s
  rows-finish (Column.list_column kind s offsets validity) = (refl, refl)

  pub rows-append :
      (others : OtherParsers F) (c : Column S) (value : Option Bytes) (name : Bytes)
      → Ends Anything (λ x. column_rows x.0 ≡ column_rows c + 1) (append arrow others c value name)
  unfolding append
  rows-append others c none name = rows-append_null c
  rows-append others (Column.scalar_column kind s) (some v) name =
      Ends-pure _ (parsed others kind v name) _ λ x. arrow.append_len s x.0
  rows-append others (Column.list_column kind s offsets validity) (some v) name =
      Ends-pure _ (parse_array_elements v name) _ λ elements.
        Ends-pure _ (append_elements arrow others kind s elements name false) _ λ x.
          Ends-pure _ (next_offset offsets (length elements) name) _
            λ offset. length-append validity (true ∷ [])

  pub rows-column_of : (b : ColumnBuilder) → IsFresh b → column_rows (column_of arrow b) ≡ 0
  rows-column_of (ColumnBuilder.list_builder element offsets validity) h = h
  rows-column_of kind h = arrow.empty_len kind

  -- `ColumnBuilder` as the columns of a batch.
  abbrev pub column_ops :
      ⦃d : DecimalBuilder⦄ → OtherParsers F → ColumnOps (Column S) (ColumnArray V)
  column_ops others = record {
    new_column = new_held arrow;
    append = append arrow others;
    finish = finish arrow;
    size = column_rows;
    array_size = array_rows;
    new_size = λ rt wide native.
        rows-column_of (new_column rt wide native) (new_column-IsFresh rt wide native);
    append_size = λ c value name x e.
        subst (Ends Anything (λ y. column_rows y.0 ≡ column_rows c + 1)) e
          (rows-append others c value name);
    finish_size = rows-finish;
  }
