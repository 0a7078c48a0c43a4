-- ===== src/Builders/Tests.antt =====
-- src/builders.rs: the theorems at concrete input.
use rust_streamer_pgdb.Prelude.Int.{ℤ}
use rust_streamer_pgdb.Builders.Column.{
  ArrowBuilders, OtherParsers, Value, Column, append, append_elements, parsed_or_null,
}
use rust_streamer_pgdb.Error.{ok}
use rust_streamer_pgdb.Prelude.Loop.{loop}
use rust_streamer_pgdb.Prelude.Ascii.{skip_while, is_ascii_whitespace, take_while}
use rust_streamer_pgdb.Prelude.{length, ◌∷◌, [], bytes_eq, Option, List, none, some}
use rust_streamer_pgdb.Types.{decimal_fits, scale_fits, is_textual, ResolvedType, PgType}
use rust_streamer_pgdb.Builders.Agree.{
  IsRepresentable, arrow_type-IsRepresentable, finished_type-new_column,
}
use rust_streamer_pgdb.Builders.Schema.{
  ColumnBuilder, decimal128, list_of, array_element_type, new_column, DecimalBuilder, finished_type,
  arrow_type,
}
use rust_streamer_pgdb.Prelude.{Bool, ◌≤◌, ℕ, refl, arith, codes, ◌≡◌, ◌&&◌, true, some, leb, false}
use rust_streamer_pgdb.Values.{parse_bool}
use rust_streamer_pgdb.Values.Arrays.{parse_array_elements}

abbrev accepted : ℕ → ℤ → Bool
accepted p s = leb 1 p && leb p 38 && scale_fits p (some s)

fitting_lem : (p s : ℕ) → 1 ≤ p → p ≤ 38 → s ≤ p → accepted p (ℤ.pos s) ≡ true
fitting_lem p s positive narrow le = ground arith

instance abbrev arrow_decimals : DecimalBuilder
arrow_decimals = record { accepts = accepted; accepts_fitting = fitting_lem }

-- `numeric(10,2)[]`
abbrev prices : ResolvedType
prices = record {
  pg = PgType.numeric (some 10) (some (ℤ.pos 2));
  is_array = true;
  array_dimensions = 1;
  recognised = true;
  source = codes "numeric(10,2)[]";
}

native_list : arrow_type prices false true ≡ list_of (decimal128 10 (ℤ.pos 2))
unfolding arrow_type array_element_type is_textual decimal_fits
native_list = refl

arrow_type-IsRepresentable_example : IsRepresentable (arrow_type prices false true)
arrow_type-IsRepresentable_example = arrow_type-IsRepresentable prices false true

finished_type-new_column_example :
    finished_type (new_column prices true true) ≡ arrow_type prices true true
finished_type-new_column_example = finished_type-new_column prices true true

-- Builders that hold their values in a list, the last first.
abbrev value_lists : ArrowBuilders (Unit {0}) (List (Option (Value (Unit {0})))) ℕ
value_lists = record {
  empty = λ kind. [];
  append_option = λ s v. v ∷ s;
  finish = λ s. ([], length s);
  len = λ s. length s;
  array_len = λ n. n;
  empty_len = λ kind. refl;
  append_len = λ s v. omega arith;
  finish_len = λ s. (refl, refl);
}

abbrev no_parsers : OtherParsers (Unit {0})
no_parsers = record {
  parse_f32 = λ v name. ok none;
  parse_f64 = λ v name. ok none;
  parse_date = λ v name. ok none;
  parse_time = λ v name. ok none;
  parse_timestamp = λ v tz name. ok none;
}

-- An array of two booleans, one of them NULL, behind another array.
two_booleans :
    append value_lists no_parsers
      (Column.list_column ColumnBuilder.boolean_builder
        (some (Value.truth false) ∷ [])
        (0 ∷ 1 ∷ [])
        (true ∷ []))
      (some (codes "{t,NULL}"))
      (codes "flags")
    ≡ ok (
      Column.list_column ColumnBuilder.boolean_builder
          (none ∷ some (Value.truth true) ∷ some (Value.truth false) ∷ [])
          (0 ∷ 1 ∷ 3 ∷ [])
          (true ∷ true ∷ []),
      false,
    )
unfolding append append_elements parsed_or_null parse_bool parse_array_elements bytes_eq loop
    skip_while is_ascii_whitespace take_while
two_booleans = refl
