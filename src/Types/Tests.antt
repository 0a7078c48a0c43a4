-- ===== src/Types/Tests.antt =====
-- src/types.rs: the theorems at concrete input.
use rust_streamer_pgdb.Types.{arm_of, decimal_fits, PgType, resolve, is_textual}
use rust_streamer_pgdb.Prelude.Ascii.{take_while, ends_with, parse_digits, to_ascii_lowercase}
use rust_streamer_pgdb.Prelude.{
  arith, false, last_index, true, first_index, bytes_eq, ℕ, refl, some, map, ◌≡◌, codes,
}
use rust_streamer_pgdb.Types.Name.{
  strip_array_suffix, parse_i8, split_params, parse_u8, suffix_round, normalise_from,
  numeric_params, Lowercase,
}
use rust_streamer_pgdb.Prelude.Int.{ℤ}
use rust_streamer_pgdb.Types.Fits.{resolve-parse_decimal, resolve-Fits, Fits}
use rust_streamer_pgdb.Prelude.Loop.{loop}
use rust_streamer_pgdb.Values.Numbers.{or_bad, parse_decimal}
use rust_streamer_pgdb.Prelude.Text.{chars, digits_value, trim_end}
use rust_streamer_pgdb.Values.Numbers.Decimal.{exact}
use rust_streamer_pgdb.Types.Params.{numeric_params-written}

instance abbrev ascii_lowercase : Lowercase
unfolding to_ascii_lowercase
ascii_lowercase = record { to_lowercase = map to_ascii_lowercase; lowercase_ascii = λ c h. refl }

number : (resolve (codes "Numeric ( 10,2)")).pg ≡ PgType.numeric (some 10) (some (ℤ.pos 2))
unfolding resolve arm_of bytes_eq normalise_from chars trim_end split_params first_index loop
    ends_with ascii_lowercase numeric_params parse_u8 parse_digits parse_i8 take_while
number = refl

number-not_text : is_textual (resolve (codes "Numeric ( 10,2)")) ≡ false
unfolding resolve is_textual decimal_fits arm_of bytes_eq normalise_from chars trim_end split_params
    first_index loop ends_with ascii_lowercase numeric_params parse_u8 parse_digits parse_i8
    take_while
number-not_text = refl

-- An array, with its dimensions counted.
array : strip_array_suffix (codes "integer[] [3]") ≡ (codes "integer", 2)
unfolding loop trim_end suffix_round ends_with last_index bytes_eq
array = refl

resolve-Fits_example : Fits (some 10) (some (ℤ.pos 2))
resolve-Fits_example =
    resolve-Fits (codes "Numeric ( 10,2)") (some 10) (some (ℤ.pos 2)) number number-not_text

resolve-parse_decimal_example :
    (p : ℕ) × (s : ℕ) × (some 10 ≡ some p)
    × (some (ℤ.pos 2) ≡ some (ℤ.pos s))
    × (parse_decimal (codes "-12.5") p (ℤ.pos s) (codes "c")
        ≡ or_bad (codes "c") (codes "numeric") true (exact p s (codes "12") (codes "5")))
resolve-parse_decimal_example =
    resolve-parse_decimal (codes "Numeric ( 10,2)") (some 10) (some (ℤ.pos 2)) true (codes "12")
      (some (codes "5")) (codes "c") number number-not_text (omega arith) (omega arith) refl

numeric_params-written_example : numeric_params (codes "10,-128") ≡ (some 10, some (ℤ.negsuc 127))
unfolding digits_value
numeric_params-written_example =
    numeric_params-written b'1' (codes "0") true b'1' (codes "28") (omega arith) (omega arith)

-- A scale that does not fit eight bits becomes zero.
wide_scale : numeric_params (codes "10,300") ≡ (some 10, some (ℤ.pos 0))
unfolding numeric_params first_index parse_u8 parse_digits parse_i8 take_while trim_end
wide_scale = refl
