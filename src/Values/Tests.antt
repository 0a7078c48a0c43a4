-- ===== src/Values/Tests.antt =====
-- src/values.rs: the theorems at concrete input.
use rust_streamer_pgdb.Prelude.{true, some, none}
use rust_streamer_pgdb.Prelude.Int.{ℤ}
use rust_streamer_pgdb.Prelude.Text.{digits_value}
use rust_streamer_pgdb.Values.Arrays.{parse_array_elements}
use rust_streamer_pgdb.Values.Arrays.RoundTrip.{parse_array_elements-written_array, written_array}
use rust_streamer_pgdb.Values.Numbers.{
  parse_i16, parse_i32, parse_i64, parse_decimal, or_bad, pow10,
}
use rust_streamer_pgdb.Values.Numbers.Written.{parse_int-written, fits}
use rust_streamer_pgdb.Values.Numbers.Decimal.{exact, value_at}
use rust_streamer_pgdb.Values.Numbers.DecimalText.{parse_decimal-written}
use rust_streamer_pgdb.Values.{bad, octal}
use rust_streamer_pgdb.Values.{
  after_backslash, escape_round, escape_form, hex_val, hex_pairs, by_form, parse_bytea,
}
use rust_streamer_pgdb.Prelude.{refl, arith, ◌≡◌, [], ◌++◌, ◌∷◌, codes}
use rust_streamer_pgdb.Values.Bytea.{
  parse_bytea-hex_written, parse_bytea-escape_written, hex_written, escape_written,
}
use rust_streamer_pgdb.Error.{err, ok}
use rust_streamer_pgdb.Prelude.Loop.{loop}

forms :
    (parse_bytea (codes "\\x48690a") (codes "c") [] ≡ ok (codes "Hi\n"))
    × (parse_bytea (codes "a\\\\b\\101") (codes "c") [] ≡ ok (codes "a\\bA"))
    × (parse_bytea (codes "\\x4") (codes "c") [] ≡ err (bad (codes "c") (codes "bytea")))
unfolding parse_bytea by_form hex_pairs hex_val escape_form loop escape_round after_backslash octal
forms = (refl, refl, refl)

parse_bytea-hex_written_example :
    parse_bytea (codes "\\x" ++ hex_written (255 ∷ 10 ∷ [])) (codes "c") (codes "x")
    ≡ ok (codes "x" ++ (255 ∷ 10 ∷ []))
parse_bytea-hex_written_example =
    parse_bytea-hex_written (codes "c") (codes "x") (255 ∷ 10 ∷ []) (omega arith, (omega arith, tt))

parse_bytea-escape_written_example :
    parse_bytea (escape_written (255 ∷ b'\\' ∷ b'a' ∷ [])) (codes "c") []
    ≡ ok (255 ∷ b'\\' ∷ b'a' ∷ [])
parse_bytea-escape_written_example =
    parse_bytea-escape_written (codes "c") [] (255 ∷ b'\\' ∷ b'a' ∷ [])
      (omega arith, (omega arith, (omega arith, tt)))

parse_array_elements-written_array_example :
    parse_array_elements (written_array (some (codes "a,b") ∷ none ∷ some [] ∷ [])) (codes "c")
    ≡ ok (some (codes "a,b") ∷ none ∷ some [] ∷ [])
parse_array_elements-written_array_example =
    parse_array_elements-written_array (codes "c") (some (codes "a,b") ∷ none ∷ some [] ∷ [])

parse_int-written_example :
    (parse_i16 (codes "-32768") (codes "c")
      ≡ fits 32769 (codes "c") (codes "smallint") true (digits_value 0 (codes "32768")))
    × (parse_i32 (codes "-32768") (codes "c")
        ≡ fits 2147483649 (codes "c") (codes "integer") true (digits_value 0 (codes "32768")))
    × (parse_i64 (codes "-32768") (codes "c")
        ≡ fits 9223372036854775809
            (codes "c")
            (codes "bigint")
            true
            (digits_value 0 (codes "32768")))
parse_int-written_example = parse_int-written (codes "c") true b'3' (codes "2768") (omega arith)

parse_decimal-written_example :
    parse_decimal (codes "-12.50") 4 (ℤ.pos 1) (codes "c")
    ≡ or_bad (codes "c") (codes "numeric") true (exact 4 1 (codes "12") (codes "50"))
parse_decimal-written_example =
    parse_decimal-written true (codes "12") (some (codes "50")) 4 1 (codes "c") (omega arith)
      (omega arith) (omega arith) refl

-- The number -12.5 with one digit behind the point, and one that does not fit.
decimals :
    (exact 4 1 (codes "12") (codes "50") ≡ some 125) × (exact 2 1 (codes "12") (codes "50") ≡ none)
unfolding value_at digits_value pow10
decimals = (refl, refl)
