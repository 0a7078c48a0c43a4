-- ===== src/Values/Numbers.antt =====
-- src/values.rs: `text`, `parse_i16`, `parse_i32`, `parse_i64` and `parse_decimal`. A checked
-- operation on an `i128` that counts up from 0 compares with 2^127.
pub mod Written
pub mod Decimal
pub mod DecimalText
use rust_streamer_pgdb.Prelude.Int.{ℤ, negsuc}
use rust_streamer_pgdb.Values.{bad}
use rust_streamer_pgdb.Prelude.{
  all, first_index, ◌++◌, length, ◌-◌, ◌||◌, drop, [], ◌+◌, ◌&&◌, bytes_eq, is_empty, ltb, codes,
  some, ◌*◌, zero, if◌then◌else◌, ◌==◌, ◌∷◌, take, none, false, Option, not, true, suc, Bool, Bytes,
  ℕ,
}
use rust_streamer_pgdb.Error.{err, ok, Result}
use rust_streamer_pgdb.Prelude.Ascii.{is_ascii_digit, parse_digits, position}
use rust_streamer_pgdb.Prelude.Text.{trim, is_utf8}

-- `text(v, column, expected)?.trim()`, handed on.
abbrev pub on_text : Bytes → Bytes → Bytes → (Bytes → Result (Option ℤ)) → Result (Option ℤ)
on_text v column expected next = if is_utf8 v then next (trim v) else err (bad column expected)

-- The sign of a number, true for a minus, and what follows it.
abbrev pub signed : Bytes → Bool × Bytes
signed [] = (false, [])
signed (c ∷ s) = if c == b'-' then (true, s) else if c == b'+' then (false, s) else (false, c ∷ s)

abbrev pub with_sign : Bool → ℕ → ℤ
with_sign false n = ℤ.pos n
with_sign true zero = ℤ.pos 0
with_sign true (suc n) = negsuc n

-- `str::parse` to a signed integer that counts up to `limit - 1` and down to `-limit`.
abbrev pub magnitude : ℕ → Bool → Bytes → Option ℕ
magnitude limit negative [] = none
magnitude limit negative (d ∷ s) = parse_digits (if negative then limit + 1 else limit) 0 (d ∷ s)

abbrev pub or_bad : Bytes → Bytes → Bool → Option ℕ → Result (Option ℤ)
or_bad column expected negative (some n) = ok (some (with_sign negative n))
or_bad column expected negative none = err (bad column expected)

abbrev pub parse_int : ℕ → Bytes → Bytes → Bytes → Result (Option ℤ)
parse_int limit expected v column =
    on_text v column expected
      (λ s. or_bad column expected (signed s).0 (magnitude limit (signed s).0 (signed s).1))

unfoldable pub parse_i16 : Bytes → Bytes → Result (Option ℤ)
parse_i16 v column = parse_int 32768 (codes "smallint") v column

unfoldable pub parse_i32 : Bytes → Bytes → Result (Option ℤ)
parse_i32 v column = parse_int 2147483648 (codes "integer") v column

unfoldable pub parse_i64 : Bytes → Bytes → Result (Option ℤ)
parse_i64 v column = parse_int 9223372036854775808 (codes "bigint") v column

-- 2^127
abbrev pub i128_limit : ℕ
i128_limit = 170141183460469231731687303715884105728

unfoldable pub pow10 : ℕ → ℕ
pow10 zero = 1
pow10 (suc n) = pow10 n * 10

abbrev pub not_exponent : ℕ → Bool
not_exponent b = not (b == b'e') && not (b == b'E')

-- `digits.find('.')` and the two parts
abbrev pub parts_at : Bytes → Option ℕ → Bytes × Bytes
parts_at digits (some i) = (take i digits, drop (suc i) digits)
parts_at digits none = (digits, [])

abbrev pub parts : Bytes → Bytes × Bytes
parts digits = parts_at digits (first_index b'.' digits)

-- The loop over the digits that are kept, and the loop that pads.
unfoldable pub unscaled : ℕ → Bytes → Option ℕ
unscaled acc [] = some acc
unscaled acc (b ∷ s) =
    let rest = unscaled (acc * 10 + (b - b'0')) s in
    if ltb (acc * 10) i128_limit && ltb (acc * 10 + (b - b'0')) i128_limit then rest else none

unfoldable pub padded : ℕ → ℕ → Option ℕ
padded zero acc = some acc
padded (suc n) acc =
    let rest = padded n (acc * 10) in if ltb (acc * 10) i128_limit then rest else none

abbrev pub pad : ℕ → Option ℕ → Option ℕ
pad n (some acc) = padded n acc
pad n none = none

abbrev pub within : ℕ → Option ℕ → Option ℕ
within limit (some n) = if ltb n limit then some n else none
within limit none = none

-- Both parts are digits. `precision` is at most 38, so that `10_i128.pow` does not overflow.
abbrev pub scaled : ℕ → ℤ → Bytes → Bytes → Option ℕ
scaled precision (ℤ.pos scale) int_part frac_part =
    let kept = take scale frac_part in
    if all (λ b. b == b'0') (drop scale frac_part)
    then within (pow10 precision) (pad (scale - length kept) (unscaled 0 (int_part ++ kept)))
    else none
scaled precision (negsuc n) int_part frac_part = none

abbrev pub of_parts : ℕ → ℤ → Bytes × Bytes → Option ℕ
of_parts precision scale (int_part, frac_part) =
    if is_empty int_part && is_empty frac_part
    then none
    else if all is_ascii_digit int_part && all is_ascii_digit frac_part
    then scaled precision scale int_part frac_part
    else none

-- Behind the sign.
abbrev pub of_digits : ℕ → ℤ → Bytes → Option ℕ
of_digits precision scale digits =
    if is_empty digits || not (all not_exponent digits)
    then none
    else of_parts precision scale (parts digits)

unfoldable pub parse_decimal : Bytes → ℕ → ℤ → Bytes → Result (Option ℤ)
parse_decimal v precision scale column = on_text v column (codes "numeric") (λ s.
    if bytes_eq s (codes "NaN")
    then ok none
    else or_bad column (codes "numeric") (signed s).0 (of_digits precision scale (signed s).1))
