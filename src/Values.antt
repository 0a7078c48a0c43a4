-- ===== src/Values.antt =====
-- src/values.rs: `bad`, `parse_bool` and `parse_bytea`. A buffer that is appended to is handed on
-- and returned, and `hi << 4 | lo` on a `u8` with `lo < 16` is `hi * 16 % 256 + lo`.
pub mod Bytea
pub mod Arrays
pub mod Numbers
pub mod Tests
use rust_streamer_pgdb.Prelude.{
  ℕ, ◌≡◌, ◌<◌, ◌+◌, ◌-◌, ◌*◌, ◌%◌, Bool, true, false, ◌&&◌, ◌||◌, Option, none, some, [], ◌∷◌, ◌++◌,
  length, Bytes, codes, bytes_eq, leb, ltb, ◌==◌, if◌then◌else◌, arith,
}
use rust_streamer_pgdb.Prelude.Loop.{Round, done, more, loop}
use rust_streamer_pgdb.Error.{Error, Result, ok, err, unparsable_value}

abbrev pub bad : Bytes → Bytes → Error
bad column expected = unparsable_value column expected

unfoldable pub parse_bool : Bytes → Bytes → Result (Option Bool)
parse_bool v column =
    if bytes_eq v (codes "t") || bytes_eq v (codes "true") || bytes_eq v (codes "T")
    then ok (some true)
    else if bytes_eq v (codes "f") || bytes_eq v (codes "false") || bytes_eq v (codes "F")
    then ok (some false)
    else err (bad column (codes "boolean"))

unfoldable pub hex_val : ℕ → Option ℕ
hex_val b =
    if leb b'0' b && leb b b'9'
    then some (b - b'0')
    else if leb b'a' b && leb b b'f'
    then some (b - b'a' + 10)
    else if leb b'A' b && leb b b'F'
    then some (b - b'A' + 10)
    else none

-- The digits of a pair, each with its `ok_or_else(…)?`.
abbrev pub joined : Option ℕ → Option ℕ → Option ℕ
joined (some hi) (some lo) = some (hi * 16 % 256 + lo)
joined _ _ = none

abbrev pub on_pair : Bytes → Option ℕ → (ℕ → Result Bytes) → Result Bytes
on_pair column (some value) next = next value
on_pair column none next = err (bad column (codes "bytea"))

-- `for pair in hex.chunks_exact(2)`
unfoldable pub hex_pairs : Bytes → Bytes → Bytes → Result Bytes
hex_pairs column out [] = ok out
hex_pairs column out (b ∷ []) = ok out
hex_pairs column out (h ∷ l ∷ rest) =
    on_pair column (joined (hex_val h) (hex_val l))
      (λ value. hex_pairs column (out ++ value ∷ []) rest)

abbrev pub Escaped : Type 0
Escaped = Bytes × Bytes

abbrev pub is_octal : ℕ → Bool
is_octal b = leb b'0' b && leb b b'7'

-- The three digits from `v[i]` on.
unfoldable pub octal : Bytes → Bytes → Bytes → Round Escaped (Result Bytes)
octal column out (x ∷ y ∷ z ∷ rest) =
    if is_octal x && is_octal y && is_octal z
    then (if ltb 255 (((x - b'0') * 8 + (y - b'0')) * 8 + (z - b'0'))
        then done (err (bad column (codes "bytea")))
        else more (out ++ (((x - b'0') * 8 + (y - b'0')) * 8 + (z - b'0')) ∷ [], rest))
    else done (err (bad column (codes "bytea")))
octal column out _ = done (err (bad column (codes "bytea")))

unfoldable pub after_backslash : Bytes → Bytes → Bytes → Round Escaped (Result Bytes)
unfolding octal
after_backslash column out [] = done (err (bad column (codes "bytea")))
after_backslash column out (c ∷ rest) =
    if c == b'\\'
    then more (out ++ b'\\' ∷ [], rest)
    else if leb b'0' c && leb c b'9'
    then octal column out (c ∷ rest)
    else done (err (bad column (codes "bytea")))

-- One round of `while i < v.len()`: the buffer, and the bytes from `i` on.
unfoldable pub escape_round : Bytes → Escaped → Round Escaped (Result Bytes)
unfolding after_backslash
escape_round column (out, []) = done (ok out)
escape_round column (out, b ∷ rest) =
    if b == b'\\' then after_backslash column out rest else more (out ++ b ∷ [], rest)

octal_falls :
    (column out v : Bytes) (t : Escaped) → octal column out v ≡ more t → length t.1 < length v
unfolding octal
octal_falls column out [] t e = cc
octal_falls column out (x ∷ []) t e = cc
octal_falls column out (x ∷ y ∷ []) t e = cc
octal_falls column out (x ∷ y ∷ z ∷ rest) t e = ground arith

backslash_falls :
    (column out v : Bytes) (t : Escaped)
    → after_backslash column out v ≡ more t
    → length t.1 < length v
unfolding after_backslash
backslash_falls column out [] t e = cc
backslash_falls column out (c ∷ rest) t e = ground (arith, octal_falls column out (c ∷ rest) t)

pub escape_round_falls :
    (column : Bytes) (s t : Escaped) → escape_round column s ≡ more t → length t.1 < length s.1
unfolding escape_round
escape_round_falls column (out, []) t e = cc
escape_round_falls column (out, b ∷ rest) t e = ground (arith, backslash_falls column out rest t)

unfoldable pub escape_form : Bytes → Bytes → Bytes → Result Bytes
unfolding escape_round
escape_form column out v =
    loop (λ (s : Escaped). length s.1) (escape_round column) (escape_round_falls column) (out, v)

-- `v.strip_prefix(br"\x")`
abbrev pub hex_body : Bytes → Option Bytes
hex_body [] = none
hex_body (b ∷ []) = none
hex_body (b ∷ c ∷ rest) = if b == b'\\' && c == b'x' then some rest else none

-- On the body of the hexadecimal form, or on the whole.
abbrev pub by_form : Bytes → Bytes → Bytes → Option Bytes → Result Bytes
unfolding hex_pairs escape_form
by_form v column out (some hex) =
    if length hex % 2 == 0 then hex_pairs column out hex else err (bad column (codes "bytea"))
by_form v column out none = escape_form column out v

unfoldable pub parse_bytea : Bytes → Bytes → Bytes → Result Bytes
parse_bytea v column out = by_form v column out (hex_body v)
