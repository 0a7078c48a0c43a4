-- ===== src/Prelude/Text.antt =====
-- The parts of the standard library for texts that src/values.rs calls: valid UTF-8, the trimming of
-- Unicode whitespace, and decimal digits. A text is the list of its bytes.
use rust_streamer_pgdb.Prelude.Tests.{leb, ltb, ◌==◌, if◌then◌else◌, Bool-cases}
use rust_streamer_pgdb.Prelude.Lists.{is_empty, All}
use rust_streamer_pgdb.Prelude.Slices.{Bytes, bytes_eq, bytes_eq_refl}
use rust_streamer_pgdb.Prelude.Ascii.{
  in_range, from_utf8_lossy, next_char, lossy_from, parse_digits,
}
use Prim.Native.Nat.{ℕ, zero, suc, ◌+◌, ◌-◌, ◌*◌, ◌<◌, ◌≤◌}
use mathlib.Core.Path.{◌≡◌, refl}
use mathlib.Core.Logic.{inl, inr}
use mathlib.Core.Bool.{Bool, true, false, ◌&&◌, ◌||◌}
use mathlib.Core.Option.{none, some}
use mathlib.Core.List.{List, [], ◌∷◌}
use native.Mathlib.Omega.{arith}

-- `std::str::from_utf8(s).is_ok()`: decoding with replacement changes nothing.
unfoldable pub is_utf8 : Bytes → Bool
unfolding from_utf8_lossy
is_utf8 s = bytes_eq (from_utf8_lossy s) s

-- How many bytes the whitespace character at the front of a text has, none if there is none: the
-- property `White_Space` of Unicode.
abbrev whitespace_of_two : ℕ → Bytes → ℕ
whitespace_of_two a [] = 0
whitespace_of_two a (b ∷ s) = if a == 0xC2 && (b == 0x85 || b == 0xA0) then 2 else 0

abbrev whitespace_of_three : ℕ → Bytes → ℕ
whitespace_of_three a [] = 0
whitespace_of_three a (b ∷ []) = 0
whitespace_of_three a (b ∷ c ∷ s) =
    if (a == 0xE1 && b == 0x9A && c == 0x80)
      || (a == 0xE2 && b == 0x80 && (in_range 0x80 0x8A c || c == 0xA8 || c == 0xA9 || c == 0xAF))
      || (a == 0xE2 && b == 0x81 && c == 0x9F)
      || (a == 0xE3 && b == 0x80 && c == 0x80)
    then 3
    else 0

unfoldable pub whitespace_length : Bytes → ℕ
whitespace_length [] = 0
whitespace_length (a ∷ s) =
    if ltb a 0x80
    then (if a == b' ' || in_range 0x09 0x0D a then 1 else 0)
    else whitespace_of_two a s + whitespace_of_three a s

-- On the bytes of a whitespace character that are still to be passed.
trim_from : ℕ → Bytes → Bytes
trim_from left [] = []
trim_from (suc left) (a ∷ s) = trim_from left s
trim_from zero (a ∷ s) = elim (whitespace_length (a ∷ s)) [ zero ↦ a ∷ s | suc n ↦ trim_from n s ]

-- `str::trim_start`
unfoldable pub trim_start : Bytes → Bytes
unfolding trim_from whitespace_length
trim_start s = trim_from 0 s

-- `str::trim_end`: the text up to where only whitespace follows.
unfoldable pub trim_end : Bytes → Bytes
unfolding trim_start
trim_end [] = []
trim_end (a ∷ s) = let rest = trim_end s in if is_empty (trim_start (a ∷ s)) then [] else a ∷ rest

-- `str::trim`
abbrev pub trim : Bytes → Bytes
trim s = trim_end (trim_start s)

trim_test :
    trim (0xC2 ∷ 0xA0 ∷ b' ' ∷ b'a' ∷ b' ' ∷ b'b' ∷ 0xE2 ∷ 0x80 ∷ 0x89 ∷ [])
    ≡ b'a' ∷ b' ' ∷ b'b' ∷ []
unfolding trim_start trim_end
trim_test = refl

-- `str::chars` of a valid text, a character being the list of its bytes.
abbrev pub prepend_char : ℕ → List Bytes → List Bytes
prepend_char a [] = (a ∷ []) ∷ []
prepend_char a ([] ∷ cs) = (a ∷ []) ∷ cs
prepend_char a ((b ∷ c) ∷ cs) =
    if leb 0x80 a && in_range 0x80 0xBF b then (a ∷ b ∷ c) ∷ cs else (a ∷ []) ∷ (b ∷ c) ∷ cs

unfoldable pub chars : Bytes → List Bytes
chars [] = []
chars (a ∷ s) = prepend_char a (chars s)

-- ASCII without whitespace is valid, and nothing is trimmed.
abbrev pub IsSolid : ℕ → Type 0
IsSolid c = (b' ' < c) × (c < 0x80)

lossy_from-ascii : (s : Bytes) → All IsSolid s → lossy_from true 0 s ≡ s
unfolding lossy_from next_char
lossy_from-ascii [] h = refl
lossy_from-ascii (c ∷ s) h = ground (arith, lossy_from-ascii s h.1)

pub is_utf8-ascii : (s : Bytes) → All IsSolid s → is_utf8 s ≡ true
unfolding is_utf8 from_utf8_lossy
is_utf8-ascii s h = rw (lossy_from-ascii s h) (bytes_eq_refl s)

pub trim_start-solid : (s : Bytes) → All IsSolid s → trim_start s ≡ s
unfolding trim_start whitespace_length trim_from
trim_start-solid [] h = refl
trim_start-solid (c ∷ s) h = ground arith

trim_end-solid : (s : Bytes) → All IsSolid s → trim_end s ≡ s
unfolding trim_end
trim_end-solid [] h = refl
trim_end-solid (c ∷ s) h = rw (trim_start-solid (c ∷ s) h, trim_end-solid s h.1) refl

pub trim-solid : (s : Bytes) → All IsSolid s → trim s ≡ s
trim-solid s h = rw (trim_start-solid s h) (trim_end-solid s h)

-- The value of decimal digits behind an accumulator.
unfoldable pub digits_value : ℕ → Bytes → ℕ
digits_value acc [] = acc
digits_value acc (d ∷ s) = digits_value (acc * 10 + (d - b'0')) s

abbrev pub IsDigit : ℕ → Type 0
IsDigit c = (b'0' ≤ c) × (c ≤ b'9')

pub digits_value_le : (acc : ℕ) (s : Bytes) → acc ≤ digits_value acc s
unfolding digits_value
digits_value_le acc [] = omega arith
digits_value_le acc (d ∷ s) = omega (arith, digits_value_le (acc * 10 + (d - b'0')) s)

-- Digits parse to their value, unless it passes the bound.
pub parse_digits-value :
    (bound acc : ℕ) (s : Bytes)
    → All IsDigit s
    → acc < bound
    → parse_digits bound acc s
      ≡ (if ltb (digits_value acc s) bound then some (digits_value acc s) else none)
unfolding parse_digits digits_value
parse_digits-value bound acc [] h lt = ground arith
parse_digits-value bound acc (d ∷ s) h lt = elim (Bool-cases (ltb (acc * 10 + (d - b'0')) bound)) [
  | inl small ↦
      let digit : in_range b'0' b'9' d ≡ true = ground arith in
      rw (digit, small) (parse_digits-value bound (acc * 10 + (d - b'0')) s h.1 (ground arith))
  | inr large ↦
      let past : ltb (digits_value (acc * 10 + (d - b'0')) s) bound ≡ false =
        ground (arith, digits_value_le (acc * 10 + (d - b'0')) s) in
      let digit : in_range b'0' b'9' d ≡ true = ground arith in rw (digit, large, past) refl
]
