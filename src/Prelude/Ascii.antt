-- ===== src/Prelude/Ascii.antt =====
-- The parts of the standard library for bytes that src/scan.rs and src/types.rs call: ASCII
-- whitespace, letters without their case, positions, and the decoding of UTF-8 with replacement.
-- A `String` is the list of its bytes.
use rust_streamer_pgdb.Prelude.Tests.{ltb, leb, ◌==◌, if◌then◌else◌}
use rust_streamer_pgdb.Prelude.Lists.{length, drop, is_empty}
use rust_streamer_pgdb.Prelude.Slices.{Bytes, bytes_eq}
use Prim.Native.Nat.{ℕ, zero, suc, ◌+◌, ◌-◌, ◌*◌}
use mathlib.Core.Path.{◌≡◌, refl}
use mathlib.Core.Bool.{Bool, true, false, ◌&&◌, ◌||◌}
use mathlib.Core.Option
use mathlib.Core.Option.{Option, none, some}
use mathlib.Core.List.{[], ◌∷◌, ◌++◌, map}

abbrev pub in_range : ℕ → ℕ → ℕ → Bool
in_range lo hi b = leb lo b && leb b hi

-- `u8::is_ascii_whitespace`
unfoldable pub is_ascii_whitespace : ℕ → Bool
is_ascii_whitespace c = c == b' ' || c == b'\t' || c == b'\n' || c == 0x0C || c == b'\r'

-- `u8::is_ascii_digit`
abbrev pub is_ascii_digit : ℕ → Bool
is_ascii_digit c = in_range b'0' b'9' c

-- `u8::to_ascii_lowercase`
unfoldable pub to_ascii_lowercase : ℕ → ℕ
to_ascii_lowercase c = if in_range b'A' b'Z' c then c + 32 else c

-- `eq_ignore_ascii_case`
unfoldable pub eq_ignore_ascii_case : Bytes → Bytes → Bool
eq_ignore_ascii_case a b = bytes_eq (map to_ascii_lowercase a) (map to_ascii_lowercase b)

-- `iter().position(p)`
unfoldable pub position : (ℕ → Bool) → Bytes → Option ℕ
position p [] = none
position p (c ∷ s) = if p c then some 0 else Option.map suc (position p s)

-- `skip_while(p)` and `take_while(p)`
unfoldable pub skip_while : (ℕ → Bool) → Bytes → Bytes
skip_while p [] = []
skip_while p (c ∷ s) = if p c then skip_while p s else c ∷ s

unfoldable pub take_while : (ℕ → Bool) → Bytes → Bytes
take_while p [] = []
take_while p (c ∷ s) = if p c then c ∷ take_while p s else []

-- What is left of a slice without the bytes at its end that pass the test.
unfoldable pub trim_end_matches : (ℕ → Bool) → Bytes → Bytes
trim_end_matches p [] = []
trim_end_matches p (c ∷ s) =
    let rest = trim_end_matches p s in if is_empty rest && p c then [] else c ∷ rest

abbrev pub trim_ascii_start : Bytes → Bytes
trim_ascii_start s = skip_while is_ascii_whitespace s

abbrev pub trim_ascii_end : Bytes → Bytes
trim_ascii_end s = trim_end_matches is_ascii_whitespace s

abbrev pub trim_ascii : Bytes → Bytes
trim_ascii s = trim_ascii_end (trim_ascii_start s)

-- `slice.ends_with(suffix)`
unfoldable pub ends_with : Bytes → Bytes → Bool
ends_with s suffix =
    leb (length suffix) (length s) && bytes_eq (drop (length s - length suffix) s) suffix

-- `str::parse` to an unsigned number below a bound, on digits: each step is checked.
unfoldable pub parse_digits : ℕ → ℕ → Bytes → Option ℕ
parse_digits bound acc [] = some acc
parse_digits bound acc (d ∷ s) =
    let more = parse_digits bound (acc * 10 + (d - b'0')) s in
    if in_range b'0' b'9' d && ltb (acc * 10 + (d - b'0')) bound then more else none

-- `String::from_utf8_lossy`: the replacement character is written for each longest run of bytes
-- that starts a character and does not end one.
abbrev pub replacement : Bytes
replacement = 0xEF ∷ 0xBF ∷ 0xBD ∷ []

abbrev is_continuation : ℕ → Bool
is_continuation b = in_range 0x80 0xBF b

-- The second byte of a character of three or four bytes, by the first.
abbrev second_of_three : ℕ → ℕ → Bool
second_of_three a b =
    if a == 0xE0
    then in_range 0xA0 0xBF b
    else if a == 0xED
    then in_range 0x80 0x9F b
    else is_continuation b

abbrev second_of_four : ℕ → ℕ → Bool
second_of_four a b =
    if a == 0xF0
    then in_range 0x90 0xBF b
    else if a == 0xF4
    then in_range 0x80 0x8F b
    else is_continuation b

-- A character, or what is replaced, at the front of a slice: whether it is valid, and how many
-- bytes follow its first.
abbrev of_two : Bytes → Bool × ℕ
of_two [] = (false, 0)
of_two (b ∷ s) = if is_continuation b then (true, 1) else (false, 0)

abbrev of_three : ℕ → Bytes → Bool × ℕ
of_three a [] = (false, 0)
of_three a (b ∷ []) = if second_of_three a b then (false, 1) else (false, 0)
of_three a (b ∷ c ∷ s) =
    if second_of_three a b
    then (if is_continuation c then (true, 2) else (false, 1))
    else (false, 0)

abbrev of_four : ℕ → Bytes → Bool × ℕ
of_four a [] = (false, 0)
of_four a (b ∷ []) = if second_of_four a b then (false, 1) else (false, 0)
of_four a (b ∷ c ∷ []) =
    if second_of_four a b
    then (if is_continuation c then (false, 2) else (false, 1))
    else (false, 0)
of_four a (b ∷ c ∷ d ∷ s) =
    if second_of_four a b
    then (if is_continuation c
        then (if is_continuation d then (true, 3) else (false, 2))
        else (false, 1))
    else (false, 0)

unfoldable pub next_char : ℕ → Bytes → Bool × ℕ
next_char a s =
    if ltb a 0x80
    then (true, 0)
    else if in_range 0xC2 0xDF a
    then of_two s
    else if in_range 0xE0 0xEF a
    then of_three a s
    else if in_range 0xF0 0xF4 a
    then of_four a s
    else (false, 0)

-- On the bytes of the current character that are still to be passed, which are kept or dropped.
unfoldable pub lossy_from : Bool → ℕ → Bytes → Bytes
lossy_from keep left [] = []
lossy_from keep (suc left) (b ∷ s) =
    let rest = lossy_from keep left s in if keep then b ∷ rest else rest
lossy_from keep zero (a ∷ s) =
    let (valid, n) = next_char a s in
    let rest = lossy_from valid n s in if valid then a ∷ rest else replacement ++ rest

unfoldable pub from_utf8_lossy : Bytes → Bytes
unfolding lossy_from next_char
from_utf8_lossy s = lossy_from true 0 s

lossy_test :
    from_utf8_lossy (0xC3 ∷ 0xA9 ∷ 0xE2 ∷ 0x82 ∷ b'a' ∷ 0xFF ∷ [])
    ≡ 0xC3 ∷ 0xA9 ∷ 0xEF ∷ 0xBF ∷ 0xBD ∷ b'a' ∷ 0xEF ∷ 0xBF ∷ 0xBD ∷ []
unfolding from_utf8_lossy
lossy_test = refl
