-- ===== src/Types/Name.antt =====
-- src/types.rs: the name of a type without its array suffixes, its parameters and its spelling.
use mathlib.Core.Option
use rust_streamer_pgdb.Prelude.Int.{ℤ}
use rust_streamer_pgdb.Values.Numbers.{signed, with_sign, magnitude}
use rust_streamer_pgdb.Prelude.{
  min, ◌+◌, is_empty, suc, ◌-◌, codes, length-take, refl, ◌++◌, not, true, ◌==◌, take, all, List,
  ◌&&◌, false, ltb, drop, ◌≤◌, last_index-some, ◌∷◌, arith, some, if◌then◌else◌, length, Bool, [],
  first_index, ◌<◌, none, last_index, ℕ, Option, Bytes, ◌≡◌,
}
use rust_streamer_pgdb.Prelude.Text.{chars, whitespace_length, trim, trim_end}
use rust_streamer_pgdb.Prelude.Loop.{more, done, Round, loop}
use rust_streamer_pgdb.Prelude.Ascii.{
  is_ascii_digit, to_ascii_lowercase, take_while, parse_digits, ends_with,
}

-- `char::to_lowercase` on the bytes of a character: the table of Unicode is the standard library's.
pub record Lowercase : Type 0 where
  pub to_lowercase : Bytes → Bytes
  pub lowercase_ascii : (c : ℕ) → c < 0x80 → to_lowercase (c ∷ []) ≡ to_ascii_lowercase c ∷ []

-- The state of the loop: `end` and `count`.
abbrev pub Suffixes : Type 0
Suffixes = Bytes × ℕ

abbrev pub suffix_at : Bytes → ℕ → Option ℕ → Round Suffixes Suffixes
suffix_at end_ count none = done (end_, count)
suffix_at end_ count (some open_) =
    if all is_ascii_digit (take (length end_ - 1 - suc open_) (drop (suc open_) end_))
    then more (trim_end (take open_ end_), min (count + 1) 255)
    else done (end_, count)

-- One round of `while end.ends_with(']')`.
unfoldable pub suffix_round : Suffixes → Round Suffixes Suffixes
suffix_round (end_, count) =
    if ends_with end_ (codes "]")
    then suffix_at end_ count (last_index b'[' end_)
    else done (end_, count)

trim_end_le : (s : Bytes) → length (trim_end s) ≤ length s
unfolding trim_end
trim_end_le [] = omega arith
trim_end_le (c ∷ s) = ground (arith, trim_end_le s)

suffix_at_falls :
    (end_ : Bytes) (count : ℕ) (o : Option ℕ) (t : Suffixes)
    → last_index b'[' end_ ≡ o
    → suffix_at end_ count o ≡ more t
    → length t.0 < length end_
suffix_at_falls end_ count none t e h = cc
suffix_at_falls end_ count (some n) t e h =
    ground (arith, (last_index-some b'[' end_ n e).0, trim_end_le (take n end_), length-take n end_)

pub suffix_round_falls : (s t : Suffixes) → suffix_round s ≡ more t → length t.0 < length s.0
unfolding suffix_round
suffix_round_falls (end_, count) t h =
    ground (arith, suffix_at_falls end_ count (last_index b'[' end_) t refl)

abbrev pub suffix_loop : Suffixes → Suffixes
suffix_loop = loop (λ (s : Suffixes). length s.0) suffix_round suffix_round_falls

abbrev pub strip_array_suffix : Bytes → Bytes × ℕ
strip_array_suffix s = suffix_loop (trim_end s, 0)

-- The parentheses at `open` and `close`.
abbrev pub split_at : Bytes → ℕ → Option ℕ → Bytes × Bytes
split_at s open_ none = (s, [])
split_at s open_ (some i) = (
  take open_ s ++ b' ' ∷ drop (suc (open_ + i)) s,
  take (open_ + i - suc open_) (drop (suc open_) s),
)

abbrev pub split_open : Bytes → Option ℕ → Bytes × Bytes
split_open s none = (s, [])
split_open s (some open_) = split_at s open_ (first_index b')' (drop open_ s))

unfoldable pub split_params : Bytes → Bytes × Bytes
split_params s = split_open s (first_index b'(' s)

abbrev pub is_whitespace : Bytes → Bool
is_whitespace c = ltb 0 (whitespace_length c)

module _ ⦃m : Lowercase⦄ where
  abbrev pub push_char : Bytes → Bool → Bytes → Bytes
  push_char out space c =
      (if space && not (is_empty out) then out ++ b' ' ∷ [] else out) ++ m.to_lowercase c

  -- `for c in s.trim().chars()`
  unfoldable pub normalise_from : Bytes → Bool → List Bytes → Bytes
  normalise_from out space [] = out
  normalise_from out space (c ∷ cs) =
      let rest = normalise_from (push_char out space c) false cs in
      let skipped = normalise_from out true cs in if is_whitespace c then skipped else rest

  abbrev pub normalise : Bytes → Bytes
  normalise s = normalise_from [] false (chars (trim s))

-- `params.split(',')`: the first part, and the second if there is one.
abbrev pub split_comma : Bytes → Option ℕ → Bytes × Option Bytes
split_comma s none = (s, none)
split_comma s (some i) = (take i s, some (take_while (λ c. not (c == b',')) (drop (suc i) s)))

abbrev pub plus_digits : ℕ → Bytes → Option ℕ
plus_digits bound [] = none
plus_digits bound (d ∷ s) = parse_digits bound 0 (d ∷ s)

-- `parse::<u8>()`, where a plus may stand in front.
unfoldable pub parse_u8 : Bytes → Option ℕ
parse_u8 [] = none
parse_u8 (c ∷ s) = if c == b'+' then plus_digits 256 s else parse_digits 256 0 (c ∷ s)

-- `parse::<i8>()`
unfoldable pub parse_i8 : Bytes → Option ℤ
parse_i8 s = Option.map (with_sign (signed s).0) (magnitude 128 (signed s).0 (signed s).1)

abbrev pub on_trimmed : Option Bytes → Option ℤ
on_trimmed none = none
on_trimmed (some s) = parse_i8 (trim s)

abbrev pub or_zero : Option ℤ → Option ℤ
or_zero none = some (ℤ.pos 0)
or_zero (some s) = some s

abbrev pub with_scale : Option ℕ → Option ℤ → Option ℕ × Option ℤ
with_scale none scale = (none, none)
with_scale (some p) scale = (some p, or_zero scale)

unfoldable pub numeric_params : Bytes → Option ℕ × Option ℤ
numeric_params params =
    let (first, second) = split_comma params (first_index b',' params) in
    with_scale (parse_u8 (trim first)) (on_trimmed second)
