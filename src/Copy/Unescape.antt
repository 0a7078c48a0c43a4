-- ===== src/Copy/Unescape.antt =====
-- src/copy.rs: `hex_digit`, `Field::unescape_into` and `Field::to_vec`. A byte is a number below
-- 256; `value << 4 | d` on a `u8` with `d < 16` is `value * 16 % 256 + d`, and `value << 3 | d` on
-- a `u32` with at most three octal digits is `value * 8 + d`.
pub mod Steps
use rust_streamer_pgdb.Copy.Field.{Field, null, plain, escaped, is_null}
use rust_streamer_pgdb.Error.{Result, ok, err, truncated_escape, invalid_hex_escape, ◌>>=◌}
use rust_streamer_pgdb.Prelude.Loop.{Round, done, more, loop}
use rust_streamer_pgdb.Prelude.{
  Option-cases, inl, inr, ◌≤◌, ℕ, zero, suc, ◌+◌, ◌-◌, ◌*◌, ◌%◌, ◌<◌, ◌≡◌, refl, Bool, true, false,
  ◌&&◌, Option, none, some, [], ◌∷◌, ◌++◌, arith, length, take, drop, length-drop, Bytes, Memchr,
  leb, ◌==◌, if◌then◌else◌,
}

abbrev pub within : ℕ → ℕ → ℕ → Bool
within lo hi b = leb lo b && leb b hi

unfoldable pub hex_digit : ℕ → Option ℕ
hex_digit b =
    if within b'0' b'9' b
    then some (b - b'0')
    else if within b'a' b'f' b
    then some (b - b'a' + 10)
    else if within b'A' b'F' b
    then some (b - b'A' + 10)
    else none

-- `while digits < 2 { … }` of `\x`, on the rounds left: the value, `digits` and the bytes behind.
hex_run : ℕ → ℕ → ℕ → Bytes → ℕ × ℕ × Bytes
hex_run zero value digits rest = (value, digits, rest)
hex_run (suc k) value digits [] = (value, digits, [])
hex_run (suc k) value digits (b ∷ rest) = elim (hex_digit b) [
  | some d ↦ hex_run k (value * 16 % 256 + d) (digits + 1) rest
  | none ↦ (value, digits, b ∷ rest)
]

-- `while digits < 3 { … }` of an octal escape, on the rounds left.
octal_run : ℕ → ℕ → Bytes → ℕ × Bytes
octal_run zero value rest = (value, rest)
octal_run (suc k) value [] = (value, [])
octal_run (suc k) value (d ∷ rest) =
    let step = octal_run k (value * 8 + (d - b'0')) rest in
    if within b'0' b'7' d then step else (value, d ∷ rest)

-- The letters that stand for one byte.
unfoldable pub named_escape : ℕ → Option ℕ
named_escape c =
    if c == b'b'
    then some 0x08
    else if c == b'f'
    then some 0x0C
    else if c == b'n'
    then some b'\n'
    else if c == b'r'
    then some b'\r'
    else if c == b't'
    then some b'\t'
    else if c == b'v'
    then some 0x0B
    else none

abbrev hex_escape : ℕ × ℕ × Bytes → Result (ℕ × Bytes)
hex_escape (value, digits, rest) = if digits == 0 then err invalid_hex_escape else ok (value, rest)

-- `match c { … }`, on the byte behind the backslash: the byte pushed, and the bytes not yet read.
unfoldable pub escape_at : ℕ → Bytes → Result (ℕ × Bytes)
unfolding hex_digit hex_run octal_run named_escape
escape_at c rest = elim (named_escape c) [
  | some b ↦ ok (b, rest)
  | none ↦
      (if c == b'x'
        then hex_escape (hex_run 2 0 0 rest)
        else if within b'0' b'7' c
        then (let (value, rest') = octal_run 2 (c - b'0') rest in ok (value % 256, rest'))
        else ok (c, rest))
]

-- The unread bytes and `out`.
abbrev pub State : Type 0
State = Bytes × Bytes

abbrev resume : Bytes → Result (ℕ × Bytes) → Round State (Result Bytes)
resume out (err e) = done (err e)
resume out (ok (b, rest)) = more (rest, out ++ b ∷ [])

-- From the byte behind the backslash on.
after_backslash : Bytes → Bytes → Round State (Result Bytes)
after_backslash [] out = done (err truncated_escape)
after_backslash (c ∷ rest) out = resume out (escape_at c rest)

at_backslash : Option ℕ → Bytes → Bytes → Round State (Result Bytes)
unfolding after_backslash
at_backslash none bytes out = done (ok (out ++ bytes))
at_backslash (some off) bytes out = after_backslash (drop (suc off) bytes) (out ++ take off bytes)

module _ ⦃m : Memchr⦄ where
  -- One round of `while i < bytes.len()`.
  unfoldable pub round : State → Round State (Result Bytes)
  unfolding at_backslash after_backslash
  round ([], out) = done (ok out)
  round (b ∷ rest, out) = at_backslash (m.memchr b'\\' (b ∷ rest)) (b ∷ rest) out

hex_run-length : (k v d : ℕ) (rest : Bytes) → length (hex_run k v d rest).2 ≤ length rest
unfolding hex_run
hex_run-length zero v d rest = omega arith
hex_run-length (suc k) v d [] = omega arith
hex_run-length (suc k) v d (b ∷ rest) = elim (Option-cases (hex_digit b)) [
  | inl e ↦ rw (e, hex_run) (omega arith)
  | inr (x, e) ↦ rw (e, hex_run) (omega (arith, hex_run-length k (v * 16 % 256 + x) (d + 1) rest))
]

octal_run-length : (k v : ℕ) (rest : Bytes) → length (octal_run k v rest).1 ≤ length rest
unfolding octal_run
octal_run-length zero v rest = omega arith
octal_run-length (suc k) v [] = omega arith
octal_run-length (suc k) v (d ∷ rest) = ground (arith, octal_run-length k (v * 8 + (d - b'0')) rest)

hex_escape-length :
    (k v d : ℕ) (rest : Bytes) {b : ℕ} {rest' : Bytes}
    → hex_escape (hex_run k v d rest) ≡ ok (b, rest')
    → length rest' ≤ length rest
hex_escape-length k v d rest h = ground (arith, hex_run-length k v d rest)

escape_at-length :
    (c : ℕ) (rest : Bytes) {b : ℕ} {rest' : Bytes}
    → escape_at c rest ≡ ok (b, rest')
    → length rest' ≤ length rest
unfolding escape_at
escape_at-length c rest h =
    ground (arith, hex_escape-length 2 0 0 rest, octal_run-length 2 (c - b'0') rest)

resume-length :
    (out : Bytes) (r : Result (ℕ × Bytes)) (t : State) (k : ℕ)
    → ((b : ℕ) (rest : Bytes) → r ≡ ok (b, rest) → length rest ≤ k)
    → resume out r ≡ more t
    → length t.0 ≤ k
resume-length out (err e) t k h eq = cc
resume-length out (ok (b, rest)) t k h eq = ground (arith, h b rest refl)

after_backslash-length :
    (s out : Bytes) (t : State) → after_backslash s out ≡ more t → length t.0 < length s
unfolding after_backslash
after_backslash-length [] out t h = cc
after_backslash-length (c ∷ rest) out t h = omega (
  arith,
  resume-length out (escape_at c rest) t (length rest) (λ b rest'. escape_at-length c rest) h,
)

at_backslash-length :
    (o : Option ℕ) (s out : Bytes) (t : State)
    → at_backslash o s out ≡ more t
    → length t.0 < length s
unfolding at_backslash
at_backslash-length none s out t h = cc
at_backslash-length (some off) s out t h = omega (
  arith,
  after_backslash-length (drop (suc off) s) (out ++ take off s) t h,
  length-drop (suc off) s,
)

module _ ⦃m : Memchr⦄ where
  pub round_falls : (s t : State) → round s ≡ more t → length t.0 < length s.0
  unfolding round
  round_falls ([], out) t h = cc
  round_falls (b ∷ rest, out) t h =
      at_backslash-length (m.memchr b'\\' (b ∷ rest)) (b ∷ rest) out t h

  -- The loop, on the bytes and `out`.
  unfoldable pub unescape : Bytes → Bytes → Result Bytes
  unfolding round
  unescape bytes out = loop (λ (s : State). length s.0) round round_falls (bytes, out)

  -- `Field::unescape_into`: the value of `out` behind the call.
  unfoldable pub unescape_into : Field → Bytes → Result Bytes
  unescape_into null out = ok out
  unescape_into (plain b) out = ok (out ++ b)
  unescape_into (escaped b) out = unescape b out

  -- `Field::to_vec`
  unfoldable pub to_vec : Field → Result (Option Bytes)
  unfolding is_null unescape_into
  to_vec f = if is_null f then ok none else (do out ← unescape_into f []; ok (some out))
