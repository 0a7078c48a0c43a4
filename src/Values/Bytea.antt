-- ===== src/Values/Bytea.antt =====
-- src/values.rs: both output formats of `bytea` are read back as the bytes that were written. What
-- PostgreSQL writes is not part of the repository: it is described here.
use rust_streamer_pgdb.Values.{
  on_pair, Escaped, hex_val, joined, hex_pairs, octal, after_backslash, escape_round,
  escape_round_falls, escape_form, hex_body, by_form, parse_bytea,
}
use rust_streamer_pgdb.Prelude.{
  false, inr, append_assoc, inl, ap, ◌-◌, ◌∙◌, refl, ◌&&◌, Bool-cases, ◌+◌, arith, append-nil, ◌%◌,
  leb, ltb, some, ◌==◌, ◌*◌, codes, ◌/◌, none, length, ◌<◌, [], ◌∷◌, All, ◌++◌, ◌≡◌, if◌then◌else◌,
  Bytes, ℕ,
}
use rust_streamer_pgdb.Error.{ok}
use rust_streamer_pgdb.Prelude.Loop.{loop_done, done, more, loop_more}

abbrev pub IsByte : ℕ → Type 0
IsByte b = b < 256

unfoldable pub hex_char : ℕ → ℕ
hex_char n = if ltb n 10 then b'0' + n else b'a' + (n - 10)

-- The bytes behind `\x` of the form `hex`.
abbrev pub hex_written : Bytes → Bytes
hex_written [] = []
hex_written (b ∷ bs) = hex_char (b / 16) ∷ hex_char (b % 16) ∷ hex_written bs

hex_val-hex_char : (n : ℕ) → n < 16 → hex_val (hex_char n) ≡ some n
unfolding hex_val hex_char
hex_val-hex_char n h = ground arith

hex_pairs-hex_written :
    (column out bs : Bytes) → All IsByte bs → hex_pairs column out (hex_written bs) ≡ ok (out ++ bs)
unfolding hex_pairs
hex_pairs-hex_written column out [] h = rw (append-nil) refl
hex_pairs-hex_written column out (b ∷ bs) h =
    let pair : joined (hex_val (hex_char (b / 16))) (hex_val (hex_char (b % 16))) ≡ some b =
      rw (hex_val-hex_char (b / 16) (omega (arith, h.0)), hex_val-hex_char (b % 16) (omega arith))
        (ap some (omega (arith, h.0))) in
    ap (λ o. on_pair column o (λ v. hex_pairs column (out ++ v ∷ []) (hex_written bs))) pair
    ∙ hex_pairs-hex_written column (out ++ b ∷ []) bs h.1
    ∙ ap ok (append_assoc out (b ∷ []) bs)

hex_written-even : (bs : Bytes) → length (hex_written bs) ≡ 2 * length bs
hex_written-even [] = refl
hex_written-even (b ∷ bs) = omega (arith, hex_written-even bs)

-- The hexadecimal form of any bytes is read back as these bytes, behind what the buffer held.
pub parse_bytea-hex_written :
    (column out bs : Bytes)
    → All IsByte bs
    → parse_bytea (codes "\\x" ++ hex_written bs) column out ≡ ok (out ++ bs)
unfolding parse_bytea by_form
parse_bytea-hex_written column out bs h =
    let even : length (hex_written bs) % 2 ≡ 0 = omega (arith, hex_written-even bs) in
    rw even (hex_pairs-hex_written column out bs h)

-- A byte of the form `escape`: a backslash is doubled, and what is not printable is three octal
-- digits.
abbrev pub escape_byte : ℕ → Bytes
escape_byte b =
    if b == b'\\'
    then codes "\\\\"
    else if leb 32 b && leb b 126
    then b ∷ []
    else b'\\' ∷ (b'0' + b / 64) ∷ (b'0' + b / 8 % 8) ∷ (b'0' + b % 8) ∷ []

abbrev pub escape_written : Bytes → Bytes
escape_written [] = []
escape_written (b ∷ bs) = escape_byte b ++ escape_written bs

round_byte :
    (column out rest : Bytes) (b : ℕ)
    → IsByte b
    → escape_round column (out, escape_byte b ++ rest) ≡ more (out ++ b ∷ [], rest)
unfolding escape_round after_backslash octal
round_byte column out rest b h = ground arith

escape_form-byte :
    (column out rest : Bytes) (b : ℕ)
    → IsByte b
    → escape_form column out (escape_byte b ++ rest) ≡ escape_form column (out ++ b ∷ []) rest
unfolding escape_form
escape_form-byte column out rest b h =
    loop_more (λ (s : Escaped). length s.1) (escape_round column) (escape_round_falls column)
      (out, escape_byte b ++ rest) (out ++ b ∷ [], rest) (round_byte column out rest b h)

escape_form-nil : (column out : Bytes) → escape_form column out [] ≡ ok out
unfolding escape_form
escape_form-nil column out =
    loop_done (λ (s : Escaped). length s.1) (escape_round column) (escape_round_falls column)
      (out, []) (ok out) (end_round)
  where
    end_round : escape_round column (out, []) ≡ done (ok out)
    end_round = unfold escape_round in refl

escape_form-written :
    (column out bs : Bytes)
    → All IsByte bs
    → escape_form column out (escape_written bs) ≡ ok (out ++ bs)
escape_form-written column out [] h = rw (append-nil) (escape_form-nil column out)
escape_form-written column out (b ∷ bs) h =
    escape_form-byte column out (escape_written bs) b h.0
    ∙ escape_form-written column (out ++ b ∷ []) bs h.1
    ∙ ap ok (append_assoc out (b ∷ []) bs)

not_hex_plain : (b : ℕ) (rest : Bytes) → (b == b'\\') ≡ false → hex_body (b ∷ rest) ≡ none
not_hex_plain b [] other = refl
not_hex_plain b (c ∷ rest) other = ground arith

not_hex_coded : (b : ℕ) (rest : Bytes) → IsByte b → hex_body (b'\\' ∷ (b'0' + b / 64) ∷ rest) ≡ none
not_hex_coded b rest h = ground arith

not_hex : (bs : Bytes) → All IsByte bs → hex_body (escape_written bs) ≡ none
not_hex [] h = refl
not_hex (b ∷ bs) h = elim (Bool-cases (b == b'\\')) [
  | inl slash ↦ rw slash refl
  | inr other ↦ elim (Bool-cases (leb 32 b && leb b 126)) [
    | inl plain ↦ rw (other, plain) (not_hex_plain b (escape_written bs) other)
    | inr coded ↦ rw (other, coded) (not_hex_coded b _ h.0)
  ]
]

-- The form `escape` of any bytes is read back as these bytes, behind what the buffer held.
pub parse_bytea-escape_written :
    (column out bs : Bytes)
    → All IsByte bs
    → parse_bytea (escape_written bs) column out ≡ ok (out ++ bs)
unfolding parse_bytea by_form escape_form
parse_bytea-escape_written column out bs h = rw (not_hex bs h) (escape_form-written column out bs h)
