-- ===== src/Values/Numbers/Decimal.antt =====
-- src/values.rs: the arithmetic of `parse_decimal`, and that 128 bits are enough for it.
use native.Mathlib.Nat.{mul_assoc, mul_comm, le_trans, le-mul_of_pos_right}
use rust_streamer_pgdb.Prelude.Int.{ℤ}
use rust_streamer_pgdb.Values.Numbers.{pad, scaled, within, i128_limit, pow10, padded, unscaled}
use rust_streamer_pgdb.Prelude.{
  length, drop, ◌==◌, take, ◌++◌, all, ap, ◌∙◌, refl, [], false, true, inr, inl, ◌-◌, Bool-cases,
  none, ◌*◌, some, ◌∷◌, zero, suc, ◌≡◌, ltb, if◌then◌else◌, ◌+◌, Bytes, arith, Option, ◌<◌, ◌≤◌, ℕ,
}
use rust_streamer_pgdb.Prelude.Text.{digits_value_le, digits_value}

abbrev pub below : ℕ → ℕ → Option ℕ
below bound n = if ltb n bound then some n else none

unscaled-value :
    (acc : ℕ) (s : Bytes)
    → acc < i128_limit
    → unscaled acc s ≡ below i128_limit (digits_value acc s)
unfolding unscaled digits_value
unscaled-value acc [] lt = ground arith
unscaled-value acc (d ∷ s) lt = elim (Bool-cases (ltb (acc * 10 + (d - b'0')) i128_limit)) [
  | inl small ↦
      let first : ltb (acc * 10) i128_limit ≡ true = ground arith in
      rw (first, small) (unscaled-value (acc * 10 + (d - b'0')) s (ground arith))
  | inr large ↦
      let past : ltb (digits_value (acc * 10 + (d - b'0')) s) i128_limit ≡ false =
        ground (arith, digits_value_le (acc * 10 + (d - b'0')) s) in
      elim (Bool-cases (ltb (acc * 10) i128_limit)) [
        | inl first ↦ rw (first, large, past) refl
        | inr first ↦ rw (first, past) refl
      ]
]

pow10-positive : (n : ℕ) → 1 ≤ pow10 n
unfolding pow10
pow10-positive zero = omega arith
pow10-positive (suc n) = omega (arith, pow10-positive n)

pow10-le : (p m : ℕ) → p ≤ m → pow10 p ≤ pow10 m
unfolding pow10
pow10-le zero m le = pow10-positive m
pow10-le (suc p) zero le = absurd (omega arith)
pow10-le (suc p) (suc m) le = omega (arith, pow10-le p m (omega arith))

pow10_top : pow10 38 ≤ i128_limit
unfolding pow10
pow10_top = omega arith

pow10-bounded : (p : ℕ) → p ≤ 38 → pow10 p ≤ i128_limit
pow10-bounded p le = le_trans (pow10-le p 38 le) pow10_top

padded-value : (n acc : ℕ) → acc < i128_limit → padded n acc ≡ below i128_limit (acc * pow10 n)
unfolding padded pow10
padded-value zero acc lt = ground arith
padded-value (suc n) acc lt = elim (Bool-cases (ltb (acc * 10) i128_limit)) [
  | inl small ↦
      let grown : acc * 10 * pow10 n ≡ acc * (pow10 n * 10) =
        mul_assoc acc 10 (pow10 n) ∙ ap (λ k. acc * k) (mul_comm 10 (pow10 n)) in
      rw small (padded-value n (acc * 10) (ground arith) ∙ ap (below i128_limit) grown)
  | inr large ↦
      let past : ltb (acc * (pow10 n * 10)) i128_limit ≡ false =
        let grows : acc * 10 ≤ acc * 10 * pow10 n =
          le-mul_of_pos_right (acc * 10) (pow10-positive n) in
        let grown : acc * 10 * pow10 n ≡ acc * (pow10 n * 10) =
          mul_assoc acc 10 (pow10 n) ∙ ap (λ k. acc * k) (mul_comm 10 (pow10 n)) in
        ground (arith, grows, grown, large) in
      rw (large, past) refl
]

-- The unscaled number that a decimal with these digits stands for.
unfoldable pub value_at : ℕ → Bytes → Bytes → ℕ
unfolding digits_value pow10
value_at scale int_part frac_part =
    digits_value 0 (int_part ++ take scale frac_part)
    * pow10 (scale - length (take scale frac_part))

within-below :
    (limit n : ℕ) → limit ≤ i128_limit → within limit (below i128_limit n) ≡ below limit n
within-below limit n le = elim (Bool-cases (ltb n i128_limit)) [
  | inl small ↦ rw small refl
  | inr large ↦ let past : ltb n limit ≡ false = ground arith in rw (large, past) refl
]

within-pad :
    (limit n m : ℕ)
    → limit ≤ i128_limit
    → within limit (pad n (below i128_limit m)) ≡ below limit (m * pow10 n)
within-pad limit n m le = elim (Bool-cases (ltb m i128_limit)) [
  | inl small ↦ rw (small, padded-value n m (ground arith)) (within-below limit (m * pow10 n) le)
  | inr large ↦
      let grows : m ≤ m * pow10 n = le-mul_of_pos_right m (pow10-positive n) in
      let past : ltb (m * pow10 n) limit ≡ false = ground (arith, grows, large) in
      rw (large, past) refl
]

-- What has to come out: the number, unless digits other than zero are behind the scale or the
-- number has more digits than the precision.
abbrev pub exact : ℕ → ℕ → Bytes → Bytes → Option ℕ
exact precision scale int_part frac_part =
    if all (λ b. b == b'0') (drop scale frac_part)
    then below (pow10 precision) (value_at scale int_part frac_part)
    else none

pub scaled-exact :
    (precision scale : ℕ) (int_part frac_part : Bytes)
    → precision ≤ 38
    → scaled precision (ℤ.pos scale) int_part frac_part ≡ exact precision scale int_part frac_part
unfolding value_at
scaled-exact precision scale int_part frac_part le =
    let kept : Bytes = take scale frac_part in
    let room : pow10 precision ≤ i128_limit = pow10-bounded precision le in
    rw
      (
        unscaled-value 0 (int_part ++ kept) (omega arith),
        within-pad (pow10 precision) (scale - length kept) (digits_value 0 (int_part ++ kept)) room,
      )
      refl
