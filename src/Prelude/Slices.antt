-- ===== src/Prelude/Slices.antt =====
-- Byte slices: a slice is the list of its bytes. Searching a slice for a byte is the work of the
-- crate `memchr`, which is not in this repository: it is a parameter, with what its documentation
-- says of it as laws.
use Prim.Native.Char.{code}
use Prim.Native.Nat.{ℕ, zero, suc, ◌<◌}
use Prim.Native.String.{String}
use mathlib.Core.Bool.{Bool, true, false, ◌&&◌}
use mathlib.Core.List.{List, [], ◌∷◌, ◌++◌}
use mathlib.Core.Logic.{◌≢◌, ◌⊎◌, inl, inr}
use mathlib.Core.Option
use mathlib.Core.Option.{Option, none, some}
use mathlib.Core.Path.{◌≡◌, refl, ap}
use native.Mathlib.Omega.{arith}
use rust_streamer_pgdb.Prelude.Lists.{length, last?, take, drop, All}
use rust_streamer_pgdb.Prelude.Tests.{Bool-cases, ==_iff, ◌==◌, if◌then◌else◌}

abbrev pub Bytes : Type 0
Bytes = List ℕ

-- The code points of a literal; these are its bytes when the text is ASCII.
abbrev pub codes : String → Bytes
codes String.[] = []
codes (String.◌∷◌ c s) = code c ∷ codes s

-- The byte does not occur.
abbrev pub Lacks : ℕ → Bytes → Type 0
Lacks b = All (λ c. c ≢ b)

-- Equality of slices.
unfoldable pub bytes_eq : Bytes → Bytes → Bool
bytes_eq [] [] = true
bytes_eq (x ∷ xs) (y ∷ ys) = x == y && bytes_eq xs ys
bytes_eq _ _ = false

pub bytes_eq_refl : (xs : Bytes) → bytes_eq xs xs ≡ true
unfolding bytes_eq
bytes_eq_refl [] = refl
bytes_eq_refl (x ∷ xs) = ground (arith, bytes_eq_refl xs)

pub bytes_eq→eq : (xs ys : Bytes) → bytes_eq xs ys ≡ true → xs ≡ ys
unfolding bytes_eq
bytes_eq→eq [] [] h = refl
bytes_eq→eq (x ∷ xs) (y ∷ ys) h = ground (arith, bytes_eq→eq xs ys)
bytes_eq→eq [] (y ∷ ys) h = cc
bytes_eq→eq (x ∷ xs) [] h = cc

-- The index of the first `c` in the slice.
unfoldable pub first_index : ℕ → Bytes → Option ℕ
first_index c [] = none
first_index c (x ∷ xs) = if x == c then some 0 else Option.map suc (first_index c xs)

-- The index of the last `c` in the slice.
unfoldable pub last_index : ℕ → Bytes → Option ℕ
last_index c [] = none
last_index c (x ∷ xs) = elim (last_index c xs) [
  | some i ↦ some (suc i)
  | none ↦ if x == c then some 0 else none
]

-- `memchr::memchr` and `memchr::memrchr`: the first and the last occurrence of a byte.
pub record Memchr : Type 0 where
  pub memchr : ℕ → Bytes → Option ℕ
  pub memrchr : ℕ → Bytes → Option ℕ
  pub memchr_first : (c : ℕ) (s : Bytes) → memchr c s ≡ first_index c s
  pub memrchr_last : (c : ℕ) (s : Bytes) → memrchr c s ≡ last_index c s

-- The linear search meets the laws.
abbrev pub linear_search : Memchr
linear_search = record {
  memchr = first_index;
  memrchr = last_index;
  memchr_first = λ c s. refl;
  memrchr_last = λ c s. refl;
}

pub first_index-Lacks : (c : ℕ) (s : Bytes) → first_index c s ≡ none → Lacks c s
unfolding first_index
first_index-Lacks c [] h = tt
first_index-Lacks c (x ∷ xs) h = ground (arith, first_index-Lacks c xs)

pub Lacks-first_index : (c : ℕ) (s : Bytes) → Lacks c s → first_index c s ≡ none
unfolding first_index
Lacks-first_index c [] h = refl
Lacks-first_index c (x ∷ xs) h = ground (arith, Lacks-first_index c xs h.1)

pub first_index-append :
    (c : ℕ) (p rest : Bytes) → Lacks c p → first_index c (p ++ c ∷ rest) ≡ some (length p)
unfolding first_index
first_index-append c [] rest h = ground arith
first_index-append c (x ∷ p) rest h = ground (arith, first_index-append c p rest h.1)

-- What a hit tells: the slice is the run before it, the byte, and the rest.
pub record SplitsAt (c : ℕ) (s : Bytes) (n : ℕ) : Type 0 where
  pub lacks : Lacks c (take n s)
  pub within : n < length s
  pub splits : s ≡ take n s ++ c ∷ drop (suc n) s
  pub prefix_length : length (take n s) ≡ n

head_hit : (c x : ℕ) (xs : Bytes) → first_index c (x ∷ xs) ≡ some 0 → x ∷ xs ≡ c ∷ xs
unfolding first_index
head_hit c x xs h = ground arith

tail_hit :
    (c x : ℕ) (xs : Bytes) (n : ℕ)
    → first_index c (x ∷ xs) ≡ some (suc n)
    → (x ≢ c) × (first_index c xs ≡ some n)
unfolding first_index
tail_hit c x xs n h = ground arith

pub first_index-SplitsAt : (c : ℕ) (s : Bytes) (n : ℕ) → first_index c s ≡ some n → SplitsAt c s n
unfolding first_index
first_index-SplitsAt c [] n h = cc
first_index-SplitsAt c (x ∷ xs) zero h = record {
  lacks = tt;
  within = omega arith;
  splits = head_hit c x xs h;
  prefix_length = refl;
}
first_index-SplitsAt c (x ∷ xs) (suc n) h =
    let found = tail_hit c x xs n h in
    let ih = first_index-SplitsAt c xs n found.1 in
    record {
      lacks = (found.0, ih.lacks);
      within = omega (arith, ih.within);
      splits = ap (◌∷◌ x) ih.splits;
      prefix_length = ap suc ih.prefix_length;
    }

-- A byte does not occur, or it has a first occurrence.
pub first_occurrence :
    (b : ℕ) (s : Bytes) → Lacks b s ⊎ ((p : Bytes) × (t : Bytes) × Lacks b p × (s ≡ p ++ b ∷ t))
first_occurrence b [] = inl tt
first_occurrence b (c ∷ s) = elim (Bool-cases (c == b)) [
  | inl e ↦ inr ([], s, tt, ap (λ x. x ∷ s) ((==_iff c b).0 e))
  | inr n ↦ elim (first_occurrence b s) [
    | inl l ↦ inl (ground arith, l)
    | inr (p, t, l, e) ↦ inr (c ∷ p, t, (ground arith, l), ap (◌∷◌ c) e)
  ]
]

-- A byte does not occur, or it has a last occurrence, at the index that the search finds.
pub last_index-none : (c : ℕ) (s : Bytes) → last_index c s ≡ none → Lacks c s
unfolding last_index
last_index-none c [] h = tt
last_index-none c (x ∷ xs) h = ground (arith, last_index-none c xs)

pub last_index-some :
    (c : ℕ) (s : Bytes) (n : ℕ)
    → last_index c s ≡ some n
    → (n < length s) × (last? (take (suc n) s) ≡ some c) × Lacks c (drop (suc n) s)
unfolding last_index
last_index-some c [] n h = cc
last_index-some c (x ∷ []) zero h = ground arith
last_index-some c (x ∷ []) (suc n) h = ground arith
last_index-some c (x ∷ y ∷ ys) zero h =
    ground (arith, last_index-none c (y ∷ ys), last_index c (y ∷ ys))
last_index-some c (x ∷ y ∷ ys) (suc n) h =
    ground (arith, last_index-some c (y ∷ ys) n, last_index c (y ∷ ys))
