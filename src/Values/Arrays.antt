-- ===== src/Values/Arrays.antt =====
-- src/values.rs: `parse_array_elements`. The loops work on the bytes from `i` on.
pub mod RoundTrip
use rust_streamer_pgdb.Prelude.{
  drop, inr, ◌-◌, inl, Bool-cases, take, ltb, ap, last?, suc, ◌||◌, refl, arith, codes, [], ◌<◌,
  get_elem?, ◌≤◌, is_empty, ◌++◌, bytes_eq, ◌&&◌, ◌==◌, length, if◌then◌else◌, not, ◌∷◌, Bool, ◌≡◌,
  Option, List, ℕ, Bytes, true, false, none, some,
}
use rust_streamer_pgdb.Prelude.Ascii.{is_ascii_whitespace, take_while, skip_while}
use rust_streamer_pgdb.Prelude.Loop.{more, done, loop, Round}
use rust_streamer_pgdb.Error.{err, ok, Result}
use rust_streamer_pgdb.Values.{bad}

-- The loop of a quoted element, behind the quote that opens it; none is its error.
unfoldable pub quoted_element : Bytes → Bytes → Option (Bytes × Bytes)
quoted_element buf [] = none
quoted_element buf (c ∷ []) = if c == b'"' then some (buf, []) else none
quoted_element buf (c ∷ d ∷ rest) = elim (c == b'"') [
  | true ↦ some (buf, d ∷ rest)
  | false ↦ elim (c == b'\\') [
    | true ↦ quoted_element (buf ++ d ∷ []) rest
    | false ↦ quoted_element (buf ++ c ∷ []) (d ∷ rest)
  ]
]

-- A byte of an element without quotes.
abbrev pub is_raw : ℕ → Bool
is_raw c = not (c == b',') && not (c == b'}') && not (is_ascii_whitespace c)

abbrev pub Element : Type 0
Element = Option Bytes

abbrev pub raw_element : Bytes → Option (Element × Bytes)
raw_element s =
    let raw = take_while is_raw s in
    some ((if bytes_eq raw (codes "NULL") then none else some raw), skip_while is_raw s)

abbrev pub quoted_as_element : Option (Bytes × Bytes) → Option (Element × Bytes)
quoted_as_element none = none
quoted_as_element (some (buf, rest)) = some (some buf, rest)

-- The element behind whitespace.
abbrev pub element_at : Bytes → Option (Element × Bytes)
element_at [] = raw_element []
element_at (c ∷ s) =
    if c == b'"' then quoted_as_element (quoted_element [] s) else raw_element (c ∷ s)

abbrev pub Elements : Type 0
Elements = List Element × Bytes

-- What stands behind an element and whitespace.
abbrev pub at_delimiter : Bytes → List Element → Bytes → Round Elements (Result (List Element))
at_delimiter column elements [] = done (ok elements)
at_delimiter column elements (c ∷ rest) =
    if c == b',' then more (elements, rest) else done (err (bad column (codes "array")))

abbrev pub after_element :
    Bytes → List Element → Option (Element × Bytes) → Round Elements (Result (List Element))
after_element column elements none = done (err (bad column (codes "array")))
after_element column elements (some (e, rest)) =
    at_delimiter column (elements ++ e ∷ []) (skip_while is_ascii_whitespace rest)

-- One round of `loop { … }`.
unfoldable pub element_round : Bytes → Elements → Round Elements (Result (List Element))
element_round column (elements, s) =
    after_element column elements (element_at (skip_while is_ascii_whitespace s))

pub skip_while_le : (p : ℕ → Bool) (s : Bytes) → length (skip_while p s) ≤ length s
unfolding skip_while
skip_while_le p [] = omega arith
skip_while_le p (c ∷ s) = ground (arith, skip_while_le p s)

quoted_element_le :
    (buf s : Bytes) (v rest : Bytes)
    → quoted_element buf s ≡ some (v, rest)
    → length rest ≤ length s
unfolding quoted_element
quoted_element_le buf [] v rest h = cc
quoted_element_le buf (c ∷ []) v rest h = ground arith
quoted_element_le buf (c ∷ d ∷ s) v rest h = ground (
  arith,
  quoted_element_le (buf ++ d ∷ []) s v rest,
  quoted_element_le (buf ++ c ∷ []) (d ∷ s) v rest,
)

element_at_le :
    (s : Bytes) (e : Element) (rest : Bytes)
    → element_at s ≡ some (e, rest)
    → length rest ≤ length s
element_at_le [] e rest h = unfold skip_while in ground arith
element_at_le (c ∷ s) e rest h = elim (Bool-cases (c == b'"')) [
  | inl quote ↦ by_quoted (quoted_element [] s) refl (rw quote at h)
  | inr other ↦
      let same : skip_while is_raw (c ∷ s) ≡ rest = raw_rest (rw other at h) in
      rw (← same) (skip_while_le is_raw (c ∷ s))
]
  where
    by_quoted :
        (o : Option (Bytes × Bytes))
        → quoted_element [] s ≡ o
        → quoted_as_element o ≡ some (e, rest)
        → length rest ≤ suc (length s)
    by_quoted none k q = cc
    by_quoted (some (buf, r)) k q =
        let same : r ≡ rest = cc in omega (arith, quoted_element_le [] s buf r k, ap length same)

    raw_rest : raw_element (c ∷ s) ≡ some (e, rest) → skip_while is_raw (c ∷ s) ≡ rest
    raw_rest q = cc

after_element_falls :
    (column : Bytes) (elements : List Element) (s : Bytes) (o : Option (Element × Bytes))
    (t : Elements)
    → element_at (skip_while is_ascii_whitespace s) ≡ o
    → after_element column elements o ≡ more t
    → length t.1 < length s
after_element_falls column elements s none t e h = cc
after_element_falls column elements s (some (x, rest)) t e h =
    let le = element_at_le (skip_while is_ascii_whitespace s) x rest e in
    delimited (skip_while is_ascii_whitespace rest)
      (omega
        (arith, le, skip_while_le is_ascii_whitespace s, skip_while_le is_ascii_whitespace rest))
      h
  where
    delimited :
        (u : Bytes)
        → length u ≤ length s
        → at_delimiter column (elements ++ x ∷ []) u ≡ more t
        → length t.1 < length s
    delimited [] k q = cc
    delimited (c ∷ u) k q = ground arith

pub element_round_falls :
    (column : Bytes) (s t : Elements) → element_round column s ≡ more t → length t.1 < length s.1
unfolding element_round
element_round_falls column (elements, s) t h = after_element_falls column elements s _ t refl h

abbrev pub element_loop : Bytes → Elements → Result (List Element)
element_loop column =
    loop (λ (s : Elements). length s.1) (element_round column) (element_round_falls column)

-- The bytes between the braces.
abbrev pub elements_of : Bytes → Bytes → Result (List Element)
elements_of column inner = if is_empty inner then ok [] else element_loop column ([], inner)

-- `slice.first() == Some(&c)` and `slice.last() == Some(&c)`
abbrev pub is_some_byte : Option ℕ → ℕ → Bool
is_some_byte none b = false
is_some_byte (some c) b = c == b

unfoldable pub parse_array_elements : Bytes → Bytes → Result (List Element)
unfolding element_round
parse_array_elements v column =
    if not (is_some_byte (get_elem? v 0) b'{')
      || not (is_some_byte (last? v) b'}')
      || ltb (length v) 2
    then err (bad column (codes "array"))
    else elements_of column (take (length v - 2) (drop 1 v))
