-- ===== src/Values/Arrays/RoundTrip.antt =====
-- src/values.rs: arrays are read back as `array_out` of PostgreSQL writes them.
use rust_streamer_pgdb.Prelude.{
  take-append_self, ◌-◌, ltb, length-append, ◌+◌, length, map, bytes_eq→eq, bytes_eq, bytes_eq_refl,
  last?, append_assoc, ap, ◌∙◌, Bool-cases, refl, append-nil, [], ◌||◌, if◌then◌else◌, ◌≡◌, ◌≢◌,
  is_empty, ◌==◌, Bool, codes, ◌++◌, ◌∷◌, List, Bytes, ℕ, true, false, none, some, inl, inr, arith,
}
use rust_streamer_pgdb.Values.Arrays.{
  after_element, element_round_falls, element_round, Elements, raw_element, quoted_as_element,
  parse_array_elements, element_at, elements_of, element_loop, is_raw, quoted_element, Element,
}
use rust_streamer_pgdb.Prelude.Ascii.{
  to_ascii_lowercase, eq_ignore_ascii_case, is_ascii_whitespace, skip_while, take_while,
}
use rust_streamer_pgdb.Error.{ok}
use rust_streamer_pgdb.Prelude.Loop.{loop_more, loop_done}

-- A byte for which `array_out` puts an element in quotes.
abbrev pub is_special : ℕ → Bool
is_special c =
    c == b'"'
    || c == b'\\'
    || c == b'{'
    || c == b'}'
    || c == b','
    || is_ascii_whitespace c
    || c == 0x0B

unfoldable pub has_special : Bytes → Bool
has_special [] = false
has_special (c ∷ s) = is_special c || has_special s

abbrev pub needs_quotes : Bytes → Bool
needs_quotes v = is_empty v || has_special v || eq_ignore_ascii_case v (codes "NULL")

unfoldable pub escaped : Bytes → Bytes
escaped [] = []
escaped (c ∷ s) = if c == b'"' || c == b'\\' then b'\\' ∷ c ∷ escaped s else c ∷ escaped s

-- An element in front of what follows.
abbrev pub written_element : Element → Bytes → Bytes
written_element none rest = codes "NULL" ++ rest
written_element (some v) rest =
    if needs_quotes v then b'"' ∷ (escaped v ++ b'"' ∷ rest) else v ++ rest

-- Elements with commas between them, in front of nothing.
unfoldable pub written_elements : Element → List Element → Bytes
written_elements e [] = written_element e []
written_elements e (f ∷ es) = written_element e (b',' ∷ written_elements f es)

abbrev pub inner : List Element → Bytes
inner [] = []
inner (e ∷ es) = written_elements e es

abbrev pub written_array : List Element → Bytes
written_array es = b'{' ∷ (inner es ++ b'}' ∷ [])

-- What follows an element.
abbrev AtDelimiter : Bytes → Type 0
AtDelimiter [] = Unit
AtDelimiter (c ∷ s) = c ≡ b','

quoted_element_end : (buf rest : Bytes) → quoted_element buf (b'"' ∷ rest) ≡ some (buf, rest)
unfolding quoted_element
quoted_element_end buf [] = refl
quoted_element_end buf (d ∷ rest) = refl

quoted_element_plain :
    (buf : Bytes) (c : ℕ) (t : Bytes)
    → (c == b'"' || c == b'\\') ≡ false
    → t ≢ []
    → quoted_element buf (c ∷ t) ≡ quoted_element (buf ++ c ∷ []) t
unfolding quoted_element
quoted_element_plain buf c [] h k = absurd (k refl)
quoted_element_plain buf c (d ∷ t) h k = ground arith

quoted_element_escape :
    (buf : Bytes) (c : ℕ) (t : Bytes)
    → quoted_element buf (b'\\' ∷ c ∷ t) ≡ quoted_element (buf ++ c ∷ []) t
unfolding quoted_element
quoted_element_escape buf c t = refl

escaped_more : (s rest : Bytes) → escaped s ++ b'"' ∷ rest ≢ []
unfolding escaped
escaped_more [] rest h = cc
escaped_more (c ∷ s) rest h = ground arith

quoted_element-escaped :
    (buf v rest : Bytes) → quoted_element buf (escaped v ++ b'"' ∷ rest) ≡ some (buf ++ v, rest)
unfolding escaped
quoted_element-escaped buf [] rest = rw (append-nil buf) (quoted_element_end buf rest)
quoted_element-escaped buf (c ∷ s) rest = elim (Bool-cases (c == b'"' || c == b'\\')) [
  | inl special ↦ rw special (
      quoted_element_escape buf c (escaped s ++ b'"' ∷ rest)
      ∙ quoted_element-escaped (buf ++ c ∷ []) s rest
      ∙ ap (λ t. some (t, rest)) (append_assoc buf (c ∷ []) s))
  | inr plain ↦ rw plain (
      quoted_element_plain buf c (escaped s ++ b'"' ∷ rest) plain (escaped_more s rest)
      ∙ quoted_element-escaped (buf ++ c ∷ []) s rest
      ∙ ap (λ t. some (t, rest)) (append_assoc buf (c ∷ []) s))
]

-- A run of raw bytes ends at a delimiter.
raw_run :
    (v rest : Bytes)
    → has_special v ≡ false
    → AtDelimiter rest
    → (take_while is_raw (v ++ rest) ≡ v) × (skip_while is_raw (v ++ rest) ≡ rest)
unfolding has_special take_while skip_while
raw_run [] [] h k = (refl, refl)
raw_run [] (c ∷ rest) h k = ground arith
raw_run (c ∷ v) rest h k = ground (arith, raw_run v rest)

eq_ignore_ascii_case_refl : (v : Bytes) → eq_ignore_ascii_case v v ≡ true
unfolding eq_ignore_ascii_case
eq_ignore_ascii_case_refl v = bytes_eq_refl (map to_ascii_lowercase v)

-- What is not NULL in any case is not `NULL`.
not_null :
    (v : Bytes) → eq_ignore_ascii_case v (codes "NULL") ≡ false → bytes_eq v (codes "NULL") ≡ false
not_null v h = elim (Bool-cases (bytes_eq v (codes "NULL"))) [
  | inl same ↦
      let e : v ≡ codes "NULL" = bytes_eq→eq v (codes "NULL") same in
      let case : eq_ignore_ascii_case v (codes "NULL") ≡ true =
        ap (λ x. eq_ignore_ascii_case x (codes "NULL")) e
        ∙ eq_ignore_ascii_case_refl (codes "NULL") in
      absurd (cc)
  | inr other ↦ other
]

raw_element-run :
    (v rest : Bytes) (b : Bool)
    → has_special v ≡ false
    → AtDelimiter rest
    → bytes_eq v (codes "NULL") ≡ b
    → raw_element (v ++ rest) ≡ some ((if b then none else some v), rest)
raw_element-run v rest b h k e = let r = raw_run v rest h k in rw (r.0, r.1, e) refl

skip_solid :
    (c : ℕ) (s : Bytes)
    → is_ascii_whitespace c ≡ false
    → skip_while is_ascii_whitespace (c ∷ s) ≡ c ∷ s
unfolding skip_while
skip_solid c s h = rw h refl

element_at_other :
    (c : ℕ) (s : Bytes) → (c == b'"') ≡ false → element_at (c ∷ s) ≡ raw_element (c ∷ s)
element_at_other c s h = rw h refl

-- An element that stands without quotes is no whitespace and no quote, and not empty.
plain_element :
    (v rest : Bytes)
    → is_empty v ≡ false
    → has_special v ≡ false
    → element_at (skip_while is_ascii_whitespace (v ++ rest)) ≡ raw_element (v ++ rest)
unfolding has_special
plain_element [] rest n h = cc
plain_element (c ∷ v) rest n h = elim (Bool-cases (is_ascii_whitespace c)) [
  | inl space ↦ absurd (ground arith)
  | inr solid ↦ elim (Bool-cases (c == b'"')) [
    | inl quote ↦ absurd (ground arith)
    | inr other ↦
        ap element_at (skip_solid c (v ++ rest) solid) ∙ element_at_other c (v ++ rest) other
  ]
]

element_at-written_element :
    (e : Element) (rest : Bytes)
    → AtDelimiter rest
    → element_at (skip_while is_ascii_whitespace (written_element e rest)) ≡ some (e, rest)
unfolding skip_while is_ascii_whitespace
element_at-written_element none rest k =
    raw_element-run (codes "NULL") rest true (unfold has_special in refl) k
      (bytes_eq_refl (codes "NULL"))
element_at-written_element (some v) rest k = elim (Bool-cases (needs_quotes v)) [
  | inl quotes ↦ rw quotes (ap quoted_as_element (quoted_element-escaped [] v rest))
  | inr plain ↦
      let parts : (is_empty v ≡ false)
          × (has_special v ≡ false)
          × (eq_ignore_ascii_case v (codes "NULL") ≡ false) =
        ground arith in
      rw plain (
        plain_element v rest parts.0 parts.1
        ∙ raw_element-run v rest false parts.1 k (not_null v parts.2))
]

element_loop-written_elements :
    (column : Bytes) (acc : List Element) (e : Element) (es : List Element)
    → element_loop column (acc, written_elements e es) ≡ ok (acc ++ e ∷ es)
unfolding written_elements
element_loop-written_elements column acc e [] =
    loop_done (λ (s : Elements). length s.1) (element_round column) (element_round_falls column)
      (acc, written_element e []) (ok (acc ++ e ∷ []))
      (unfold element_round in
        ap (after_element column acc) (element_at-written_element e [] tt)
        ∙ (unfold skip_while in refl))
element_loop-written_elements column acc e (f ∷ es) =
    loop_more (λ (s : Elements). length s.1) (element_round column) (element_round_falls column)
      (acc, written_element e (b',' ∷ written_elements f es)) (acc ++ e ∷ [], written_elements f es)
      (unfold element_round in
        ap (after_element column acc)
          (element_at-written_element e (b',' ∷ written_elements f es) refl)
        ∙ (unfold skip_while in unfold is_ascii_whitespace in refl))
    ∙ element_loop-written_elements column (acc ++ e ∷ []) f es
    ∙ ap ok (append_assoc acc (e ∷ []) (f ∷ es))

written_element_more : (e : Element) (rest : Bytes) → is_empty (written_element e rest) ≡ false
written_element_more none rest = refl
written_element_more (some []) rest = refl
written_element_more (some (c ∷ v)) rest = ground arith

elements_of-inner : (column : Bytes) (es : List Element) → elements_of column (inner es) ≡ ok es
elements_of-inner column [] = refl
elements_of-inner column (e ∷ es) =
    rw (some_bytes es) (element_loop-written_elements column [] e es)
  where
    some_bytes : (fs : List Element) → is_empty (written_elements e fs) ≡ false
    some_bytes [] = unfold written_elements in written_element_more e []
    some_bytes (f ∷ fs) =
        unfold written_elements in written_element_more e (b',' ∷ written_elements f fs)

last?-snoc : (s : Bytes) (c : ℕ) → last? (s ++ c ∷ []) ≡ some c
last?-snoc [] c = refl
last?-snoc (x ∷ []) c = refl
last?-snoc (x ∷ y ∷ s) c = last?-snoc (y ∷ s) c

-- Every one-dimensional array is read back from the literal that PostgreSQL writes for it: each
-- element, empty or not, with braces, commas, quotes, backslashes and whitespace, the word NULL and
-- the null element kept apart.
pub parse_array_elements-written_array :
    (column : Bytes) (es : List Element) → parse_array_elements (written_array es) column ≡ ok es
unfolding parse_array_elements
parse_array_elements-written_array column es =
    let n : length (written_array es) ≡ length (inner es) + 2 =
      omega (arith, length-append (inner es) (b'}' ∷ [])) in
    let short : ltb (length (written_array es)) 2 ≡ false = ground (arith, n) in
    let size : length (written_array es) - 2 ≡ length (inner es) = omega (arith, n) in
    rw (last?-snoc (b'{' ∷ inner es) b'}', short, size, take-append_self (inner es) (b'}' ∷ []))
      (elements_of-inner column es)
