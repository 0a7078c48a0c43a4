-- ===== src/Scan/Names/RoundTrip.antt =====
-- src/scan.rs: quoted identifiers and qualified names are read back as they were written.
use rust_streamer_pgdb.Prelude.{
  sym, append_assoc, ==_iff, Bool-cases, ap, append-nil, ◌==◌, refl, Option, ◌∙◌, if◌then◌else◌, [],
  ◌≡◌, ◌++◌, ◌≢◌, ◌∷◌, Bytes, ℕ, none, some, inl, inr, arith,
}
use rust_streamer_pgdb.Scan.Names.{
  with_table, qualified_from, unqualified, qualify, take_qualified, TableName, take_identifier,
  quoted_name,
}
use rust_streamer_pgdb.Prelude.Ascii.{is_ascii_whitespace, skip_while, from_utf8_lossy}

-- A quote within an identifier is doubled.
unfoldable pub doubled : Bytes → Bytes
doubled [] = []
doubled (c ∷ s) = if c == b'"' then b'"' ∷ b'"' ∷ doubled s else c ∷ doubled s

-- An identifier in quotes, in front of what follows.
abbrev pub quoted : Bytes → Bytes → Bytes
quoted name rest = b'"' ∷ (doubled name ++ b'"' ∷ rest)

-- A name as `pg_dump` writes it, each part in quotes, in front of what follows.
abbrev pub written_name : TableName → Bytes → Bytes
written_name name rest = elim name.schema [
  | none ↦ quoted name.table rest
  | some schema ↦ quoted schema (b'.' ∷ quoted name.table rest)
]

-- The text is valid UTF-8: decoding replaces nothing.
abbrev pub IsUtf8 : Bytes → Type 0
IsUtf8 s = from_utf8_lossy s ≡ s

-- The text does not go on with the byte.
abbrev pub NotNext : ℕ → Bytes → Type 0
NotNext b [] = Unit
NotNext b (c ∷ s) = c ≢ b

-- A byte of a quoted identifier that is no quote is taken over.
quoted_name_plain :
    (acc : Bytes) (c : ℕ) (t : Bytes)
    → c ≢ b'"'
    → t ≢ []
    → quoted_name acc (c ∷ t) ≡ quoted_name (acc ++ c ∷ []) t
unfolding quoted_name
quoted_name_plain acc c [] h k = absurd (k refl)
quoted_name_plain acc c (d ∷ t) h k = ground arith

-- The quote that ends it.
quoted_name_end :
    (acc rest : Bytes)
    → NotNext b'"' rest
    → quoted_name acc (b'"' ∷ rest) ≡ some (from_utf8_lossy acc, rest)
unfolding quoted_name
quoted_name_end acc [] h = refl
quoted_name_end acc (d ∷ rest) h = ground arith

doubled_more : (s rest : Bytes) → doubled s ++ b'"' ∷ rest ≢ []
unfolding doubled
doubled_more [] rest h = cc
doubled_more (c ∷ s) rest h = ground arith

-- A doubled quote stands for one.
quoted_name_twice :
    (acc t : Bytes) → quoted_name acc (b'"' ∷ b'"' ∷ t) ≡ quoted_name (acc ++ b'"' ∷ []) t
unfolding quoted_name
quoted_name_twice acc t = refl

quoted_name-doubled :
    (acc name rest : Bytes)
    → NotNext b'"' rest
    → quoted_name acc (doubled name ++ b'"' ∷ rest) ≡ some (from_utf8_lossy (acc ++ name), rest)
unfolding doubled
quoted_name-doubled acc [] rest h = rw (append-nil acc) (quoted_name_end acc rest h)
quoted_name-doubled acc (c ∷ s) rest h = elim (Bool-cases (c == b'"')) [
  | inl quote ↦
      let same : c ≡ b'"' = (==_iff c b'"').0 quote in
      rw quote (
        quoted_name_twice acc (doubled s ++ b'"' ∷ rest)
        ∙ quoted_name-doubled (acc ++ b'"' ∷ []) s rest h
        ∙ ap (λ t. some (from_utf8_lossy t, rest))
            (append_assoc acc (b'"' ∷ []) s ∙ ap (λ x. acc ++ x ∷ s) (sym same)))
  | inr other ↦ rw other (
      quoted_name_plain acc c (doubled s ++ b'"' ∷ rest) (ground arith) (doubled_more s rest)
      ∙ quoted_name-doubled (acc ++ c ∷ []) s rest h
      ∙ ap (λ t. some (from_utf8_lossy t, rest)) (append_assoc acc (c ∷ []) s))
]

-- An identifier in quotes is read back, whatever it holds.
pub take_identifier-quoted :
    (name rest : Bytes)
    → IsUtf8 name
    → NotNext b'"' rest
    → take_identifier (quoted name rest) ≡ some (name, rest)
unfolding take_identifier skip_while is_ascii_whitespace
take_identifier-quoted name rest u h =
    quoted_name-doubled [] name rest h ∙ ap (λ t. some (t, rest)) u

-- The parts of the name are valid UTF-8.
abbrev pub NameIsUtf8 : TableName → Type 0
NameIsUtf8 name =
    IsUtf8 name.table
    × elim name.schema as (λ s. Type 0) [ none ↦ Unit | some schema ↦ IsUtf8 schema ]

qualify-end :
    (first rest : Bytes) → NotNext b'.' rest → qualify first rest ≡ some (unqualified first rest)
qualify-end first [] h = refl
qualify-end first (c ∷ rest) h = ground arith

-- A name is read back with its schema and its table kept apart, whatever bytes they hold, dots and
-- quotes too, if they are valid UTF-8 and the text behind does not go on with a quote or a dot.
pub take_qualified-written_name :
    (name : TableName) (rest : Bytes)
    → NameIsUtf8 name
    → NotNext b'"' rest
    → NotNext b'.' rest
    → take_qualified (written_name name rest) ≡ some (name, rest)
unfolding take_qualified
take_qualified-written_name name rest u h k = by_schema name.schema name.table u.0 u.1
  where
    by_schema :
        (s : Option Bytes) (t : Bytes)
        → IsUtf8 t
        → elim s as (λ s. Type 0) [ none ↦ Unit | some schema ↦ IsUtf8 schema ]
        → qualified_from (take_identifier (written_name (record { schema = s; table = t }) rest))
          ≡ some (record { schema = s; table = t }, rest)
    by_schema none t v w =
        ap qualified_from (take_identifier-quoted t rest v h) ∙ qualify-end t rest k
    by_schema (some s) t v w =
        ap qualified_from (take_identifier-quoted s (b'.' ∷ quoted t rest) w (omega arith))
        ∙ ap (with_table s) (take_identifier-quoted t rest v h)
