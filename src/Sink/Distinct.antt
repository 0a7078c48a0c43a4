-- ===== src/Sink/Distinct.antt =====
-- src/sink.rs: different tables have different paths.
use mathlib.Core.Bool.{true≢false}
use rust_streamer_pgdb.Scan.Names.{TableName, qualified}
use rust_streamer_pgdb.Error.{err, Result, ok, unsafe_table_name}
use rust_streamer_pgdb.Prelude.{
  length, ltb, ◌+◌, none, subst, some, ap₂, sym, Option, ◌++◌, Bool, ◌≢◌, refl, All-append, inr,
  arith, ap, ◌==◌, inl, false, true, Bool-cases, ◌∙◌, ◌⊎◌, [], ◌&&◌, ◌≡◌, all, bytes_eq, ◌∷◌,
  flatten, List, All, leb, Lacks, ℕ, Bytes,
}
use rust_streamer_pgdb.Prelude.Text.{prepend_char, chars}
use rust_streamer_pgdb.Sink.Paths.{
  has_bare_ends, has_length, path_of_total, join_path, path_parts, total_length, is_safe,
  relative_path, is_allowed, CharClass,
}
use rust_streamer_pgdb.Prelude.Ascii.{in_range}

-- A character that holds a slash is a slash.
abbrev OwnSlash : Bytes → Type 0
OwnSlash g = Lacks b'/' g ⊎ (g ≡ b'/' ∷ [])

alone-OwnSlash : (a : ℕ) → OwnSlash (a ∷ [])
alone-OwnSlash a = elim (Bool-cases (a == b'/')) [
  | inl slash ↦ inr (ground arith)
  | inr other ↦ inl (λ e. absurd (ground arith), tt)
]

merged-OwnSlash :
    (a b : ℕ) (c : Bytes)
    → leb 0x80 a && in_range 0x80 0xBF b ≡ true
    → OwnSlash (b ∷ c)
    → OwnSlash (a ∷ b ∷ c)
merged-OwnSlash a b c h (inl lacks) = inl (λ e. absurd (ground arith), lacks)
merged-OwnSlash a b c h (inr e) = absurd (ground arith)

prepend_char-OwnSlash :
    (a : ℕ) (cs : List Bytes) → All OwnSlash cs → All OwnSlash (prepend_char a cs)
prepend_char-OwnSlash a [] h = (alone-OwnSlash a, tt)
prepend_char-OwnSlash a ([] ∷ cs) h = (alone-OwnSlash a, h.1)
prepend_char-OwnSlash a ((b ∷ c) ∷ cs) h = elim (Bool-cases (leb 0x80 a && in_range 0x80 0xBF b)) [
  | inl joined ↦ rw joined (merged-OwnSlash a b c joined h.0, h.1)
  | inr apart ↦ rw apart (alone-OwnSlash a, h)
]

chars-OwnSlash : (s : Bytes) → All OwnSlash (chars s)
unfolding chars
chars-OwnSlash [] = tt
chars-OwnSlash (a ∷ s) = prepend_char-OwnSlash a (chars s) (chars-OwnSlash s)

flatten-prepend_char : (a : ℕ) (cs : List Bytes) → flatten (prepend_char a cs) ≡ a ∷ flatten cs
flatten-prepend_char a [] = refl
flatten-prepend_char a ([] ∷ cs) = refl
flatten-prepend_char a ((b ∷ c) ∷ cs) = elim (Bool-cases (leb 0x80 a && in_range 0x80 0xBF b)) [
  | inl joined ↦ rw joined refl
  | inr apart ↦ rw apart refl
]

flatten-chars : (s : Bytes) → flatten (chars s) ≡ s
unfolding chars
flatten-chars [] = refl
flatten-chars (a ∷ s) = flatten-prepend_char a (chars s) ∙ ap (λ t. a ∷ t) (flatten-chars s)

and_true : (b c : Bool) → b && c ≡ true → (b ≡ true) × (c ≡ true)
and_true true c h = (refl, h)
and_true false c h = absurd (true≢false (sym h))

module _ ⦃k : CharClass⦄ where
  slash_refused : is_allowed (b'/' ∷ []) ≡ false
  unfolding bytes_eq
  slash_refused = rw (k.alphanumeric_ascii b'/' (omega arith)) refl

  allowed-Lacks :
      (cs : List Bytes) → All OwnSlash cs → all is_allowed cs ≡ true → Lacks b'/' (flatten cs)
  allowed-Lacks [] h e = tt
  allowed-Lacks (g ∷ cs) h e = elim h.0 [
    | inl lacks ↦
        All-append (λ c. c ≢ b'/') g (flatten cs) lacks
          (allowed-Lacks cs h.1 (and_true (is_allowed g) _ e).1)
    | inr slash ↦ absurd (
        true≢false (
          sym (and_true (is_allowed g) (all is_allowed cs) e).0
          ∙ (ap is_allowed slash ∙ slash_refused)))
  ]

  safe-Lacks : (s : Bytes) → is_safe s ≡ true → Lacks b'/' s
  safe-Lacks s e =
      subst (Lacks b'/') (flatten-chars s)
        (allowed-Lacks (chars s) (chars-OwnSlash s) (and_true (all is_allowed (chars s)) _ e).0)

  total_length-Lacks :
      (total n : ℕ) (parts : List Bytes)
      → total_length total parts ≡ some n
      → All (Lacks b'/') parts
  unfolding total_length
  total_length-Lacks total n [] h = tt
  total_length-Lacks total n (s ∷ parts) h =
      elim (Bool-cases (has_length s && has_bare_ends s && is_safe s)) [
        | inl fine ↦ (
          safe-Lacks s (and_true (has_length s && has_bare_ends s) (is_safe s) fine).1,
          total_length-Lacks (total + length s) n parts (rw fine at h),
        )
        | inr unfit ↦ absurd (not_some (rw unfit at h))
      ]
    where
      not_some : ¬ (none ≡ some n)
      not_some e = cc

  path_of_total-joined :
      (name : TableName) (o : Option ℕ) (path : Bytes)
      → total_length 0 (path_parts name.schema name.table) ≡ o
      → path_of_total name o ≡ ok path
      → All (Lacks b'/') (path_parts name.schema name.table)
        × (path ≡ join_path (path_parts name.schema name.table))
  path_of_total-joined name none path e h = cc
  path_of_total-joined name (some n) path e h = elim (Bool-cases (ltb 512 n)) [
    | inl long ↦ absurd (refused (rw long at h))
    | inr short ↦
        (total_length-Lacks 0 n (path_parts name.schema name.table) e, joined (rw short at h))
  ]
    where
      refused : ¬ (◌≡◌ {A = Result Bytes} (err (unsafe_table_name (qualified name))) (ok path))
      refused q = cc

      joined :
          ◌≡◌ {A = Result Bytes} (ok (join_path (path_parts name.schema name.table))) (ok path)
          → path ≡ join_path (path_parts name.schema name.table)
      joined q = cc

-- Paths without a slash in their components are joined apart.
slash_apart : (s : Bytes) (t u : Bytes) → Lacks b'/' u → s ++ b'/' ∷ t ≢ u
slash_apart [] t [] h e = cc
slash_apart [] t (c ∷ u) h e = h.0 (cc)
slash_apart (a ∷ s) t [] h e = cc
slash_apart (a ∷ s) t (c ∷ u) h e = slash_apart s t u h.1 (cc)

slash_same :
    (s t s' t' : Bytes)
    → Lacks b'/' s
    → Lacks b'/' s'
    → s ++ b'/' ∷ t ≡ s' ++ b'/' ∷ t'
    → (s ≡ s') × (t ≡ t')
slash_same [] t [] t' h k e = (refl, cc)
slash_same [] t (c ∷ s') t' h k e = absurd (k.0 (cc))
slash_same (a ∷ s) t [] t' h k e = absurd (h.0 (cc))
slash_same (a ∷ s) t (c ∷ s') t' h k e =
    let (front, behind) = slash_same s t s' t' h.1 k.1 (cc) in
    let head : a ≡ c = cc in (ap₂ (λ a s. a ∷ s) head front, behind)

join_path-same :
    (s s' : Option Bytes) (t t' : Bytes)
    → All (Lacks b'/') (path_parts s t)
    → All (Lacks b'/') (path_parts s' t')
    → join_path (path_parts s t) ≡ join_path (path_parts s' t')
    → (s ≡ s') × (t ≡ t')
join_path-same none none t t' h k e = (refl, e)
join_path-same none (some s') t t' h k e = absurd (slash_apart s' t' t h.0 (sym e))
join_path-same (some s) none t t' h k e = absurd (slash_apart s t t' k.0 e)
join_path-same (some s) (some s') t t' h k e =
    let (front, behind) = slash_same s t s' t' h.0 k.0 e in (ap some front, behind)

-- Two tables that are given the same path are the same table, with the same schema or none: names are
-- refused where they could meet, whatever bytes they hold.
pub relative_path_inj :
    ⦃k : CharClass⦄ (a b : TableName) (path : Bytes)
    → relative_path a ≡ ok path
    → relative_path b ≡ ok path
    → a ≡ b
unfolding relative_path
relative_path_inj a b path h k =
    let p = path_of_total-joined a _ path refl h in
    let q = path_of_total-joined b _ path refl k in
    let same = join_path-same a.schema b.schema a.table b.table p.0 q.0 (sym p.1 ∙ q.1) in
    ap₂ (λ s t. record { schema = s; table = t }) same.0 same.1
