-- ===== src/Copy/DecodeRow/RoundTrip.antt =====
-- src/copy.rs: `decode_row` reads back what COPY TEXT writes. The writer is PostgreSQL's; its output
-- is described here as the documentation of COPY does, and is no model of code in this repository.
use rust_streamer_pgdb.Copy.DecodeRow.{decode_row}
use rust_streamer_pgdb.Copy.DecodeRow.Reference.{
  split_tabs, value, read_parts, read_row, contents, map_ok, split_tabs-Lacks, split_tabs-cons,
}
use rust_streamer_pgdb.Copy.DecodeRow.Refines.{contents-decode_row}
use rust_streamer_pgdb.Copy.Field.{Limits, classify, null_marker}
use rust_streamer_pgdb.Copy.Unescape.{unescape, to_vec, escape_at}
use rust_streamer_pgdb.Copy.Unescape.Steps.{unescape-nil, unescape_plain, unescape_backslash}
use rust_streamer_pgdb.Prelude.{
  ap, All, ◌≤◌, inl, length, map, ◌+◌, first_index-Lacks, append_assoc, ◌≢◌, refl, append-nil,
  All-append, ◌∙◌, arith, ◌==◌, false, ◌⊎◌, [], none, ◌++◌, if◌then◌else◌, some, ◌≡◌, Lacks, ◌∷◌,
  Bytes, Memchr, bytes_eq, List, Option, ℕ,
}
use rust_streamer_pgdb.Error.{◌>>=◌, ok}

-- A byte of a value as it is written.
unfoldable pub written_byte : ℕ → Bytes
written_byte c =
    if c == 0x08
    then b'\\' ∷ b'b' ∷ []
    else if c == 0x0C
    then b'\\' ∷ b'f' ∷ []
    else if c == b'\n'
    then b'\\' ∷ b'n' ∷ []
    else if c == b'\r'
    then b'\\' ∷ b'r' ∷ []
    else if c == b'\t'
    then b'\\' ∷ b't' ∷ []
    else if c == 0x0B
    then b'\\' ∷ b'v' ∷ []
    else if c == b'\\'
    then b'\\' ∷ b'\\' ∷ []
    else c ∷ []

unfoldable pub written : Bytes → Bytes
written [] = []
written (c ∷ s) = written_byte c ++ written s

-- A value or NULL.
abbrev pub written_value : Option Bytes → Bytes
written_value none = null_marker
written_value (some s) = written s

-- The values of a row, with a tab between two.
unfoldable pub written_row : List (Option Bytes) → Bytes
written_row [] = []
written_row (v ∷ []) = written_value v
written_row (v ∷ w ∷ vs) = written_value v ++ b'\t' ∷ written_row (w ∷ vs)

-- What ends a field or a row.
abbrev pub IsSeparator : ℕ → Type 0
IsSeparator b = (b ≡ b'\t') ⊎ (b ≡ b'\n') ⊎ (b ≡ b'\r')

written_byte-Lacks : (c b : ℕ) → IsSeparator b → Lacks b (written_byte c)
unfolding written_byte
written_byte-Lacks c b h = ground arith

written-Lacks : (s : Bytes) (b : ℕ) → IsSeparator b → Lacks b (written s)
unfolding written
written-Lacks [] b h = tt
written-Lacks (c ∷ s) b h =
    All-append (λ x. x ≢ b) (written_byte c) (written s) (written_byte-Lacks c b h)
      (written-Lacks s b h)

pub written_value-Lacks : (v : Option Bytes) (b : ℕ) → IsSeparator b → Lacks b (written_value v)
written_value-Lacks none b h = ground arith
written_value-Lacks (some s) b h = written-Lacks s b h

-- No text value is written like NULL.
written-ne-null_marker : (s : Bytes) → bytes_eq (written s) null_marker ≡ false
unfolding bytes_eq written written_byte
written-ne-null_marker [] = refl
written-ne-null_marker (c ∷ s) = ground arith

module _ ⦃m : Memchr⦄ where
  -- Without a backslash the bytes are the value, as the loop would find too.
  unescape-Lacks : (s out : Bytes) → Lacks b'\\' s → unescape s out ≡ ok (out ++ s)
  unescape-Lacks [] out h = unescape-nil out ∙ rw append-nil
  unescape-Lacks (c ∷ s) out h =
      unescape_plain c s out h.0 ∙ unescape-Lacks s (out ++ c ∷ []) h.1 ∙ rw append_assoc

  value_text :
      (s : Bytes) → bytes_eq s null_marker ≡ false → value s ≡ (unescape s [] >>= λ v. ok (some v))
  unfolding to_vec classify
  value_text s h =
      ground (arith, unescape-Lacks s [], first_index-Lacks b'\\' s, m.memchr_first b'\\' s)

  unescape-written_byte :
      (c : ℕ) (s out : Bytes) → unescape (written_byte c ++ s) out ≡ unescape s (out ++ c ∷ [])
  unfolding written_byte escape_at
  unescape-written_byte c s out = ground (
    arith,
    unescape_backslash b'b' s out,
    unescape_backslash b'f' s out,
    unescape_backslash b'n' s out,
    unescape_backslash b'r' s out,
    unescape_backslash b't' s out,
    unescape_backslash b'v' s out,
    unescape_backslash b'\\' s out,
    unescape_plain c s out,
  )

  unescape-written : (s out : Bytes) → unescape (written s) out ≡ ok (out ++ s)
  unfolding written
  unescape-written [] out = unescape-nil out ∙ rw append-nil
  unescape-written (c ∷ s) out =
      unescape-written_byte c (written s) out ∙ unescape-written s (out ++ c ∷ []) ∙ rw append_assoc

  value-written_value : (v : Option Bytes) → value (written_value v) ≡ ok v
  value-written_value none = unfold to_vec classify in refl
  value-written_value (some s) =
      value_text (written s) (written-ne-null_marker s) ∙ rw (unescape-written s [])

  -- The bounds that a row's text has to keep.
  pub record Fits (limits : Limits) (vs : List (Option Bytes)) : Type 0 where
    pub row_fits : length (written_row vs) ≤ limits.max_row_bytes
    pub columns_fit : length vs ≤ limits.max_columns
    pub fields_fit : All (λ v. length (written_value v) ≤ limits.max_field_bytes) vs

  read_parts-written :
      (limits : Limits) (n : ℕ) (vs : List (Option Bytes))
      → n + length vs ≤ limits.max_columns
      → All (λ v. length (written_value v) ≤ limits.max_field_bytes) vs
      → read_parts limits n (map written_value vs) ≡ ok vs
  unfolding read_parts
  read_parts-written limits n [] h f = refl
  read_parts-written limits n (v ∷ vs) h f =
      rw (value-written_value v) (ground (arith, read_parts-written limits (n + 1) vs))

split_tabs-written_row :
    (v : Option Bytes) (vs : List (Option Bytes))
    → split_tabs (written_row (v ∷ vs)) ≡ map written_value (v ∷ vs)
unfolding written_row
split_tabs-written_row v [] =
    split_tabs-Lacks (written_value v) (written_value-Lacks v b'\t' (inl refl))
split_tabs-written_row v (w ∷ vs) =
    split_tabs-cons (written_value v) (written_row (w ∷ vs))
      (written_value-Lacks v b'\t' (inl refl))
    ∙ ap (◌∷◌ (written_value v)) (split_tabs-written_row w vs)

module _ ⦃m : Memchr⦄ where
  -- Every row with at least one value, NULL or any bytes, is decoded to exactly these values from
  -- the text that COPY writes for it, if the text keeps the limits.
  pub decode_row-written_row :
      (limits : Limits) (v : Option Bytes) (vs : List (Option Bytes))
      → Fits limits (v ∷ vs)
      → map_ok contents (decode_row (written_row (v ∷ vs)) (length (v ∷ vs)) limits) ≡ ok (v ∷ vs)
  unfolding read_row
  decode_row-written_row limits v vs fits =
      contents-decode_row (written_row (v ∷ vs)) (length (v ∷ vs)) limits
      ∙ rw
          (
            split_tabs-written_row v vs,
            read_parts-written limits 0 (v ∷ vs) (omega (arith, fits.columns_fit)) fits.fields_fit,
          )
          (ground (arith, fits.row_fits))
