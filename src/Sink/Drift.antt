-- ===== src/Sink/Drift.antt =====
-- src/sink.rs: `SchemaDrift` and `diff_schema`. A type of the Delta kernel is known by its equality
-- and by the text it is rendered as; a schema is the list of its fields.
use rust_streamer_pgdb.Prelude.{
  some, map, ◌&&◌, bytes_eq, true, ◌∷◌, false, none, if◌then◌else◌, codes, is_empty, ◌≡◌, ◌++◌,
  List, [], Bytes, Bool, Option,
}

pub record KernelType (K : Type 0) : Type 0 where
  pub same : K → K → Bool
  pub show : K → Bytes
  pub same_sound : (a b : K) → same a b ≡ true → a ≡ b
  pub same_refl : (a : K) → same a a ≡ true

pub record SchemaDrift : Type 0 where
  pub added : List Bytes
  pub removed : List Bytes
  pub retyped : List (Bytes × Bytes × Bytes)

-- `SchemaDrift::default`
abbrev pub no_drift : SchemaDrift
no_drift = record { added = []; removed = []; retyped = [] }

-- `SchemaDrift::is_empty`
unfoldable pub is_unchanged : SchemaDrift → Bool
is_unchanged d = is_empty d.added && is_empty d.removed && is_empty d.retyped

abbrev pub joined_names : List Bytes → Bytes
joined_names [] = []
joined_names (n ∷ []) = n
joined_names (n ∷ next ∷ ns) = n ++ (codes ", " ++ joined_names (next ∷ ns))

abbrev pub joined_parts : List Bytes → Bytes
joined_parts [] = []
joined_parts (n ∷ []) = n
joined_parts (n ∷ next ∷ ns) = n ++ (codes "; " ++ joined_parts (next ∷ ns))

abbrev pub retyped_part : Bytes × Bytes × Bytes → Bytes
retyped_part (column, was, now) =
    column ++ (codes " changed from " ++ (was ++ (codes " to " ++ now)))

abbrev pub named_part : Bytes → List Bytes → List Bytes
named_part word names = if is_empty names then [] else (word ++ joined_names names) ∷ []

unfoldable pub summary : SchemaDrift → Bytes
summary d =
    let parts =
      named_part (codes "added ") d.added
      ++ (named_part (codes "removed ") d.removed ++ map retyped_part d.retyped) in
    if is_empty parts then codes "no change" else joined_parts parts

module _ {K : Type 0} where
  -- `fields().find(|f| f.name() == name)`
  unfoldable pub find_field : Bytes → List (Bytes × K) → Option K
  find_field name [] = none
  find_field name ((n, t) ∷ fields) = if bytes_eq n name then some t else find_field name fields

  abbrev pub is_found : Option K → Bool
  is_found none = false
  is_found (some t) = true

  -- The second loop of `diff_schema`, over the fields of the table.
  unfoldable pub scan_current : List (Bytes × K) → SchemaDrift → List (Bytes × K) → SchemaDrift
  scan_current incoming drift [] = drift
  scan_current incoming drift ((n, t) ∷ fields) =
      scan_current incoming
        (if is_found (find_field n incoming)
          then drift
          else record drift { removed = drift.removed ++ n ∷ [] })
        fields

module _ {K : Type 0} ⦃k : KernelType K⦄ where
  abbrev pub with_field : SchemaDrift → Bytes → K → Option K → SchemaDrift
  with_field drift name now none = record drift { added = drift.added ++ name ∷ [] }
  with_field drift name now (some was) =
      if k.same was now
      then drift
      else record drift { retyped = drift.retyped ++ (name, k.show was, k.show now) ∷ [] }

  -- The first loop, over the fields of the dump.
  unfoldable pub scan_incoming : List (Bytes × K) → SchemaDrift → List (Bytes × K) → SchemaDrift
  scan_incoming current drift [] = drift
  scan_incoming current drift ((n, t) ∷ fields) =
      scan_incoming current (with_field drift n t (find_field n current)) fields

  unfoldable pub diff_schema : List (Bytes × K) → List (Bytes × K) → SchemaDrift
  diff_schema current incoming =
      scan_current incoming (scan_incoming current no_drift incoming) current
