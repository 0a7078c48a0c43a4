-- ===== src/Pipeline/Report/Expected.antt =====
-- src/pipeline.rs: which tables a report calls missing or unexpected.
use rust_streamer_pgdb.Pipeline.Report.{
  not_listed, insert_sorted, sort_names, dedup_names, dedup_after, missing_tables,
  unexpected_tables, expectation, absent_from, unlisted_in,
}
use rust_streamer_pgdb.Pipeline.Config.{LoadConfig, is_listed}
use rust_streamer_pgdb.Prelude.{
  ◌⊎◌, bytes_eq→eq, inr, sym, inl, refl, ap, ◌∙◌, true, none, [], Bool-cases, not, some, ◌&&◌, ◌∷◌,
  bytes_eq, ◌||◌, ◌≡◌, false, List, Bool, Option, Bytes,
}
use rust_streamer_pgdb.Pipeline.State.{bytes_less}

pub or_exchange : (a b c : Bool) → (a || (b || c)) ≡ (b || (a || c))
or_exchange true true c = refl
or_exchange true false c = refl
or_exchange false b c = refl

and_false : (a : Bool) → (a && false) ≡ false
and_false true = refl
and_false false = refl

is_listed-not_listed :
    (x : Bytes) (listed names : List Bytes)
    → is_listed (not_listed listed names) x ≡ (is_listed names x && not (is_listed listed x))
unfolding is_listed not_listed
is_listed-not_listed x listed [] = refl
is_listed-not_listed x listed (name ∷ names) =
    by_cases (is_listed-not_listed x listed names) (Bool-cases (is_listed listed name))
      (Bool-cases (bytes_eq name x))
  where
    same_answer : bytes_eq name x ≡ true → is_listed listed x ≡ is_listed listed name
    same_answer e = ap (is_listed listed) (sym (bytes_eq→eq name x e))

    by_cases :
        is_listed (not_listed listed names) x ≡ (is_listed names x && not (is_listed listed x))
        → (is_listed listed name ≡ true) ⊎ (is_listed listed name ≡ false)
        → (bytes_eq name x ≡ true) ⊎ (bytes_eq name x ≡ false)
        → is_listed (not_listed listed (name ∷ names)) x
          ≡ (is_listed (name ∷ names) x && not (is_listed listed x))
    by_cases rest (inl known) (inl same) =
        rw (known, same, rest, same_answer same, known) (and_false (is_listed names x))
    by_cases rest (inl known) (inr other) = rw (known, other) rest
    by_cases rest (inr new) (inl same) = rw (new, same, same_answer same, new) refl
    by_cases rest (inr new) (inr other) = rw (new, other) rest

is_listed-insert_sorted :
    (x name : Bytes) (names : List Bytes)
    → is_listed (insert_sorted name names) x ≡ (bytes_eq name x || is_listed names x)
unfolding is_listed insert_sorted
is_listed-insert_sorted x name [] = refl
is_listed-insert_sorted x name (n ∷ names) = elim (Bool-cases (bytes_less n name)) [
  | inl before ↦
      rw (before, is_listed-insert_sorted x name names)
        (or_exchange (bytes_eq n x) (bytes_eq name x) (is_listed names x))
  | inr behind ↦ rw behind refl
]

is_listed-sort_names :
    (x : Bytes) (names : List Bytes) → is_listed (sort_names names) x ≡ is_listed names x
unfolding is_listed sort_names
is_listed-sort_names x [] = refl
is_listed-sort_names x (name ∷ names) =
    is_listed-insert_sorted x name (sort_names names)
    ∙ ap (λ b. bytes_eq name x || b) (is_listed-sort_names x names)

is_listed-dedup_after :
    (x kept : Bytes) (names : List Bytes)
    → (bytes_eq kept x || is_listed (dedup_after kept names) x)
      ≡ (bytes_eq kept x || is_listed names x)
unfolding is_listed dedup_after
is_listed-dedup_after x kept [] = refl
is_listed-dedup_after x kept (name ∷ names) = elim (Bool-cases (bytes_eq kept name)) [
  | inl same ↦
      rw (same, is_listed-dedup_after x kept names, bytes_eq→eq kept name same)
        (or_twice (bytes_eq name x) (is_listed names x))
  | inr other ↦ rw (other, is_listed-dedup_after x name names) refl
]
  where
    or_twice : (a b : Bool) → (a || b) ≡ (a || (a || b))
    or_twice true b = refl
    or_twice false b = refl

is_listed-dedup_names :
    (x : Bytes) (names : List Bytes) → is_listed (dedup_names names) x ≡ is_listed names x
unfolding is_listed
is_listed-dedup_names x [] = refl
is_listed-dedup_names x (name ∷ names) = is_listed-dedup_after x name names

-- Whether a name is expected: by the list given first, or else by the other, or else not.
abbrev pub is_expected : Option (List Bytes) → Option (List Bytes) → Bytes → Bool
is_expected (some names) _ x = is_listed names x
is_expected none (some names) x = is_listed names x
is_expected none none x = false

-- Whether a name would surprise: there is a list, and it is not in it.
abbrev pub is_surprise : Option (List Bytes) → Bytes → Bool
is_surprise none x = false
is_surprise (some names) x = not (is_listed names x)

pub is_listed-missing_tables :
    (config : LoadConfig) (seen : List Bytes) (x : Bytes)
    → is_listed (missing_tables config seen) x
      ≡ (is_expected config.expect_tables config.tables x && not (is_listed seen x))
unfolding missing_tables is_listed
is_listed-missing_tables config seen x = by_lists config.expect_tables config.tables
  where
    absent :
        (names : List Bytes)
        → is_listed (dedup_names (sort_names (not_listed seen names))) x
          ≡ (is_listed names x && not (is_listed seen x))
    absent names =
        is_listed-dedup_names x (sort_names (not_listed seen names))
        ∙ is_listed-sort_names x (not_listed seen names)
        ∙ is_listed-not_listed x seen names

    by_lists :
        (first second : Option (List Bytes))
        → is_listed (absent_from seen (expectation first second)) x
          ≡ (is_expected first second x && not (is_listed seen x))
    by_lists (some names) second = absent names
    by_lists none (some names) = absent names
    by_lists none none = refl

pub is_listed-unexpected_tables :
    (config : LoadConfig) (seen : List Bytes) (x : Bytes)
    → is_listed (unexpected_tables config seen) x
      ≡ (is_listed seen x && is_surprise config.expect_tables x)
unfolding unexpected_tables is_listed
is_listed-unexpected_tables config seen x = by_list config.expect_tables
  where
    by_list :
        (o : Option (List Bytes))
        → is_listed (unlisted_in seen o) x ≡ (is_listed seen x && is_surprise o x)
    by_list none = sym (and_false (is_listed seen x))
    by_list (some names) = is_listed-not_listed x names seen
