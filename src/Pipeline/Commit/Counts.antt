-- ===== src/Pipeline/Commit/Counts.antt =====
-- src/pipeline.rs: what phase two reports of the commits, whatever order they end in.
use mathlib.Core.List.{Permᴰ}
use mathlib.Core.List.Permᴰ
use rust_streamer_pgdb.Pipeline.State.{remove_key, CommitTarget, TableStats}
use rust_streamer_pgdb.Pipeline.Reader.Outline.{done_names}
use rust_streamer_pgdb.Pipeline.Commit.{
  all_or_failed, first_failure, Outcome, commit_phase, commit_targets, take_actions, count_outcome,
  count_outcomes, Committed, set_version,
}
use rust_streamer_pgdb.Prelude.{
  sym, bytes_eq, Bool-cases, none, some, ◌+◌, Option, ap₂, refl, subst, suc, ◌<◌, [], inr, arith,
  ap, ◌⊎◌, ◌∙◌, length, ℕ, ◌∷◌, ◌≡◌, inl, ◌≤◌, List, Bytes,
}
use rust_streamer_pgdb.Error.{commit_failed, ok, err, Error, Result}
use rust_streamer_pgdb.Sink.Opening.{WriteMode, Delta}

abbrev pub success : Outcome → ℕ
success (name, ok version) = 1
success (name, err e) = 0

unfoldable pub succeeded : List Outcome → ℕ
succeeded [] = 0
succeeded (o ∷ outcomes) = success o + succeeded outcomes

unfoldable pub Among : Outcome → List Outcome → Type 0
Among o [] = ⊥
Among o (x ∷ xs) = (o ≡ x) ⊎ Among o xs

succeeded-length : (os : List Outcome) → succeeded os ≤ length os
unfolding succeeded
succeeded-length [] = omega arith
succeeded-length ((name, ok version) ∷ os) = let h = succeeded-length os in omega arith
succeeded-length ((name, err e) ∷ os) = let h = succeeded-length os in omega arith

abbrev Failure : Result ℕ → Type 0
Failure (ok version) = ⊥
Failure (err e) = Unit

-- A failed commit is one that did not succeed.
Among-succeeded :
    (name : Bytes) (e : Error) (os : List Outcome)
    → Among (name, err e) os
    → succeeded os < length os
unfolding succeeded Among
Among-succeeded name e [] h = absurd h
Among-succeeded name e ((n, ok version) ∷ os) (inl same) = absurd (is_failure same)
  where
    is_failure : Path Outcome (name, err e) (n, ok version) → ⊥
    is_failure same = subst (λ o. Failure o.1) same tt
Among-succeeded name e ((n, ok version) ∷ os) (inr later) =
    let h = Among-succeeded name e os later in omega arith
Among-succeeded name e ((n, err f) ∷ os) h = let g = succeeded-length os in omega arith

exchanged : (m n k : ℕ) → m + (n + k) ≡ n + (m + k)
exchanged m n k = omega arith

succeeded-Perm : {xs ys : List Outcome} → Permᴰ xs ys → succeeded xs ≡ succeeded ys
unfolding succeeded
succeeded-Perm Permᴰ.nil = refl
succeeded-Perm (Permᴰ.cons e p) = ap₂ (λ o n. success o + n) e (succeeded-Perm p)
succeeded-Perm (Permᴰ.swap {a} {b} {a'} {b'} {l = l} e f) =
    ap₂ (λ o q. success o + (success q + succeeded l)) e f
    ∙ exchanged (success b') (success a') (succeeded l)
succeeded-Perm (Permᴰ.trans p q) = succeeded-Perm p ∙ succeeded-Perm q

pub length-Perm : {xs ys : List Outcome} → Permᴰ xs ys → length xs ≡ length ys
length-Perm Permᴰ.nil = refl
length-Perm (Permᴰ.cons e p) = ap suc (length-Perm p)
length-Perm (Permᴰ.swap e f) = refl
length-Perm (Permᴰ.trans p q) = length-Perm p ∙ length-Perm q

Among-Perm : (o : Outcome) {xs ys : List Outcome} → Permᴰ xs ys → Among o xs → Among o ys
unfolding Among
Among-Perm o Permᴰ.nil h = h
Among-Perm o (Permᴰ.cons e p) (inl g) = inl (g ∙ e)
Among-Perm o (Permᴰ.cons e p) (inr g) = inr (Among-Perm o p g)
Among-Perm o (Permᴰ.swap e f) (inl g) = inr (inl (g ∙ e))
Among-Perm o (Permᴰ.swap e f) (inr (inl g)) = inl (g ∙ f)
Among-Perm o (Permᴰ.swap e f) (inr (inr g)) = inr (inr g)
Among-Perm o (Permᴰ.trans p q) h = Among-Perm o q (Among-Perm o p h)

-- The failure is none only if none came before and every commit succeeded, and else one of those
-- that came.
abbrev FailedOf : Option (Bytes × Error) → List Outcome → Option (Bytes × Error) → Type 0
FailedOf before os none = (before ≡ none) × (succeeded os ≡ length os)
FailedOf before os (some f) = (before ≡ some f) ⊎ Among (f.0, err f.1) os

count_outcomes-committed :
    (c : Committed) (os : List Outcome)
    → (count_outcomes c os).committed ≡ c.committed + succeeded os
unfolding count_outcomes succeeded
count_outcomes-committed c [] = omega arith
count_outcomes-committed c ((name, ok version) ∷ os) =
    count_outcomes-committed (count_outcome c (name, ok version)) os ∙ omega arith
count_outcomes-committed c ((name, err e) ∷ os) =
    count_outcomes-committed (count_outcome c (name, err e)) os ∙ omega arith

abbrev Present : Option (Bytes × Error) → Type 0
Present none = ⊥
Present (some f) = Unit

some-none : {f : Bytes × Error} → some f ≡ none → ⊥
some-none e = subst Present e tt

abbrev or_else : Bytes × Error → Option (Bytes × Error) → Bytes × Error
or_else g none = g
or_else g (some f) = f

count_outcomes-FailedOf :
    (c : Committed) (os : List Outcome) → FailedOf c.failure os (count_outcomes c os).failure
unfolding count_outcomes succeeded Among
count_outcomes-FailedOf c [] = kept c.failure
  where
    kept : (o : Option (Bytes × Error)) → FailedOf o [] o
    kept none = (refl, refl)
    kept (some f) = inl refl
count_outcomes-FailedOf c ((name, ok version) ∷ os) =
    behind_success (count_outcomes (count_outcome c (name, ok version)) os).failure
      (count_outcomes-FailedOf (count_outcome c (name, ok version)) os)
  where
    behind_success :
        (o : Option (Bytes × Error))
        → FailedOf c.failure os o
        → FailedOf c.failure ((name, ok version) ∷ os) o
    behind_success none h = (h.0, let g = h.1 in omega arith)
    behind_success (some f) (inl h) = inl h
    behind_success (some f) (inr h) = inr (inr h)
count_outcomes-FailedOf c ((name, err e) ∷ os) =
    behind_failure c.failure (count_outcomes (count_outcome c (name, err e)) os).failure
      (count_outcomes-FailedOf (count_outcome c (name, err e)) os)
  where
    behind_failure :
        (before o : Option (Bytes × Error))
        → FailedOf (first_failure before (name, e)) os o
        → FailedOf before ((name, err e) ∷ os) o
    behind_failure none none h = absurd (some-none h.0)
    behind_failure (some f) none h = absurd (some-none h.0)
    behind_failure before (some f) (inr h) = inr (inr h)
    behind_failure none (some f) (inl h) =
        inr (inl (ap (λ o. ((or_else f o).0, err (or_else f o).1)) (sym h)))
    behind_failure (some g) (some f) (inl h) = inl h

set_version-names :
    (name : Bytes) (version : ℕ) (stats : List TableStats)
    → done_names (set_version name version stats) ≡ done_names stats
unfolding done_names set_version
set_version-names name version [] = refl
set_version-names name version (s ∷ stats) = elim (Bool-cases (bytes_eq s.table name)) [
  | inl found ↦ rw found refl
  | inr other ↦ rw other (ap (λ names. s.table ∷ names) (set_version-names name version stats))
]

count_outcomes-names :
    (c : Committed) (os : List Outcome)
    → done_names (count_outcomes c os).tables ≡ done_names c.tables
unfolding count_outcomes
count_outcomes-names c [] = refl
count_outcomes-names c ((name, ok version) ∷ os) =
    count_outcomes-names (count_outcome c (name, ok version)) os
    ∙ set_version-names name version c.tables
count_outcomes-names c ((name, err e) ∷ os) =
    count_outcomes-names (count_outcome c (name, err e)) os

-- What phase two may report of outcomes for tables with these names.
abbrev pub Reports : (Error → Bytes) → List Outcome → List Bytes → Result (List TableStats) → Type 0
Reports display os names (ok tables) = (succeeded os ≡ length os) × (done_names tables ≡ names)
Reports display os names (err (commit_failed table committed total message)) =
    (committed ≡ succeeded os)
    × (committed < total)
    × (total ≡ length os)
    × ((e : Error) × Among (table, err e) os × (message ≡ display e))
Reports display os names (err _) = ⊥

length-take_actions :
    {T A : Type 0} (staged : List (Bytes × List A)) (targets : List (CommitTarget T A))
    → length (take_actions staged targets) ≡ length targets
unfolding take_actions
length-take_actions staged [] = refl
length-take_actions staged (target ∷ targets) =
    ap suc (length-take_actions (remove_key target.qualified staged) targets)

module _ {T K A : Type 0} (d : Delta T K A) where
  length-commit_targets :
      (mode : WriteMode) (targets : List (CommitTarget T A))
      → length (commit_targets d mode targets) ≡ length targets
  unfolding commit_targets
  length-commit_targets mode [] = refl
  length-commit_targets mode (target ∷ targets) = ap suc (length-commit_targets mode targets)

  -- If the commits come back each once, in whatever order, phase two ends in one of two ways. Either
  -- every commit succeeded and the tables are named as before, or the error is that a commit failed:
  -- its table is one whose commit failed with the error it displays, its count is how many commits
  -- succeeded, and its total, which is more, how many there were.
  pub commit_phase-Reports :
      (display : Error → Bytes) (arrive : List Outcome → List Outcome) (mode : WriteMode)
      (staged : List (Bytes × List A)) (targets : List (CommitTarget T A))
      (tables : List TableStats)
      → ((os : List Outcome) → Permᴰ os (arrive os))
      → Reports display
          (commit_targets d mode (take_actions staged targets))
          (done_names tables)
          (commit_phase d display arrive mode staged targets tables)
  unfolding commit_phase
  commit_phase-Reports display arrive mode staged targets tables perm =
      by_failure (count_outcomes start (arrive os)) (count_outcomes start (arrive os)).failure
        (count_outcomes-FailedOf start (arrive os)) (count_outcomes-committed start (arrive os))
        (count_outcomes-names start (arrive os))
    where
      os : List Outcome
      os = commit_targets d mode (take_actions staged targets)

      start : Committed
      start = record { committed = 0; failure = none; tables = tables }

      total : length targets ≡ length os
      total = sym (
          length-commit_targets mode (take_actions staged targets)
          ∙ length-take_actions staged targets)

      by_failure :
          (c : Committed) (failure : Option (Bytes × Error))
          → FailedOf none (arrive os) failure
          → c.committed ≡ 0 + succeeded (arrive os)
          → done_names c.tables ≡ done_names tables
          → Reports display os
              (done_names tables)
              (all_or_failed display (length targets) c failure)
      by_failure c none h n names =
          (succeeded-Perm (perm os) ∙ h.1 ∙ sym (length-Perm (perm os)), names)
      by_failure c (some f) (inl h) n names = absurd (some-none (sym h))
      by_failure c (some f) (inr h) n names =
          let among : Among (f.0, err f.1) os =
            Among-Perm (f.0, err f.1) (Permᴰ.symm (perm os)) h in
          let fewer : succeeded os < length os = Among-succeeded f.0 f.1 os among in
          let same : succeeded os ≡ succeeded (arrive os) = succeeded-Perm (perm os) in
          let sum : length targets ≡ length os = total in
          (omega arith, omega arith, total, (f.1, among, refl))
