-- ===== src/Pipeline/Reader/Jobs.antt =====
-- src/pipeline.rs: the jobs of one worker among all that are sent, and what it may be sent.
use rust_streamer_pgdb.Pipeline.Reader.Outline.{kinds, each_from, Kind, opens, carries, closes}
use rust_streamer_pgdb.Prelude.{
  inr, refl, inl, sym, if◌then◌else◌, zero, Bool-cases, arith, ◌∷◌, suc, subst, [], true, ◌++◌, ◌≡◌,
  false, ◌+◌, List, Bool, ◌==◌, ◌<◌, ◌≤◌, ℕ,
}

-- The jobs of one worker, in the order they are sent.
unfoldable pub jobs_of : ℕ → List (ℕ × Kind) → List Kind
jobs_of w [] = []
jobs_of w ((v, kind) ∷ jobs) = let rest = jobs_of w jobs in if v == w then kind ∷ rest else rest

-- What a worker may be sent behind the last block it was told to open, which is open or not.
abbrev pub Legal : ℕ × Bool → Kind → Type 0
Legal (g, false) (opens h) = h ≡ g + 1
Legal (g, true) (carries h bytes) = h ≡ g
Legal (g, true) (closes h) = h ≡ g
Legal _ _ = ⊥

abbrev pub behind : ℕ × Bool → Kind → ℕ × Bool
behind s (opens h) = (h, true)
behind s (carries h bytes) = s
behind (g, busy) (closes h) = (g, false)

abbrev pub Serves : ℕ × Bool → List Kind → ℕ × Bool → Type 0
Serves s [] t = s ≡ t
Serves s (kind ∷ kinds) t = Legal s kind × Serves (behind s kind) kinds t

pub Serves-append :
    (s t u : ℕ × Bool) (xs ys : List Kind) → Serves s xs t → Serves t ys u → Serves s (xs ++ ys) u
Serves-append s t u [] ys h k = subst (λ s. Serves s ys u) (sym h) k
Serves-append s t u (x ∷ xs) ys h k = (h.0, Serves-append (behind s x) t u xs ys h.1 k)

pub jobs_of-append :
    (w : ℕ) (xs ys : List (ℕ × Kind)) → jobs_of w (xs ++ ys) ≡ jobs_of w xs ++ jobs_of w ys
unfolding jobs_of
jobs_of-append w [] ys = refl
jobs_of-append w ((v, kind) ∷ xs) ys = elim (Bool-cases (v == w)) [
  | inl same ↦ rw (same, jobs_of-append w xs ys) refl
  | inr other ↦ rw (other, jobs_of-append w xs ys) refl
]

==-above : (v w : ℕ) → w < v → (v == w) ≡ false
==-above v w h = ground arith

jobs_of-each_below :
    (w worker left : ℕ) (kind : Kind) → w < worker → jobs_of w (each_from worker left kind) ≡ []
unfolding jobs_of each_from
jobs_of-each_below w worker zero kind h = refl
jobs_of-each_below w worker (suc left) kind h =
    rw (==-above worker w h) (jobs_of-each_below w (suc worker) left kind (omega arith))

worker_above : (v w : ℕ) → (v == w) ≡ true → w < suc v
worker_above v w e = ground arith

worker_past : (v w : ℕ) → v ≤ w → (v == w) ≡ false → suc v ≤ w
worker_past v w h e = ground arith

-- Each worker of a range has one of the jobs.
pub jobs_of-each :
    (w worker left : ℕ) (kind : Kind)
    → worker ≤ w
    → w < worker + left
    → jobs_of w (each_from worker left kind) ≡ kind ∷ []
unfolding jobs_of each_from
jobs_of-each w worker zero kind h k = absurd (omega arith)
jobs_of-each w worker (suc left) kind h k = elim (Bool-cases (worker == w)) [
  | inl same ↦
      rw (same, jobs_of-each_below w (suc worker) left kind (worker_above worker w same)) refl
  | inr other ↦
      rw other (jobs_of-each w (suc worker) left kind (worker_past worker w h other) (omega arith))
]
