-- ===== src/Prelude/Loop.antt =====
-- A loop whose body is a function of the loop's variables. The body either ends the loop with a
-- result (`break`, `return`) or hands over the variables of the next round. It is run by recursion
-- on a measure that each round lowers, so a loop always ends and takes no fuel.
use Prim.Native.Nat.{ℕ, zero, suc, ◌<◌}
use mathlib.Core.Path.{◌≡◌, refl, sym, ap, subst, ◌∙◌}
use mathlib.Core.WellFounded.{Acc, Acc-prop}
use native.Mathlib.Omega.{arith}

pub data Round {ℓ κ} (S : Type ℓ) (R : Type κ) : Type (ℓ ⊔ κ) where
  done : R → Round S R
  more : S → Round S R

module _ {ℓ} {S : Type ℓ} (measure : S → ℕ) where
  abbrev Below : S → S → Type 0
  Below s' s = measure s' < measure s

  Below-Acc : (k : ℕ) (s : S) → measure s < k → Acc Below s
  Below-Acc zero s h = absurd (omega arith)
  Below-Acc (suc k) s h = Acc.intro s λ s' lt. Below-Acc k s' (omega arith)

  below_wf : (s : S) → Acc Below s
  below_wf s = Below-Acc (suc (measure s)) s (omega arith)

module _ {ℓ κ} {S : Type ℓ} {R : Type κ} where
  -- What follows a round.
  next : (x : Round S R) → ((s' : S) → x ≡ more s' → R) → R
  next (done r) k = r
  next (more s) k = k s refl

  next_more :
      (x : Round S R) (k : (s' : S) → x ≡ more s' → R) (g : S → R) (s' : S)
      → ((s'' : S) (e : x ≡ more s'') → k s'' e ≡ g s'')
      → x ≡ more s'
      → next x k ≡ g s'
  unfolding next
  next_more (done r) k g s' h e = cc
  next_more (more s) k g s' h e = h s refl ∙ ap g (cc)

  next_done : (x : Round S R) (k : (s' : S) → x ≡ more s' → R) (r : R) → x ≡ done r → next x k ≡ r
  unfolding next
  next_done (done r') k r e = cc
  next_done (more s) k r e = cc

  module _ (measure : S → ℕ) (body : S → Round S R)
      (falls : (s s' : S) → body s ≡ more s' → measure s' < measure s) where
    run : (s : S) → Acc (Below measure) s → R
    run s (Acc.intro _ smaller) = next (body s) (λ s' e. run s' (smaller s' (falls s s' e)))

    unfoldable pub loop : S → R
    unfolding run below_wf Below-Acc next
    loop s = run s (below_wf measure s)

    run_done : (s : S) (w : Acc (Below measure) s) (r : R) → body s ≡ done r → run s w ≡ r
    unfolding run
    run_done s (Acc.intro _ smaller) r e = next_done (body s) _ r e

    run_more : (s : S) (w : Acc (Below measure) s) (s' : S) → body s ≡ more s' → run s w ≡ loop s'
    unfolding run loop
    run_more s (Acc.intro _ smaller) s' e =
        next_more (body s) (λ t e'. run t (smaller t (falls s t e'))) loop s'
          (λ t e'. ap (run t) (Acc-prop (smaller t (falls s t e')) (below_wf measure t))) e

    pub loop_done : (s : S) (r : R) → body s ≡ done r → loop s ≡ r
    loop_done s r e = unfold loop in run_done s (below_wf measure s) r e

    pub loop_more : (s s' : S) → body s ≡ more s' → loop s ≡ loop s'
    loop_more s s' e = unfold loop in run_more s (below_wf measure s) s' e

    -- Two states with the same round end alike.
    pub loop_same : (s t : S) → body s ≡ body t → loop s ≡ loop t
    loop_same s t e = by_round (body t) e refl
      where
        by_round : (x : Round S R) → body s ≡ x → body t ≡ x → loop s ≡ loop t
        by_round (done r) p q = loop_done s r p ∙ sym (loop_done t r q)
        by_round (more u) p q = loop_more s u p ∙ sym (loop_more t u q)

    module _ {μ} (P : S → R → Type μ) (at_done : (s : S) (r : R) → body s ≡ done r → P s r)
        (at_more : (s s' : S) (r : R) → body s ≡ more s' → P s' r → P s r) where
      by_body :
          (s : S) (x : Round S R)
          → body s ≡ x
          → ((s' : S) → body s ≡ more s' → P s' (loop s'))
          → P s (loop s)
      by_body s (done r) e ih = subst (P s) (sym (loop_done s r e)) (at_done s r e)
      by_body s (more s') e ih = subst (P s) (sym (loop_more s s' e)) (at_more s s' _ e (ih s' e))

      by_acc : (s : S) → Acc (Below measure) s → P s (loop s)
      by_acc s (Acc.intro _ smaller) =
          by_body s (body s) refl (λ s' e. by_acc s' (smaller s' (falls s s' e)))

      -- What the last round establishes and every round carries back holds of the result.
      pub loop_induction : (s : S) → P s (loop s)
      loop_induction s = by_acc s (below_wf measure s)
