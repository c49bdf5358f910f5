-- ===== src/Base/Loops.antt =====
-- Counted loops, `for i := lo; i < lo+n; i++`, and their rules. A body that fails ends the loop.
use intruder_watch.Base.{none, some, zero, suc, inl, inr, refl}
use Prim.Native.Nat.{ℕ, zero, suc, ◌+◌, ◌≤◌, ◌<◌}
use mathlib.Core.Path.{◌≡◌, refl, sym, ◌∙◌, subst}
use mathlib.Core.Option.{Option, none, some}
use native.Mathlib.Omega.{arith}
use intruder_watch.Base.Tests.{Option-cases}
use mathlib.Core.Logic.{inl, inr}

module _ {ℓ} {S : Type ℓ} where
  unfoldable pub for_range : ℕ → ℕ → (ℕ → S → Option S) → S → Option S
  for_range zero i body s = some s
  for_range (suc n) i body s = elim (body i s) [ none ↦ none | some t ↦ for_range n (i + 1) body t ]

  for_range-some :
      (n i : ℕ) (body : ℕ → S → Option S) (s : S) {t : S}
      → body i s ≡ some t
      → for_range (suc n) i body s ≡ for_range n (i + 1) body t
  unfolding for_range
  for_range-some n i body s h = rw (h, for_range) refl

  for_range-none :
      (n i : ℕ) (body : ℕ → S → Option S) (s : S)
      → body i s ≡ none
      → for_range (suc n) i body s ≡ none
  unfolding for_range
  for_range-none n i body s h = rw (h, for_range) refl

  module _ (hi : ℕ) where
    -- Two bodies that agree at every round.
    pub for_range_cong :
        (f g : ℕ → S → Option S) (n i : ℕ) (s : S)
        → i + n ≤ hi
        → ((k : ℕ) (t : S) → i ≤ k → k < hi → f k t ≡ g k t)
        → for_range n i f s ≡ for_range n i g s
    unfolding for_range
    for_range_cong f g zero i s h same = refl
    for_range_cong f g (suc n) i s h same =
        let rest = λ (t : S).
          for_range_cong f g n (i + 1) t (omega arith) (λ k u a b. same k u (omega arith) b) in
        elim (Option-cases (g i s)) [
          | inl bad ↦
              for_range-none n i f s (same i s (omega arith) (omega arith) ∙ bad)
              ∙ sym (for_range-none n i g s bad)
          | inr (t, good) ↦
              for_range-some n i f s (same i s (omega arith) (omega arith) ∙ good)
              ∙ rest t
              ∙ sym (for_range-some n i g s good)
        ]

    -- An invariant of the rounds holds behind the loop.
    pub for_range_inv {κ} :
        (P : ℕ → S → Type κ) (body : ℕ → S → Option S)
        → ((k : ℕ) (t u : S) → k < hi → P k t → body k t ≡ some u → P (k + 1) u)
        → (n i : ℕ) (s u : S) → i + n ≡ hi
        → P i s
        → for_range n i body s ≡ some u
        → P hi u
    unfolding for_range
    for_range_inv P body keep zero i s u e p h =
        subst (λ k. P k u) {x = i} (omega arith) (subst (P i) {x = s} (ground arith) p)
    for_range_inv P body keep (suc n) i s u e p h = elim (Option-cases (body i s)) [
      | inl bad ↦ absurd (cc (sym (for_range-none n i body s bad) ∙ h))
      | inr (t, good) ↦
          for_range_inv P body keep n (i + 1) t u (omega arith) (keep i s t (omega arith) p good)
            (sym (for_range-some n i body s good) ∙ h)
    ]

    -- With a body that does not fail while an invariant holds, the loop does not fail.
    pub for_range_total {κ} :
        (P : ℕ → S → Type κ) (body : ℕ → S → Option S)
        → ((k : ℕ) (t : S) → k < hi → P k t → (u : S) × (body k t ≡ some u) × P (k + 1) u)
        → (n i : ℕ) (s : S) → i + n ≡ hi
        → P i s
        → (u : S) × (for_range n i body s ≡ some u) × P hi u
    unfolding for_range
    for_range_total P body keep zero i s e p = (s, refl, subst (λ k. P k s) {x = i} (omega arith) p)
    for_range_total P body keep (suc n) i s e p =
        let (t, good, q) = keep i s (omega arith) p in
        let (u, done, r) = for_range_total P body keep n (i + 1) t (omega arith) q in
        (u, for_range-some n i body s good ∙ done, r)
