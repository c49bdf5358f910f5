-- ===== src/Base/Counts.antt =====
-- Actions that leave a count of the state as it is, and actions that add one to it exactly if they
-- return. One rule for each way to build an action.
use intruder_watch.Base.{true, false, if◌then◌else◌}
use Prim.Native.Nat.{ℕ, ◌+◌}
use mathlib.Core.Path.{◌≡◌, refl, ◌∙◌, sym, subst}
use mathlib.Core.Bool.{Bool, true, false}
use native.Mathlib.Omega.{arith}
use intruder_watch.Base.Tests.{if◌then◌else◌}
use intruder_watch.Base.Result.{Error, Result, ok, err, is_ok}
use intruder_watch.Base.Action.{Action, catch, ◌>>=◌}

abbrev pub one_if : Bool → ℕ
one_if true = 1
one_if false = 0

-- Of a view of the state.
module _ {S V : Type 0} (view : S → V) where
  abbrev pub Silent : {A : Type 0} → Action S A → Type 0
  Silent m = (s : S) → view (m s).1 ≡ view s

  pub Silent-bind :
      {A B : Type 0} (m : Action S A) (f : A → Action S B)
      → Silent m
      → ((a : A) → Silent (f a))
      → Silent (m >>= f)
  Silent-bind {A} {B} m f hm hf s = go (m s).0 (hm s)
    where
      go :
          (r : Result A)
          → view (m s).1 ≡ view s
          → view (elim r as (λ x. Result B × S) [ ok a ↦ f a (m s).1 | err e ↦ (err e, (m s).1) ]).1
            ≡ view s
      go (ok a) k = hf a (m s).1 ∙ k
      go (err e) k = k

  pub catch-Silent :
      {A : Type 0} (m : Action S A) (handler : Error → Action S A)
      → ((e : Error) → Silent (handler e))
      → (s : S) → view (catch m handler s).1 ≡ view (m s).1
  catch-Silent {A} m handler h s = go (m s).0
    where
      go :
          (r : Result A)
          → view
              (elim r as (λ x. Result A × S) [
                | ok a ↦ (ok a, (m s).1)
                | err e ↦ handler e (m s).1
              ]).1
            ≡ view (m s).1
      go (ok a) = refl
      go (err e) = h e (m s).1

  pub Silent-if :
      {A : Type 0} (b : Bool) (m n : Action S A) → Silent m → Silent n → Silent (if b then m else n)
  Silent-if true m n hm hn = hm
  Silent-if false m n hm hn = hn

module _ {S : Type 0} (count : S → ℕ) where
  abbrev pub Adds : {A : Type 0} → Action S A → Type 0
  Adds m = (s : S) → count (m s).1 ≡ count s + one_if (is_ok (m s).0)

  pub Adds-bind :
      {A B : Type 0} (m : Action S A) (f : A → Action S B)
      → Silent count m
      → ((a : A) → Adds (f a))
      → Adds (m >>= f)
  Adds-bind {A} {B} m f hm hf s = go (m s).0 (hm s)
    where
      go :
          (r : Result A)
          → count (m s).1 ≡ count s
          → let x = elim r as (λ x. Result B × S) [
            | ok a ↦ f a (m s).1
            | err e ↦ (err e, (m s).1)
          ] in
            count x.1 ≡ count s + one_if (is_ok x.0)
      go (ok a) k = omega (arith, hf a (m s).1)
      go (err e) k = omega arith

  pub Adds-if :
      {A : Type 0} (b : Bool) (m n : Action S A) → Adds m → Adds n → Adds (if b then m else n)
  Adds-if true m n hm hn = hm
  Adds-if false m n hm hn = hn

-- What an action may do to a view of the state.
module _ {ℓ} {S V : Type 0} (view : S → V) (R : V → V → Type ℓ) where
  abbrev pub Relates : {A : Type 0} → Action S A → Type ℓ
  Relates m = (s : S) → R (view s) (view (m s).1)

  pub Relates-bind :
      {A B : Type 0} (m : Action S A) (f : A → Action S B)
      → ((v : V) → R v v)
      → Silent view m
      → ((a : A) → Relates (f a))
      → Relates (m >>= f)
  Relates-bind {A} {B} m f same hm hf s = go (m s).0 (hm s)
    where
      go :
          (r : Result A)
          → view (m s).1 ≡ view s
          → R (view s) (
              view
                (elim r as (λ x. Result B × S) [ ok a ↦ f a (m s).1 | err e ↦ (err e, (m s).1) ]).1)
      go (ok a) k = subst (λ v. R v (view (f a (m s).1).1)) k (hf a (m s).1)
      go (err e) k = subst (λ v. R (view s) v) (sym k) (same (view s))

  pub Relates-Silent :
      {A B : Type 0} (m : Action S A) (f : A → Action S B)
      → Relates m
      → ((a : A) → Silent view (f a))
      → Relates (m >>= f)
  Relates-Silent {A} {B} m f hm hf s = go (m s).0 (hm s)
    where
      go :
          (r : Result A)
          → R (view s) (view (m s).1)
          → R (view s) (
              view
                (elim r as (λ x. Result B × S) [ ok a ↦ f a (m s).1 | err e ↦ (err e, (m s).1) ]).1)
      go (ok a) k = subst (R (view s)) (sym (hf a (m s).1)) k
      go (err e) k = k

  pub Relates-if :
      {A : Type 0} (b : Bool) (m n : Action S A)
      → Relates m
      → Relates n
      → Relates (if b then m else n)
  Relates-if true m n hm hn = hm
  Relates-if false m n hm hn = hn
