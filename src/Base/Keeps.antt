-- ===== src/Base/Keeps.antt =====
-- Invariants of actions: what holds of the state before a call holds behind it, whether the call
-- returns or raises. One rule for each way to build an action.
use intruder_watch.Base.Tests.{if◌then◌else◌}
use intruder_watch.Base.Result.{Error, Result, ok, err}
use intruder_watch.Base.Action.{Action, catch, ◌>>=◌}
use mathlib.Core.Bool.{Bool, true, false}

abbrev pub Keeps {ℓ} : {S A : Type 0} → (S → Type ℓ) → Action S A → Type ℓ
Keeps {S = S} P m = (s : S) → P s → P (m s).1

module _ {ℓ} {S : Type 0} (P : S → Type ℓ) where
  module _ {A B : Type 0} where
    pub Keeps-bind :
        (m : Action S A) (f : A → Action S B)
        → Keeps P m
        → ((a : A) → Keeps P (f a))
        → Keeps P (m >>= f)
    Keeps-bind m f hm hf s h = go (m s).0 (hm s h)
      where
        go :
            (r : Result A)
            → P (m s).1
            → P (elim r as (λ x. Result B × S) [ ok a ↦ f a (m s).1 | err e ↦ (err e, (m s).1) ]).1
        go (ok a) k = hf a (m s).1 k
        go (err e) k = k

  module _ {A : Type 0} where
    pub Keeps-catch :
        (m : Action S A) (handler : Error → Action S A)
        → Keeps P m
        → ((e : Error) → Keeps P (handler e))
        → Keeps P (catch m handler)
    Keeps-catch m handler hm hf s h = go (m s).0 (hm s h)
      where
        go :
            (r : Result A)
            → P (m s).1
            → P
                (elim r as (λ x. Result A × S) [
                  | ok a ↦ (ok a, (m s).1)
                  | err e ↦ handler e (m s).1
                ]).1
        go (ok a) k = k
        go (err e) k = hf e (m s).1 k

    pub Keeps-if :
        (b : Bool) (m n : Action S A) → Keeps P m → Keeps P n → Keeps P (if b then m else n)
    Keeps-if true m n hm hn = hm
    Keeps-if false m n hm hn = hn
