-- ===== src/Base/Action.antt =====
-- Code that mutates an object and may raise: the state comes back beside the exception too, since
-- what was written before a raise stays written.
use intruder_watch.Base.{if◌then◌else◌, inl, inr, ap}
use mathlib.Core.Bool.{Bool}
use native.Mathlib.Omega.{arith}
use mathlib.Core.Path.{◌≡◌}
use intruder_watch.Base.Tests.{if◌then◌else◌}
use intruder_watch.Base.Result.{Error, Result, ok, err, Result-cases}

abbrev pub Action : Type 0 → Type 0 → Type 0
Action S A = S → Result A × S

module _ {S A : Type 0} where
  abbrev pub pure : A → Action S A
  pure a s = (ok a, s)

  abbrev pub raise : Error → Action S A
  raise e s = (err e, s)

  abbrev pub gets : (S → A) → Action S A
  gets f s = (ok (f s), s)

  -- The value of a call that does not touch the state.
  abbrev pub lift : Result A → Action S A
  lift r s = (r, s)

abbrev pub modify : {S : Type 0} → (S → S) → Action S Unit
modify f s = (ok tt, f s)

infixl 5 ◌>>=◌ ◌>>◌
abbrev pub ◌>>=◌ : {S A B : Type 0} → Action S A → (A → Action S B) → Action S B
◌>>=◌ m f s = let (r, s') = m s in elim r [ ok a ↦ f a s' | err e ↦ (err e, s') ]

abbrev pub ◌>>◌ : {S A B : Type 0} → Action S A → Action S B → Action S B
m >> k = m >>= λ _. k

-- `try: m except E as e: handler`, where `handler` is given the exception.
abbrev pub catch : {S A : Type 0} → Action S A → (Error → Action S A) → Action S A
catch m handler s = let (r, s') = m s in elim r [ ok a ↦ (ok a, s') | err e ↦ handler e s' ]

abbrev pub when : {S : Type 0} → Bool → Action S Unit → Action S Unit
when b m = if b then m else pure tt

-- How a block goes on behind a call whose outcome is known.
module _ {S A B : Type 0} (m : Action S A) (s : S) where
  pub bind-ok : (f : A → Action S B) {a : A} {s' : S} → m s ≡ (ok a, s') → (m >>= f) s ≡ f a s'
  bind-ok f h = ground arith

  pub bind-err :
      (f : A → Action S B) {e : Error} {s' : S} → m s ≡ (err e, s') → (m >>= f) s ≡ (err e, s')
  bind-err f h = ground arith

  pub seq-ok : (k : Action S B) {a : A} {s' : S} → m s ≡ (ok a, s') → (m >> k) s ≡ k s'
  seq-ok k h = ground arith

  pub seq-err : (k : Action S B) {e : Error} {s' : S} → m s ≡ (err e, s') → (m >> k) s ≡ (err e, s')
  seq-err k h = ground arith

-- How a `try` goes on.
module _ {S A : Type 0} (m : Action S A) (handler : Error → Action S A) (s : S) where
  pub catch-ok : {a : A} {s' : S} → m s ≡ (ok a, s') → catch m handler s ≡ (ok a, s')
  catch-ok h = ground arith

  pub catch-err : {e : Error} {s' : S} → m s ≡ (err e, s') → catch m handler s ≡ handler e s'
  catch-err h = ground arith

-- What a call leaves stays where its value or its exception is dropped.
pub seq-pure :
    {S A : Type 0} (m : Action S A) (s : S) → ((m >> pure {A = Unit {0}} tt) s).1 ≡ (m s).1
seq-pure m s = ground arith

pub catch-pure :
    {S : Type 0} (m : Action S (Unit {0})) (s : S) → catch m (λ e. pure tt) s ≡ (ok tt, (m s).1)
catch-pure m s = ground arith

-- A block that returns has had its first call return.
pub bind-returns :
    {S A B : Type 0} (m : Action S A) (f : A → Action S B) (s : S) {b : B} {t : S}
    → (m >>= f) s ≡ (ok b, t)
    → (a : A) × (s' : S) × (m s ≡ (ok a, s')) × (f a s' ≡ (ok b, t))
bind-returns m f s h = elim (Result-cases (m s).0) [
  | inl (e, bad) ↦ absurd (ground (arith, bad, h))
  | inr (a, good) ↦ (a, (m s).1, ap (λ r. (r, (m s).1)) good, ground (arith, good, h))
]
