-- ===== src/AlertService/Callback/Limiter.antt =====
-- A rate limiter: what the cooldowns of the callback are held against.
use mathlib.Core.List.{reverse_aux}
use intruder_watch.Base.{
  ℕ, suc, ◌+◌, ◌*◌, ◌<◌, ◌≤◌, ◌≡◌, refl, Bool, true, false, ◌&&◌, List, [], ◌∷◌, arith,
  if◌then◌else◌, inl, inr, All, Bool-cases, ltb→lt, ltb,
}
use intruder_watch.Base.Int.{ℤ, pos, negsuc}
use intruder_watch.AlertService.Callback.{expired}

-- Whether a time, in microseconds, lies more than so many seconds behind another.
unfoldable pub is_late : ℤ → ℕ → ℕ → Bool
is_late (pos seconds) last t = ltb (last + seconds * 1000000) t
is_late (negsuc n) last t = ltb last (t + suc n * 1000000)

-- The test of the callback is that one.
pub expired-is_late : (c : ℤ) (last t : ℕ) → expired c last t ≡ is_late c last t
unfolding expired is_late
expired-is_late (pos seconds) last t = refl
expired-is_late (negsuc n) last t = refl

-- A limiter: a time passes where it lies more than the cooldown behind the last that passed.
unfoldable pub limit : ℤ → ℕ → List ℕ → List ℕ
unfolding is_late
limit cooldown last [] = []
limit cooldown last (t ∷ ts) =
    let next = t ∷ limit cooldown t ts in
    let skip = limit cooldown last ts in if is_late cooldown last t then next else skip

abbrev pub times_if : Bool → ℕ → List ℕ → List ℕ
times_if true t ts = t ∷ ts
times_if false t ts = ts

pub reverse_aux-times_if :
    (b : Bool) (t : ℕ) (xs ys : List ℕ)
    → reverse_aux xs (if b then t ∷ ys else ys) ≡ reverse_aux (times_if b t xs) ys
reverse_aux-times_if true t xs ys = refl
reverse_aux-times_if false t xs ys = refl

pub limit-times_if :
    (cooldown : ℤ) (b : Bool) (last t : ℕ) (ts : List ℕ)
    → limit cooldown last (times_if b t ts)
      ≡ times_if
          (b && is_late cooldown last t)
          t
          (limit cooldown (if b && is_late cooldown last t then t else last) ts)
unfolding limit
limit-times_if cooldown b last t ts = ground arith

-- Each time lies more than the cooldown behind every earlier one, the newest first.
abbrev pub IsSpaced : ℕ → List ℕ → Type 0
IsSpaced cooldown [] = Unit
IsSpaced cooldown (t ∷ ts) = All (λ u. u + cooldown * 1000000 < t) ts × IsSpaced cooldown ts

All-mono :
    (m n : ℕ) (k : ℕ) (ts : List ℕ) → m + k < n → All (λ u. u ≤ m) ts → All (λ u. u + k < n) ts
All-mono m n k [] h a = tt
All-mono m n k (t ∷ ts) h a = (omega arith, All-mono m n k ts h a.1)

All-le : (m n : ℕ) (ts : List ℕ) → m ≤ n → All (λ u. u ≤ m) ts → All (λ u. u ≤ n) ts
All-le m n [] h a = tt
All-le m n (t ∷ ts) h a = (omega arith, All-le m n ts h a.1)

pub reverse_aux-limit-IsSpaced :
    (c last : ℕ) (ts acc : List ℕ)
    → All (λ u. u ≤ last) acc
    → IsSpaced c acc
    → IsSpaced c (reverse_aux (limit (pos c) last ts) acc)
unfolding limit
reverse_aux-limit-IsSpaced c last [] acc a h = h
reverse_aux-limit-IsSpaced c last (t ∷ ts) acc a h = elim (Bool-cases (is_late (pos c) last t)) [
  | inl late ↦
      let later : last + c * 1000000 < t = unfold is_late in ltb→lt _ _ late in
      rw late (
        reverse_aux-limit-IsSpaced c t ts (t ∷ acc) (omega arith, All-le last t acc (omega arith) a)
          (All-mono last t (c * 1000000) acc later a, h))
  | inr early ↦ rw early (reverse_aux-limit-IsSpaced c last ts acc a h)
]
