-- ===== src/Str/Split.antt =====
-- `split` and `join` undo one another.
use intruder_watch.Base.{ℕ, ◌≡◌, ◌≢◌, refl, List, [], ◌∷◌, ◌++◌, arith, some, All}
use intruder_watch.Str.{Text, split, split_once, join, attach}
use intruder_watch.Str.Equal.{Lacks}

pub split-Lacks : (c : ℕ) (s : Text) → Lacks c s → split c s ≡ s ∷ []
unfolding split
split-Lacks c [] h = refl
split-Lacks c (x ∷ s) h = ground (arith, split-Lacks c s h.1)

-- A part with no separator, the separator, and the rest.
pub split-append : (c : ℕ) (w rest : Text) → Lacks c w → split c (w ++ c ∷ rest) ≡ w ∷ split c rest
unfolding split
split-append c [] rest h = ground arith
split-append c (x ∷ w) rest h = ground (arith, split-append c w rest h.1)

pub split_once-append :
    (c : ℕ) (w rest : Text) → Lacks c w → split_once c (w ++ c ∷ rest) ≡ (w, some rest)
unfolding split_once
split_once-append c [] rest h = ground arith
split_once-append c (x ∷ w) rest h = ground (arith, split_once-append c w rest h.1)

pub split-ne-nil : (c : ℕ) (s : Text) → split c s ≢ []
unfolding split
split-ne-nil c [] h = cc
split-ne-nil c (x ∷ s) h = ground (arith, split-ne-nil c s)

attach-join : (c x : ℕ) (ws : List Text) → ws ≢ [] → join c (attach x ws) ≡ x ∷ join c ws
unfolding join
attach-join c x [] h = absurd (h refl)
attach-join c x (w ∷ []) h = refl
attach-join c x (w ∷ v ∷ ws) h = refl

nil-join : (c : ℕ) (ws : List Text) → ws ≢ [] → join c ([] ∷ ws) ≡ c ∷ join c ws
unfolding join
nil-join c [] h = absurd (h refl)
nil-join c (w ∷ ws) h = refl

-- Joining the parts gives the text back.
pub join-split : (c : ℕ) (s : Text) → join c (split c s) ≡ s
unfolding split
join-split c [] = unfold join in refl
join-split c (x ∷ s) = ground (
  arith,
  attach-join c x (split c s) (split-ne-nil c s),
  nil-join c (split c s) (split-ne-nil c s),
  join-split c s,
)

attach-Lacks : (c x : ℕ) (ws : List Text) → x ≢ c → All (Lacks c) ws → All (Lacks c) (attach x ws)
attach-Lacks c x [] h k = ((h, tt), tt)
attach-Lacks c x (w ∷ ws) h k = ((h, k.0), k.1)

-- No part holds the separator.
pub split-All-Lacks : (c : ℕ) (s : Text) → All (Lacks c) (split c s)
unfolding split
split-All-Lacks c [] = (tt, tt)
split-All-Lacks c (x ∷ s) = ground (arith, split-All-Lacks c s, attach-Lacks c x (split c s))

attach-append : (x : ℕ) (ws vs : List Text) → ws ≢ [] → attach x (ws ++ vs) ≡ attach x ws ++ vs
attach-append x [] vs h = absurd (h refl)
attach-append x (w ∷ ws) vs h = refl

-- The parts of two texts with a separator between them.
pub split-append_any : (c : ℕ) (s t : Text) → split c (s ++ c ∷ t) ≡ split c s ++ split c t
unfolding split
split-append_any c [] t = ground arith
split-append_any c (x ∷ s) t =
    ground
      (arith, split-append_any c s t, attach-append x (split c s) (split c t) (split-ne-nil c s))
