-- ===== src/Engine/Motion/Mask.antt =====
-- Which blocks are masked (microservices/frame_capturer/motion.go).
use intruder_watch.Engine.Config.{Config}
use intruder_watch.Engine.Motion.{get_elem?, set, Mask, mask_block, mask_rows}
use intruder_watch.Engine.Zone.{intersects}
use mathlib.Core.Path.{subst}
use intruder_watch.Base.Loops.{for_range, for_range_total}
use intruder_watch.Base.{
  ℕ, zero, suc, ◌+◌, ◌*◌, ◌<◌, ◌≡◌, ◌∙◌, refl, ap, Bool, true, false, ◌&&◌, Option, some, List, [],
  ◌∷◌, ltb, any, replicate, if◌then◌else◌, Bool-cases, inl, inr, arith, ◌==◌,
}

-- Blocks of a grid have different places in it.
pub place-lt : (w h x y : ℕ) → x < w → y < h → y * w + x < h * w
place-lt w h x y hx hy = grind arith

place-lt_rows : (w x x' y y' : ℕ) → x < w → y < y' → y * w + x < y' * w + x'
place-lt_rows w x x' y y' hx hy = grind arith

pub place_inj : (w x x' y y' : ℕ) → x < w → x' < w → y * w + x ≡ y' * w + x' → (x ≡ x') × (y ≡ y')
place_inj w x x' y y' h h' e = ground (arith, place-lt_rows w x x' y y', place-lt_rows w x' x y' y)

abbrev pub trues : List Bool → ℕ
trues [] = 0
trues (true ∷ bs) = suc (trues bs)
trues (false ∷ bs) = trues bs

-- What a write leaves.
abbrev written : List Bool → ℕ → ℕ → Option Bool
written xs i j = if j == i then some true else get_elem? xs j

written_zero : (x : Bool) (xs : List Bool) (j : ℕ) → get_elem? (true ∷ xs) j ≡ written (x ∷ xs) 0 j
written_zero x xs zero = refl
written_zero x xs (suc j) = ground arith

written-suc :
    (x : Bool) (xs ys : List Bool) (i : ℕ)
    → ((j : ℕ) → get_elem? ys j ≡ written xs i j)
    → (j : ℕ) → get_elem? (x ∷ ys) j ≡ written (x ∷ xs) (suc i) j
written-suc x xs ys i h zero = ground arith
written-suc x xs ys i h (suc j) = h j ∙ ground arith

trues-cons :
    (x : Bool) (xs ys : List Bool) → trues ys ≡ trues xs + 1 → trues (x ∷ ys) ≡ trues (x ∷ xs) + 1
trues-cons true xs ys h = omega arith
trues-cons false xs ys h = h

set-lem :
    (xs : List Bool) (i : ℕ)
    → get_elem? xs i ≡ some false
    → (ys : List Bool) × (set xs i true ≡ some ys)
      × ((j : ℕ) → get_elem? ys j ≡ written xs i j)
      × (trues ys ≡ trues xs + 1)
unfolding set
set-lem [] i h = cc
set-lem (true ∷ xs) zero h = cc
set-lem (false ∷ xs) zero h = (true ∷ xs, refl, written_zero false xs, omega arith)
set-lem (x ∷ xs) (suc i) h =
    let (ys, e, g, t) = set-lem xs i h in
    (x ∷ ys, rw (e, set) refl, written-suc x xs ys i g, trues-cons x xs ys t)

pub get_elem?-replicate : (n i : ℕ) → i < n → get_elem? (replicate n false) i ≡ some false
get_elem?-replicate zero i h = absurd (omega arith)
get_elem?-replicate (suc n) zero h = refl
get_elem?-replicate (suc n) (suc i) h = get_elem?-replicate n i (omega arith)

pub trues-replicate : (n : ℕ) → trues (replicate n false) ≡ 0
trues-replicate zero = refl
trues-replicate (suc n) = trues-replicate n

-- The next place, where it is not excluded and where it is.
step_free :
    (q p r : ℕ) (b : Bool) → r ≡ p + 1 → (q ≡ p → b ≡ false) → (ltb q p && b) ≡ (ltb q r && b)
step_free q p r true e h = ground arith
step_free q p r false e h = ground arith

step_hit :
    (q p r : ℕ) (b : Bool)
    → r ≡ p + 1
    → (q ≡ p → b ≡ true)
    → ◌≡◌ {A = Option Bool}
        (if q == p then some true else some (ltb q p && b))
        (some (ltb q r && b))
step_hit q p r true e h = ground arith
step_hit q p r false e h = ground arith

-- Whether a zone meets a block.
abbrev pub is_excluded : Config → ℕ → ℕ → ℕ → Bool
is_excluded cfg bs by bx = any (intersects (bx * bs) (by * bs) bs) cfg.exclude_zones

module _ (cfg : Config) (bs w h : ℕ) where
  -- The blocks before a place are as the zones say, and the others are not masked yet.
  abbrev pub IsMasked : ℕ → Mask → Type 0
  IsMasked p (m, c) =
      ((by bx : ℕ)
        → by < h
        → bx < w
        → get_elem? m (by * w + bx) ≡ some (ltb (by * w + bx) p && is_excluded cfg bs by bx))
      × (c ≡ trues m)

  mask_block-IsMasked :
      (by bx : ℕ) (m : Mask)
      → by < h
      → bx < w
      → IsMasked (by * w + bx) m
      → (n : Mask) × (mask_block cfg bs w by bx m ≡ some n) × IsMasked (by * w + (bx + 1)) n
  unfolding mask_block
  mask_block-IsMasked by bx (m, c) hy hx (g, t) =
      let p = by * w + bx in
      let same : (b : Bool) (j i : ℕ)
          → is_excluded cfg bs by bx ≡ b
          → i < w
          → j * w + i ≡ p
          → is_excluded cfg bs j i ≡ b =
        λ b j i e hi q.
          let (a, c) = place_inj w i bx j by hi hx q in
          ap (λ k. is_excluded cfg bs k i) c ∙ ap (is_excluded cfg bs by) a ∙ e in
      elim (Bool-cases (is_excluded cfg bs by bx)) [
        | inr free ↦ (
          (m, c),
          rw free refl,
          (
            (λ j i hj hi.
                g j i hj hi
                ∙ ap some (
                    step_free (j * w + i) p (by * w + (bx + 1)) (is_excluded cfg bs j i)
                      (omega arith) (same false j i free hi))),
            t,
          ),
        )
        | inl hit ↦
            let (ys, e, r, u) = set-lem m p (g by bx hy hx ∙ ap some (ground arith)) in
            (
              (ys, c + 1),
              rw (hit, e) refl,
              (
                (λ j i hj hi.
                    r (j * w + i)
                    ∙ ap (λ o. if j * w + i == p then some true else o) (g j i hj hi)
                    ∙ step_hit (j * w + i) p (by * w + (bx + 1)) (is_excluded cfg bs j i)
                        (omega arith) (same true j i hit hi)),
                omega arith,
              ),
            )
      ]

  mask_row-IsMasked :
      (by : ℕ) (m : Mask)
      → by < h
      → IsMasked (by * w) m
      → (n : Mask) × (for_range w 0 (mask_block cfg bs w by) m ≡ some n) × IsMasked ((by + 1) * w) n
  mask_row-IsMasked by m hy i =
      let (n, e, r) =
        for_range_total w (λ bx. IsMasked (by * w + bx)) (mask_block cfg bs w by)
          (λ bx m hx k. mask_block-IsMasked by bx m hy hx k) w 0 m (omega arith)
          (subst (λ p. IsMasked p m) {x = by * w} (omega arith) i) in
      (n, e, subst (λ p. IsMasked p n) {x = by * w + w} (omega arith) r)

  pub mask_rows-IsMasked :
      (m : Mask)
      → IsMasked 0 m
      → (n : Mask) × (mask_rows cfg bs w h m ≡ some n) × IsMasked (h * w) n
  unfolding mask_rows
  mask_rows-IsMasked m i =
      for_range_total h (λ by. IsMasked (by * w)) (λ by m. for_range w 0 (mask_block cfg bs w by) m)
        (λ by m hy k. mask_row-IsMasked by m hy k) h 0 m (omega arith)
        (subst (λ p. IsMasked p m) {x = 0} (omega arith) i)
