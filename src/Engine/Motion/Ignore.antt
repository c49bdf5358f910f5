-- ===== src/Engine/Motion/Ignore.antt =====
-- What lies in an excluded zone has no influence (microservices/frame_capturer/motion.go).
use intruder_watch.Engine.Zone.{Zone, intersects}
use intruder_watch.Engine.Config.{Config}
use intruder_watch.Engine.Motion.{
  MacroblockDetector, MotionResult, Floats, Scan, get_elem?, add_pixel, add_row, block_diff_sum,
  count_block, scan_block, scan_row, scan, start, add_diff, judge, first_result, analyze,
  new_macroblock_detector,
}
use intruder_watch.Engine.Motion.New.{IsValid, new_macroblock_detector-IsMadeFor}
use intruder_watch.Engine.Motion.Mask.{is_excluded}
use intruder_watch.Engine.Motion.Total.{
  block-le, seen, seen-IsValid, scan-some, analyze-first, analyze-next,
}
use intruder_watch.Base.Loops.{for_range_cong}
use intruder_watch.Base.Int.{pos, ltb_ℤ}
use intruder_watch.Base.{
  ℕ, ◌+◌, ◌*◌, ◌≤◌, ◌<◌, ◌≡◌, ◌∙◌, refl, sym, ap, Bool, true, false, not, ◌&&◌, Option, none, some,
  List, [], ◌∷◌, length, any, inl, inr, arith, Bool-cases,
}
use mathlib.Core.Path.{subst}

-- Whether a pixel lies in a zone.
unfoldable pub in_zone : ℕ → ℕ → Zone → Bool
in_zone x y zone =
    not (ltb_ℤ (pos x) zone.x1)
    && ltb_ℤ (pos x) zone.x2
    && not (ltb_ℤ (pos y) zone.y1)
    && ltb_ℤ (pos y) zone.y2

-- A zone that holds a pixel of a block meets the block.
in_zone-intersects :
    (x y b_x b_y bs : ℕ) (z : Zone)
    → b_x ≤ x
    → x < b_x + bs
    → b_y ≤ y
    → y < b_y + bs
    → intersects b_x b_y bs z ≡ false
    → in_zone x y z ≡ false
unfolding in_zone intersects
in_zone-intersects x y b_x b_y bs z hx hx' hy hy' h = ground arith

not_in_zone :
    (x y b_x b_y bs : ℕ) (zs : List Zone)
    → b_x ≤ x
    → x < b_x + bs
    → b_y ≤ y
    → y < b_y + bs
    → any (intersects b_x b_y bs) zs ≡ false
    → any (in_zone x y) zs ≡ false
not_in_zone x y b_x b_y bs [] hx hx' hy hy' h = refl
not_in_zone x y b_x b_y bs (z ∷ zs) hx hx' hy hy' h = ground (
  arith,
  in_zone-intersects x y b_x b_y bs z hx hx' hy hy',
  not_in_zone x y b_x b_y bs zs hx hx' hy hy',
)

-- Two planes with the same pixels outside the zones.
abbrev pub IsSameOutside : Config → List ℕ → List ℕ → Type 0
IsSameOutside cfg f g =
    (x y : ℕ)
    → x < cfg.frame_width
    → y < cfg.frame_height
    → any (in_zone x y) cfg.exclude_zones ≡ false
    → get_elem? f (y * cfg.frame_width + x) ≡ get_elem? g (y * cfg.frame_width + x)

-- Two planes with the same pixels in the blocks that are not masked.
abbrev IsAlike : MacroblockDetector → List ℕ → List ℕ → Type 0
IsAlike d f g =
    (by bx : ℕ)
    → by < d.grid_h
    → bx < d.grid_w
    → get_elem? d.is_masked (by * d.grid_w + bx) ≡ some false
    → (x y : ℕ) → bx * d.block_size ≤ x
    → x < bx * d.block_size + d.block_size
    → by * d.block_size ≤ y
    → y < by * d.block_size + d.block_size
    → get_elem? f (y * d.width + x) ≡ get_elem? g (y * d.width + x)

-- A detector with another reference.
abbrev against : MacroblockDetector → List ℕ → MacroblockDetector
against d l = record d { last_y = l }

module _ (fl : Floats) (d : MacroblockDetector) (l f g : List ℕ) (before : IsAlike d d.last_y l)
    (now : IsAlike d f g) where
  module _ (by bx : ℕ) (hy : by < d.grid_h) (hx : bx < d.grid_w)
      (free : get_elem? d.is_masked (by * d.grid_w + bx) ≡ some false) where
    add_pixel-alike :
        (y x sum : ℕ)
        → by * d.block_size ≤ y
        → y < by * d.block_size + d.block_size
        → bx * d.block_size ≤ x
        → x < bx * d.block_size + d.block_size
        → add_pixel fl d f y x sum ≡ add_pixel fl (against d l) g y x sum
    unfolding add_pixel
    add_pixel-alike y x sum y0 y1 x0 x1 =
        ap (λ o. add_diff sum o (get_elem? d.last_y (y * d.width + x)))
          (now by bx hy hx free x y x0 x1 y0 y1)
        ∙ ap (add_diff sum (get_elem? g (y * d.width + x)))
            (before by bx hy hx free x y x0 x1 y0 y1)

    add_row-alike :
        (y sum : ℕ)
        → by * d.block_size ≤ y
        → y < by * d.block_size + d.block_size
        → add_row fl d f bx y sum ≡ add_row fl (against d l) g bx y sum
    unfolding add_row
    add_row-alike y sum y0 y1 =
        for_range_cong (bx * d.block_size + d.block_size) (add_pixel fl d f y)
          (add_pixel fl (against d l) g y) d.block_size (bx * d.block_size) sum (omega arith)
          (λ x t x0 x1. add_pixel-alike y x t y0 y1 x0 x1)

    block_diff_sum-alike : block_diff_sum fl d f by bx ≡ block_diff_sum fl (against d l) g by bx
    unfolding block_diff_sum
    block_diff_sum-alike =
        for_range_cong (by * d.block_size + d.block_size) (add_row fl d f bx)
          (add_row fl (against d l) g bx) d.block_size (by * d.block_size) 0 (omega arith)
          (λ y t y0 y1. add_row-alike y t y0 y1)

  scan_block-alike :
      (by bx : ℕ) (s : Scan)
      → by < d.grid_h
      → bx < d.grid_w
      → scan_block fl d f by bx s ≡ scan_block fl (against d l) g by bx s
  unfolding scan_block count_block
  scan_block-alike by bx s hy hx = go (get_elem? d.is_masked (by * d.grid_w + bx)) refl
    where
      go :
          (o : Option Bool)
          → get_elem? d.is_masked (by * d.grid_w + bx) ≡ o
          → scan_block fl d f by bx s ≡ scan_block fl (against d l) g by bx s
      go none e = rw (e, scan_block) refl
      go (some true) e = rw (e, scan_block) refl
      go (some false) e = rw (e, block_diff_sum-alike by bx hy hx e, scan_block) refl

  scan-alike : scan fl d f ≡ scan fl (against d l) g
  unfolding scan scan_row
  scan-alike =
      for_range_cong d.grid_h (scan_row fl d f) (scan_row fl (against d l) g) d.grid_h 0
        (start fl d f) (omega arith)
        (λ by s z hy.
          for_range_cong d.grid_w (scan_block fl d f by) (scan_block fl (against d l) g by) d.grid_w
            0 s (omega arith) (λ bx t z hx. scan_block-alike by bx t hy hx))

abbrev with_result : MotionResult → Option (List MotionResult) → Option (List MotionResult)
with_result r none = none
with_result r (some rs) = some (r ∷ rs)

-- The results of one plane behind the other.
unfoldable pub analyze_all :
    Floats → MacroblockDetector → List (List ℕ) → Option (List MotionResult)
analyze_all fl d [] = some []
analyze_all fl d (f ∷ fs) = elim (analyze fl d f) [
  | none ↦ none
  | some (r, e) ↦ with_result r (analyze_all fl e fs)
]

analyze_all-some :
    (fl : Floats) (d : MacroblockDetector) (f : List ℕ) (fs : List (List ℕ)) {r : MotionResult}
    {e : MacroblockDetector}
    → analyze fl d f ≡ some (r, e)
    → analyze_all fl d (f ∷ fs) ≡ with_result r (analyze_all fl e fs)
unfolding analyze_all
analyze_all-some fl d f fs h = rw (h, analyze_all) refl

-- What of a detector stays as it was made.
abbrev IsFor : Config → MacroblockDetector → Type 0
IsFor cfg d =
    IsValid d
    × (d.width ≡ cfg.frame_width)
    × (d.height ≡ cfg.frame_height)
    × ((by bx : ℕ)
        → by < d.grid_h
        → bx < d.grid_w
        → get_elem? d.is_masked (by * d.grid_w + bx) ≡ some (is_excluded cfg d.block_size by bx))

abbrev pub AreSameOutside : Config → List (List ℕ) → List (List ℕ) → Type 0
AreSameOutside cfg [] [] = Unit
AreSameOutside cfg (f ∷ fs) (g ∷ gs) =
    (length f ≡ cfg.frame_width * cfg.frame_height)
    × (length g ≡ cfg.frame_width * cfg.frame_height)
    × IsSameOutside cfg f g
    × AreSameOutside cfg fs gs
AreSameOutside cfg _ _ = ⊥

IsSameOutside-IsAlike :
    (cfg : Config) (d : MacroblockDetector) (f g : List ℕ)
    → IsFor cfg d
    → IsSameOutside cfg f g
    → IsAlike d f g
IsSameOutside-IsAlike cfg d f g (v, ew, eh, m) same by bx hy hx free x y x0 x1 y0 y1 =
    let across = block-le bx d.grid_w d.block_size hx in
    let down = block-le by d.grid_h d.block_size hy in
    let out : is_excluded cfg d.block_size by bx ≡ false = cc (m by bx hy hx, free) in
    rw ew (
      same x y (omega (arith, v.across)) (omega (arith, v.down)) (
        not_in_zone x y (bx * d.block_size) (by * d.block_size) d.block_size cfg.exclude_zones x0 x1
          y0 y1 out))

module _ (fl : Floats) (cfg : Config) where
  -- One plane: the same result, and the two detectors differ in their reference only.
  analyze-alike :
      (d : MacroblockDetector) (l f g : List ℕ)
      → IsValid d
      → IsValid (against d l)
      → IsAlike d d.last_y l
      → length f ≡ d.width * d.height
      → length g ≡ d.width * d.height
      → IsAlike d f g
      → (r : MotionResult) × (analyze fl d f ≡ some (r, seen d f))
        × (analyze fl (against d l) g ≡ some (r, against (seen d f) g))
  unfolding judge
  analyze-alike d l f g v w before lf lg now = elim (Bool-cases d.has_last_frame) [
    | inr first ↦ (
      first_result fl d f,
      analyze-first fl d f v lf first,
      analyze-first fl (against d l) g w lg first,
    )
    | inl next ↦
        let (s, e) = scan-some fl d f v lf in
        (
          judge fl d f s,
          analyze-next fl d f v lf next e,
          analyze-next fl (against d l) g w lg next (sym (scan-alike fl d l f g before now) ∙ e),
        )
  ]

  analyze_all-alike :
      (d : MacroblockDetector) (l : List ℕ) (fs gs : List (List ℕ))
      → IsFor cfg d
      → IsValid (against d l)
      → IsAlike d d.last_y l
      → AreSameOutside cfg fs gs
      → analyze_all fl d fs ≡ analyze_all fl (against d l) gs
  analyze_all-alike d l [] [] i w before h = unfold analyze_all in refl
  analyze_all-alike d l (f ∷ fs) (g ∷ gs) (v, ew, eh, m) w before (lf, lg, same, rest) =
      let size : d.width * d.height ≡ cfg.frame_width * cfg.frame_height = rw (ew, eh) refl in
      let now = IsSameOutside-IsAlike cfg d f g (v, ew, eh, m) same in
      let (r, a, b) = analyze-alike d l f g v w before (lf ∙ sym size) (lg ∙ sym size) now in
      analyze_all-some fl d f fs a
      ∙ ap (with_result r) (
          analyze_all-alike (seen d f) g fs gs (seen-IsValid fl d f v (lf ∙ sym size), ew, eh, m)
            (seen-IsValid fl (against d l) g w (lg ∙ sym size)) now rest)
      ∙ sym (analyze_all-some fl (against d l) g gs b)
  analyze_all-alike d l [] (g ∷ gs) i w before h = elim h [ ]
  analyze_all-alike d l (f ∷ fs) [] i w before h = elim h [ ]

-- The results of a new detector on a sequence of planes are those on any other sequence that has the
-- same pixels outside the excluded zones: what moves inside a zone is never seen.
pub analyze_all-IsSameOutside :
    (fl : Floats) (cfg : Config) (d : MacroblockDetector) (fs gs : List (List ℕ))
    → new_macroblock_detector cfg ≡ some d
    → AreSameOutside cfg fs gs
    → analyze_all fl d fs ≡ analyze_all fl d gs
analyze_all-IsSameOutside fl cfg d fs gs made same =
    let (e, h, (v, ew, eh, m, total, effective, unseen)) = new_macroblock_detector-IsMadeFor cfg in
    let only : d ≡ e =
      ap (λ o. elim o as (λ x. MacroblockDetector) [ none ↦ d | some x ↦ x ]) (sym made ∙ h) in
    subst (λ x. analyze_all fl x fs ≡ analyze_all fl x gs) (sym only)
      (analyze_all-alike fl cfg e e.last_y fs gs (v, ew, eh, m) v
        (λ by bx hy hx free x y x0 x1 y0 y1. refl) same)
