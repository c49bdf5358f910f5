-- ===== src/Engine/Motion/Box.antt =====
-- The box of the motion is the smallest one around the active blocks (microservices/frame_capturer/motion.go).
use intruder_watch.Engine.Motion.{
  MacroblockDetector, MotionBox, MotionResult, Floats, Scan, get_elem?, lower, higher,
  block_diff_sum, count_block, scan_block, scan_row, scan, start, box_of, judge, first_result,
  analyze,
}
use intruder_watch.Engine.Motion.New.{IsValid}
use intruder_watch.Engine.Motion.Mask.{place_inj, place-lt}
use intruder_watch.Engine.Motion.Total.{block-le, scan-some, analyze-first, analyze-next}
use intruder_watch.Base.Loops.{for_range_inv}
use intruder_watch.Base.{
  ℕ, ◌+◌, ◌*◌, ◌≤◌, ◌<◌, ◌≡◌, ◌∙◌, refl, sym, ap, Bool, true, false, ◌&&◌, Option, none, some, List,
  length, ltb, if◌then◌else◌, inl, inr, ◌⊎◌, arith, Bool-cases, Option-cases,
}
use mathlib.Core.Path.{subst}

guarded :
    {A : Type 0} (b c : Bool) (x y : A)
    → (if b && c then some x else none) ≡ some y
    → (b ≡ true) × (c ≡ true) × (x ≡ y)
guarded true true x y e = (refl, refl, cc)
guarded true false x y e = cc
guarded false c x y e = cc

pub result_inj :
    {A B : Type 0} {x y : A} {u v : B}
    → ◌≡◌ {A = Option (A × B)} (some (x, u)) (some (y, v))
    → x ≡ y
result_inj {x = x} e = ap (λ o. elim o [ none ↦ x | some (a, b) ↦ a ]) e

module _ (fl : Floats) (d : MacroblockDetector) (current_y : List ℕ) where
  abbrev reaches : Option ℕ → Bool
  reaches none = false
  reaches (some sum) = fl.at_least (fl.quotient sum (d.block_size * d.block_size)) d.threshold

  -- Whether a block has changed and is not masked.
  unfoldable pub is_active : ℕ → ℕ → Bool
  is_active by bx = elim (get_elem? d.is_masked (by * d.grid_w + bx)) [
    | none ↦ false
    | some true ↦ false
    | some false ↦ reaches (block_diff_sum fl d current_y by bx)
  ]

  abbrev pub IsActive : ℕ → ℕ → Type 0
  IsActive by bx = (by < d.grid_h) × (bx < d.grid_w) × (is_active by bx ≡ true)

  -- A side of an active block.
  abbrev pub IsEdge : (ℕ → ℕ → ℕ) → ℕ → Type 0
  IsEdge side v = (by : ℕ) × (bx : ℕ) × IsActive by bx × (v ≡ side by bx)

  abbrev IsAround : ℕ → ℕ → Scan → Type 0
  IsAround by bx s = (s.min_bx ≤ bx) × (bx + 1 ≤ s.end_bx) × (s.min_by ≤ by) × (by + 1 ≤ s.end_by)

  -- The scan before a place of the grid.
  record IsTight (p : ℕ) (s : Scan) : Type 0 where
    holds : (by bx : ℕ) → IsActive by bx → by * d.grid_w + bx < p → IsAround by bx s
    min_bx : (s.min_bx ≡ d.grid_w) ⊎ IsEdge (λ by bx. bx) s.min_bx
    min_by : (s.min_by ≡ d.grid_h) ⊎ IsEdge (λ by bx. by) s.min_by
    end_bx : (s.end_bx ≡ 0) ⊎ IsEdge (λ by bx. bx + 1) s.end_bx
    end_by : (s.end_by ≡ 0) ⊎ IsEdge (λ by bx. by + 1) s.end_by

  lower-IsEdge :
      (side : ℕ → ℕ → ℕ) (by bx m n : ℕ)
      → IsActive by bx
      → (m ≡ n) ⊎ IsEdge side m
      → (lower (side by bx) m ≡ n) ⊎ IsEdge side (lower (side by bx) m)
  lower-IsEdge side by bx m n a old = elim (Bool-cases (ltb (side by bx) m)) [
    | inl e ↦ inr (by, bx, a, ap (λ b. if b then side by bx else m) e)
    | inr e ↦
        let same : lower (side by bx) m ≡ m = ap (λ b. if b then side by bx else m) e in
        subst (λ v. (v ≡ n) ⊎ IsEdge side v) (sym same) old
  ]

  higher-IsEdge :
      (side : ℕ → ℕ → ℕ) (by bx m n : ℕ)
      → IsActive by bx
      → (m ≡ n) ⊎ IsEdge side m
      → (higher (side by bx) m ≡ n) ⊎ IsEdge side (higher (side by bx) m)
  higher-IsEdge side by bx m n a old = elim (Bool-cases (ltb m (side by bx))) [
    | inl e ↦ inr (by, bx, a, ap (λ b. if b then side by bx else m) e)
    | inr e ↦
        let same : higher (side by bx) m ≡ m = ap (λ b. if b then side by bx else m) e in
        subst (λ v. (v ≡ n) ⊎ IsEdge side v) (sym same) old
  ]

  -- What is around the blocks before a place, and around the one at it.
  next-holds :
      (by bx : ℕ) (s : Scan)
      → bx < d.grid_w
      → ((j i : ℕ) → IsActive j i → j * d.grid_w + i < by * d.grid_w + bx → IsAround j i s)
      → (IsActive by bx → IsAround by bx s)
      → (j i : ℕ) → IsActive j i
      → j * d.grid_w + i < by * d.grid_w + (bx + 1)
      → IsAround j i s
  next-holds by bx s hx before here j i (hj, hi, a) h =
      elim (Bool-cases (ltb (j * d.grid_w + i) (by * d.grid_w + bx))) [
        | inl e ↦ before j i (hj, hi, a) (ground arith)
        | inr e ↦
            let (x, y) = place_inj d.grid_w i bx j by hi hx (ground arith) in
            subst (λ k. IsAround j k s) (sym x)
              (subst (λ k. IsAround k bx s) (sym y)
                (here (subst (λ k. IsActive k bx) y (subst (IsActive j) x (hj, hi, a)))))
      ]

  -- Nothing is added at a block that is not active.
  skip-IsTight :
      (by bx delta : ℕ) (s : Scan)
      → bx < d.grid_w
      → is_active by bx ≡ false
      → IsTight (by * d.grid_w + bx) s
      → IsTight (by * d.grid_w + (bx + 1)) (record s { max_block_delta = delta })
  skip-IsTight by bx delta s hx idle t = record {
    holds =
        next-holds by bx (record s { max_block_delta = delta }) hx t.holds
          (λ (hj, hi, a). absurd (cc (idle, a)));
    min_bx = t.min_bx;
    min_by = t.min_by;
    end_bx = t.end_bx;
    end_by = t.end_by;
  }

  -- An active block.
  abbrev widened : ℕ → ℕ → ℕ → Scan → Scan
  widened by bx delta s = record {
    active_blocks = s.active_blocks + 1;
    max_block_delta = delta;
    min_bx = lower bx s.min_bx;
    min_by = lower by s.min_by;
    end_bx = higher (bx + 1) s.end_bx;
    end_by = higher (by + 1) s.end_by;
  }

  widened-keeps :
      (by bx delta : ℕ) (s : Scan) (j i : ℕ) → IsAround j i s → IsAround j i (widened by bx delta s)
  widened-keeps by bx delta s j i (a, b, c, e) =
      (ground arith, ground arith, ground arith, ground arith)

  widened-here : (by bx delta : ℕ) (s : Scan) → IsAround by bx (widened by bx delta s)
  widened-here by bx delta s = (ground arith, ground arith, ground arith, ground arith)

  widened-IsTight :
      (by bx delta : ℕ) (s : Scan)
      → IsActive by bx
      → IsTight (by * d.grid_w + bx) s
      → IsTight (by * d.grid_w + (bx + 1)) (widened by bx delta s)
  widened-IsTight by bx delta s (hy, hx, a) t = record {
    holds =
        next-holds by bx (widened by bx delta s) hx
          (λ j i b h. widened-keeps by bx delta s j i (t.holds j i b h))
          (λ b. widened-here by bx delta s);
    min_bx = lower-IsEdge (λ by bx. bx) by bx s.min_bx d.grid_w (hy, hx, a) t.min_bx;
    min_by = lower-IsEdge (λ by bx. by) by bx s.min_by d.grid_h (hy, hx, a) t.min_by;
    end_bx = higher-IsEdge (λ by bx. bx + 1) by bx s.end_bx 0 (hy, hx, a) t.end_bx;
    end_by = higher-IsEdge (λ by bx. by + 1) by bx s.end_by 0 (hy, hx, a) t.end_by;
  }

  count_block-IsTight :
      (by bx sum : ℕ) (s : Scan)
      → by < d.grid_h
      → bx < d.grid_w
      → is_active by bx ≡ reaches (some sum)
      → IsTight (by * d.grid_w + bx) s
      → IsTight (by * d.grid_w + (bx + 1)) (count_block fl d current_y by bx sum s)
  unfolding count_block
  count_block-IsTight by bx sum s hy hx same t = elim (Bool-cases (reaches (some sum))) [
    | inl e ↦ rw e (widened-IsTight by bx _ s (hy, hx, same ∙ e) t)
    | inr e ↦ rw e (skip-IsTight by bx _ s hx (same ∙ e) t)
  ]

  scan_block-IsTight :
      (by bx : ℕ) (s u : Scan)
      → by < d.grid_h
      → bx < d.grid_w
      → IsTight (by * d.grid_w + bx) s
      → scan_block fl d current_y by bx s ≡ some u
      → IsTight (by * d.grid_w + (bx + 1)) u
  unfolding scan_block is_active
  scan_block-IsTight by bx s u hy hx t h = go (get_elem? d.is_masked (by * d.grid_w + bx)) refl
    where
      go :
          (o : Option Bool)
          → get_elem? d.is_masked (by * d.grid_w + bx) ≡ o
          → IsTight (by * d.grid_w + (bx + 1)) u
      go none e =
          let none_left : scan_block fl d current_y by bx s ≡ none = rw (e, scan_block) refl in
          absurd (cc (none_left, h))
      go (some true) e =
          let same : scan_block fl d current_y by bx s ≡ some s = rw (e, scan_block) refl in
          subst (IsTight (by * d.grid_w + (bx + 1))) {x = s} {y = u} (cc (same, h))
            (skip-IsTight by bx s.max_block_delta s hx (rw (e, is_active) refl) t)
      go (some false) e = elim (Option-cases (block_diff_sum fl d current_y by bx)) [
        | inl bad ↦
            let none_left : scan_block fl d current_y by bx s ≡ none =
              rw (e, bad, scan_block) refl in
            absurd (cc (none_left, h))
        | inr (sum, good) ↦
            let counted : scan_block fl d current_y by bx s
                ≡ some (count_block fl d current_y by bx sum s) =
              rw (e, good, scan_block) refl in
            subst (IsTight (by * d.grid_w + (bx + 1))) {x = count_block fl d current_y by bx sum s}
              {y = u} (cc (counted, h))
              (count_block-IsTight by bx sum s hy hx (rw (e, good, is_active) refl) t)
      ]

  scan_row-IsTight :
      (by : ℕ) (s u : Scan)
      → by < d.grid_h
      → IsTight (by * d.grid_w) s
      → scan_row fl d current_y by s ≡ some u
      → IsTight ((by + 1) * d.grid_w) u
  unfolding scan_row
  scan_row-IsTight by s u hy t h =
      subst (λ p. IsTight p u) {x = by * d.grid_w + d.grid_w} (omega arith)
        (for_range_inv d.grid_w (λ bx. IsTight (by * d.grid_w + bx)) (scan_block fl d current_y by)
          (λ bx s u hx. scan_block-IsTight by bx s u hy hx) d.grid_w 0 s u (omega arith)
          (subst (λ p. IsTight p s) {x = by * d.grid_w} (omega arith) t) h)

  start-IsTight : IsTight 0 (start fl d current_y)
  start-IsTight = record {
    holds = λ by bx a h. absurd (omega arith);
    min_bx = inl refl;
    min_by = inl refl;
    end_bx = inl refl;
    end_by = inl refl;
  }

  scan-IsTight : (s : Scan) → scan fl d current_y ≡ some s → IsTight (d.grid_h * d.grid_w) s
  unfolding scan
  scan-IsTight s h =
      for_range_inv d.grid_h (λ by. IsTight (by * d.grid_w)) (scan_row fl d current_y)
        (λ by s u hy. scan_row-IsTight by s u hy) d.grid_h 0 (start fl d current_y) s (omega arith)
        (subst (λ p. IsTight p (start fl d current_y)) {x = 0} (omega arith) start-IsTight) h

  mul_mono : (a b c : ℕ) → a ≤ b → a * c ≤ b * c
  mul_mono a b c h = grind arith

  -- The smallest box around the active blocks, and it lies in the frame.
  pub record IsMotionBox (box : MotionBox) : Type 0 where
    pub in_frame : (box.right ≤ d.width) × (box.bottom ≤ d.height)
    pub holds :
        (by bx : ℕ)
        → IsActive by bx
        → (box.left ≤ bx * d.block_size)
          × (bx * d.block_size + d.block_size ≤ box.right)
          × (box.top ≤ by * d.block_size)
          × (by * d.block_size + d.block_size ≤ box.bottom)
    pub left_edge : IsEdge (λ by bx. bx * d.block_size) box.left
    pub top_edge : IsEdge (λ by bx. by * d.block_size) box.top
    pub right_edge : IsEdge (λ by bx. bx * d.block_size + d.block_size) box.right
    pub bottom_edge : IsEdge (λ by bx. by * d.block_size + d.block_size) box.bottom

  module _ (valid : IsValid d) where
    -- The cut at the border of the frame takes nothing away.
    right-uncut :
        (by bx v : ℕ)
        → bx < d.grid_w
        → v ≡ bx + 1
        → lower d.width (v * d.block_size) ≡ bx * d.block_size + d.block_size
    right-uncut by bx v h e =
        let fits = block-le bx d.grid_w d.block_size h in
        let whole : v * d.block_size ≡ bx * d.block_size + d.block_size = rw e (omega arith) in
        ground (arith, valid.across)

    bottom-uncut :
        (by bx v : ℕ)
        → by < d.grid_h
        → v ≡ by + 1
        → lower d.height (v * d.block_size) ≡ by * d.block_size + d.block_size
    bottom-uncut by bx v h e =
        let fits = block-le by d.grid_h d.block_size h in
        let whole : v * d.block_size ≡ by * d.block_size + d.block_size = rw e (omega arith) in
        ground (arith, valid.down)

    box_of-IsMotionBox :
        (s : Scan)
        → scan fl d current_y ≡ some s
        → 0 < s.end_bx
        → IsMotionBox (box_of fl d current_y s)
    box_of-IsMotionBox s h some_active =
        let t = scan-IsTight s h in
        let around : (by bx : ℕ) → IsActive by bx → IsAround by bx s =
          λ by bx (hy, hx, a). t.holds by bx (hy, hx, a) (place-lt d.grid_w d.grid_h bx by hx hy) in
        let (j, i, (hj, hi, a), e) : IsEdge (λ by bx. bx + 1) s.end_bx = elim t.end_bx [
          | inl bad ↦ absurd (omega arith)
          | inr r ↦ r
        ] in
        let (b1, b2, b3, b4) = around j i (hj, hi, a) in
        let (jb, ib, (hjb, hib, ab), eb) : IsEdge (λ by bx. by + 1) s.end_by = elim t.end_by [
          | inl bad ↦ absurd (omega arith)
          | inr r ↦ r
        ] in
        let right_edge = right-uncut j i s.end_bx hi e in
        let bottom_edge = bottom-uncut jb ib s.end_by hjb eb in
        record {
          in_frame = (ground arith, ground arith);
          holds = λ by bx act.
              let (c1, c2, c3, c4) = around by bx act in
              (
                mul_mono s.min_bx bx d.block_size c1,
                subst (λ v. bx * d.block_size + d.block_size ≤ v) (sym right_edge)
                    (omega (arith, mul_mono bx i d.block_size (omega arith))),
                mul_mono s.min_by by d.block_size c3,
                subst (λ v. by * d.block_size + d.block_size ≤ v) (sym bottom_edge)
                    (omega (arith, mul_mono by jb d.block_size (omega arith))),
              );
          left_edge = elim t.min_bx [
            | inl bad ↦ absurd (omega arith)
            | inr (by, bx, act, e) ↦ (by, bx, act, ap (λ v. v * d.block_size) e)
          ];
          top_edge = elim t.min_by [
            | inl bad ↦ absurd (omega arith)
            | inr (by, bx, act, e) ↦ (by, bx, act, ap (λ v. v * d.block_size) e)
          ];
          right_edge = (j, i, (hj, hi, a), right_edge);
          bottom_edge = (jb, ib, (hjb, hib, ab), bottom_edge);
        }

    judge-IsMotionBox :
        (s : Scan) (box : MotionBox)
        → scan fl d current_y ≡ some s
        → (judge fl d current_y s).motion_box ≡ some box
        → IsMotionBox box × ((judge fl d current_y s).has_motion ≡ true)
    unfolding judge
    judge-IsMotionBox s box h e =
        let (moved, any_active, same) =
          guarded (judge fl d current_y s).has_motion (ltb 0 s.end_bx) (box_of fl d current_y s) box
            e in
        (subst IsMotionBox same (box_of-IsMotionBox s h (ground arith)), moved)

    -- A motion box that a plane leads to lies in the frame and is the smallest rectangle that holds
    -- all active blocks, those that are not masked and changed by the threshold: it holds each, and
    -- each of its sides is the side of one. It is only made where there is motion.
    pub analyze-IsMotionBox :
        (r : MotionResult) (e : MacroblockDetector) (box : MotionBox)
        → length current_y ≡ d.width * d.height
        → analyze fl d current_y ≡ some (r, e)
        → r.motion_box ≡ some box
        → IsMotionBox box × (r.has_motion ≡ true)
    analyze-IsMotionBox r e box size h made = elim (Bool-cases d.has_last_frame) [
      | inr first ↦
          let same : first_result fl d current_y ≡ r =
            result_inj (sym (analyze-first fl d current_y valid size first) ∙ h) in
          absurd (cc (ap (λ q. q.motion_box) same, made))
      | inl next ↦
          let (s, scanned) = scan-some fl d current_y valid size in
          let same : judge fl d current_y s ≡ r =
            result_inj (sym (analyze-next fl d current_y valid size next scanned) ∙ h) in
          subst (λ q. IsMotionBox box × (q.has_motion ≡ true)) same
            (judge-IsMotionBox s box scanned (ap (λ q. q.motion_box) same ∙ made))
    ]
