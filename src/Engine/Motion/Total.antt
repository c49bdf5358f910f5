-- ===== src/Engine/Motion/Total.antt =====
-- `Analyze` never reads outside its planes (microservices/frame_capturer/motion.go).
use intruder_watch.Engine.Motion.{
  MacroblockDetector, MotionResult, Floats, Scan, get_elem?, copy, remember, add_pixel, add_row,
  block_diff_sum, count_block, scan_block, scan_row, scan, start, judge, first_result, analyze,
  abs_diff,
}
use intruder_watch.Engine.Motion.New.{IsValid}
use intruder_watch.Engine.Motion.Mask.{place-lt}
use intruder_watch.Base.Loops.{for_range_total}
use intruder_watch.Base.{
  ℕ, zero, suc, ◌+◌, ◌*◌, ◌≤◌, ◌<◌, ◌≡◌, ◌∙◌, refl, sym, ap, true, false, Option, none, some, List,
  [], ◌∷◌, length, take, drop, if◌then◌else◌, inl, inr, arith, Bool-cases, append-nil,
}

pub get_elem?-some :
    {A : Type 0} (xs : List A) (i : ℕ) → i < length xs → (x : A) × (get_elem? xs i ≡ some x)
get_elem?-some [] i h = absurd (omega arith)
get_elem?-some (x ∷ xs) zero h = (x, refl)
get_elem?-some (x ∷ xs) (suc i) h = get_elem?-some xs i (omega arith)

-- The end of a block's pixels, on one side of it.
pub block-le : (b n bs : ℕ) → b < n → b * bs + bs ≤ n * bs
block-le b n bs h = grind arith

take_all : (xs : List ℕ) (n : ℕ) → n ≡ length xs → take n xs ≡ xs
take_all [] zero h = refl
take_all [] (suc n) h = refl
take_all (x ∷ xs) zero h = absurd (omega arith)
take_all (x ∷ xs) (suc n) h = ap (◌∷◌ x) (take_all xs n (omega arith))

drop_all : (xs : List ℕ) (n : ℕ) → n ≡ length xs → drop n xs ≡ []
drop_all [] zero h = refl
drop_all [] (suc n) h = refl
drop_all (x ∷ xs) zero h = absurd (omega arith)
drop_all (x ∷ xs) (suc n) h = drop_all xs n (omega arith)

-- A plane replaces one of its length.
pub copy_all : (dst src : List ℕ) → length src ≡ length dst → copy dst src ≡ src
copy_all dst src h =
    rw (take_all src (length dst) (sym h), drop_all dst (length src) h) (append-nil src)

-- The detector behind a plane.
abbrev pub seen : MacroblockDetector → List ℕ → MacroblockDetector
seen d current_y = record d { last_y = current_y; has_last_frame = true }

module _ (fl : Floats) (d : MacroblockDetector) (current_y : List ℕ) (valid : IsValid d)
    (size : length current_y ≡ d.width * d.height) where
  add_pixel-some :
      (y x sum : ℕ)
      → x < d.width
      → y < d.height
      → (t : ℕ) × (add_pixel fl d current_y y x sum ≡ some t)
  unfolding add_pixel
  add_pixel-some y x sum hx hy =
      let inside = place-lt d.width d.height x y hx hy in
      let (c, now) = get_elem?-some current_y (y * d.width + x) (omega (arith, size)) in
      let (l, before) = get_elem?-some d.last_y (y * d.width + x) (omega (arith, valid.plane)) in
      (sum + abs_diff c l, rw (now, before, add_pixel) refl)

  add_row-some :
      (bx y sum : ℕ)
      → bx < d.grid_w
      → y < d.height
      → (t : ℕ) × (add_row fl d current_y bx y sum ≡ some t)
  unfolding add_row
  add_row-some bx y sum hx hy =
      let across = block-le bx d.grid_w d.block_size hx in
      let (t, e, u) =
        for_range_total (bx * d.block_size + d.block_size) (λ k s. Unit {0})
          (add_pixel fl d current_y y)
          (λ x s h u.
            let (t, e) = add_pixel-some y x s (omega (arith, valid.across)) hy in (t, e, tt))
          d.block_size (bx * d.block_size) sum refl tt in
      (t, e)

  pub block_diff_sum-some :
      (by bx : ℕ)
      → by < d.grid_h
      → bx < d.grid_w
      → (t : ℕ) × (block_diff_sum fl d current_y by bx ≡ some t)
  unfolding block_diff_sum
  block_diff_sum-some by bx hy hx =
      let down = block-le by d.grid_h d.block_size hy in
      let (t, e, u) =
        for_range_total (by * d.block_size + d.block_size) (λ k s. Unit {0})
          (add_row fl d current_y bx)
          (λ y s h u. let (t, e) = add_row-some bx y s hx (omega (arith, valid.down)) in (t, e, tt))
          d.block_size (by * d.block_size) 0 refl tt in
      (t, e)

  scan_block-some :
      (by bx : ℕ) (s : Scan)
      → by < d.grid_h
      → bx < d.grid_w
      → (t : Scan) × (scan_block fl d current_y by bx s ≡ some t)
  unfolding scan_block
  scan_block-some by bx s hy hx =
      let (b, masked) = valid.mask by bx hy hx in
      let (sum, e) = block_diff_sum-some by bx hy hx in
      elim b
          as (λ b.
            get_elem? d.is_masked (by * d.grid_w + bx) ≡ some b
            → (t : Scan) × (scan_block fl d current_y by bx s ≡ some t)) [
              | true ↦ λ h. (s, rw (h, scan_block) refl)
              | false ↦ λ h. (count_block fl d current_y by bx sum s, rw (h, e, scan_block) refl)
            ]
        masked

  scan_row-some :
      (by : ℕ) (s : Scan) → by < d.grid_h → (t : Scan) × (scan_row fl d current_y by s ≡ some t)
  unfolding scan_row
  scan_row-some by s hy =
      let (t, e, u) =
        for_range_total d.grid_w (λ k s. Unit {0}) (scan_block fl d current_y by)
          (λ bx s h u. let (t, e) = scan_block-some by bx s hy h in (t, e, tt)) d.grid_w 0 s
          (omega arith) tt in
      (t, e)

  pub scan-some : (t : Scan) × (scan fl d current_y ≡ some t)
  unfolding scan
  scan-some =
      let (t, e, u) =
        for_range_total d.grid_h (λ k s. Unit {0}) (scan_row fl d current_y)
          (λ by s h u. let (t, e) = scan_row-some by s h in (t, e, tt)) d.grid_h 0
          (start fl d current_y) (omega arith) tt in
      (t, e)

  pub remember-seen : remember current_y d ≡ (seen d current_y)
  remember-seen =
      ap (λ ys. record d { last_y = ys; has_last_frame = true })
        (copy_all d.last_y current_y (size ∙ sym valid.plane))

  pub seen-IsValid : IsValid (seen d current_y)
  seen-IsValid = record {
    block = valid.block;
    across = valid.across;
    down = valid.down;
    plane = size;
    mask = valid.mask;
  }

  pub analyze-first :
      d.has_last_frame ≡ false
      → analyze fl d current_y ≡ some (first_result fl d current_y, (seen d current_y))
  unfolding analyze
  analyze-first h = rw (h, analyze) (ap (λ e. some (first_result fl d current_y, e)) remember-seen)

  pub analyze-next :
      {s : Scan}
      → d.has_last_frame ≡ true
      → scan fl d current_y ≡ some s
      → analyze fl d current_y ≡ some (judge fl d current_y s, (seen d current_y))
  unfolding analyze
  analyze-next {s} h e =
      ap
        (λ b.
          if b
          then elim (scan fl d current_y) as (λ x. Option (MotionResult × MacroblockDetector)) [
            | none ↦ none
            | some s ↦ some (judge fl d current_y s, remember current_y d)
          ]
          else some (first_result fl d current_y, remember current_y d))
        h
      ∙ ap
          (λ o. elim o as (λ x. Option (MotionResult × MacroblockDetector)) [
            | none ↦ none
            | some s ↦ some (judge fl d current_y s, remember current_y d)
          ])
          e
      ∙ (ap (λ e. some (judge fl d current_y s, e)) remember-seen)

  -- A plane of the frame's size is analysed without a panic; it is kept as the reference for the
  -- next one, for which the detector is fit again.
  pub analyze-some :
      (r : MotionResult) × (analyze fl d current_y ≡ some (r, (seen d current_y)))
      × IsValid (seen d current_y)
  analyze-some = elim (Bool-cases d.has_last_frame) [
    | inr first ↦ (first_result fl d current_y, analyze-first first, seen-IsValid)
    | inl next ↦
        let (s, e) = scan-some in (judge fl d current_y s, analyze-next next e, seen-IsValid)
  ]
