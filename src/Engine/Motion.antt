-- ===== src/Engine/Motion.antt =====
-- `MacroblockDetector` of microservices/frame_capturer/motion.go. The planes are lists of bytes; none
-- is a panic, as at an index out of range. Floats are their bit patterns, and what is done with
-- them is the parameter Floats. The sums stay far below the bound of an int.
pub mod Mask
pub mod New
pub mod Total
pub mod Ignore
pub mod Box
use intruder_watch.Engine.Config.{Config}
use intruder_watch.Engine.Zone.{intersects}
use intruder_watch.Base.Loops.{for_range}
use intruder_watch.Base.Int.{ℤ, pos, negsuc, ltb_ℤ}
use intruder_watch.Base.{
  ℕ, zero, suc, ◌+◌, ◌-◌, ◌*◌, ◌/◌, Bool, true, false, not, ◌&&◌, Option, none, some, List, [], ◌∷◌,
  ltb, leb, any, replicate, take, drop, length, ◌++◌, if◌then◌else◌,
}

-- float64(a) / float64(b), and the comparisons x >= y and x > y.
pub record Floats : Type 0 where
  pub quotient : ℕ → ℕ → ℕ
  pub at_least : ℕ → ℕ → Bool
  pub greater : ℕ → ℕ → Bool
  -- time.Duration(float64(time.Second) / float64(fps) * 0.9), in nanoseconds
  pub interval : ℤ → ℤ

pub record MacroblockDetector : Type 0 where
  pub width : ℕ
  pub height : ℕ
  pub block_size : ℕ
  pub grid_w : ℕ
  pub grid_h : ℕ
  pub total_blocks : ℕ
  pub effective_blocks : ℕ
  pub threshold : ℕ
  pub min_active_blocks : ℤ
  pub lighting_shift_ratio : ℕ
  pub is_masked : List Bool
  pub last_y : List ℕ
  pub has_last_frame : Bool

pub record MotionBox : Type 0 where
  pub left : ℕ
  pub top : ℕ
  pub right : ℕ
  pub bottom : ℕ

pub record MotionResult : Type 0 where
  pub has_motion : Bool
  pub active_blocks : ℕ
  pub total_blocks : ℕ
  pub effective_blocks : ℕ
  pub is_lighting_shift : Bool
  pub max_block_delta : ℕ
  pub motion_box : Option MotionBox

module _ {ℓ} {A : Type ℓ} where
  abbrev pub get_elem? : List A → ℕ → Option A
  get_elem? [] i = none
  get_elem? (x ∷ xs) zero = some x
  get_elem? (x ∷ xs) (suc i) = get_elem? xs i

  -- `xs[i] = v`
  unfoldable pub set : List A → ℕ → A → Option (List A)
  set [] i v = none
  set (x ∷ xs) zero v = some (v ∷ xs)
  set (x ∷ xs) (suc i) v = elim (set xs i v) [ none ↦ none | some ys ↦ some (x ∷ ys) ]

-- `if bs <= 0 { bs = 32 }`
unfoldable pub block_size_of : ℤ → ℕ
block_size_of (pos zero) = 32
block_size_of (pos (suc n)) = suc n
block_size_of (negsuc n) = 32

-- The mask and the number of blocks in it.
abbrev pub Mask : Type 0
Mask = List Bool × ℕ

module _ (cfg : Config) (bs grid_w : ℕ) where
  unfoldable pub mask_block : ℕ → ℕ → Mask → Option Mask
  mask_block by bx (is_masked, masked_count) =
      if any (intersects (bx * bs) (by * bs) bs) cfg.exclude_zones
      then elim (set is_masked (by * grid_w + bx) true) [
        | none ↦ none
        | some m ↦ some (m, masked_count + 1)
      ]
      else some (is_masked, masked_count)

  unfoldable pub mask_rows : ℕ → Mask → Option Mask
  mask_rows grid_h m = for_range grid_h 0 (λ by m. for_range grid_w 0 (mask_block by) m) m

abbrev pub columns : Config → ℕ
columns cfg = cfg.frame_width / block_size_of cfg.block_size

abbrev pub rows : Config → ℕ
rows cfg = cfg.frame_height / block_size_of cfg.block_size

abbrev pub with_mask : Config → Mask → MacroblockDetector
with_mask cfg (is_masked, masked_count) = record {
  width = cfg.frame_width;
  height = cfg.frame_height;
  block_size = block_size_of cfg.block_size;
  grid_w = columns cfg;
  grid_h = rows cfg;
  total_blocks = columns cfg * rows cfg;
  effective_blocks =
      if leb (columns cfg * rows cfg) masked_count
      then 1
      else columns cfg * rows cfg - masked_count;
  threshold = cfg.motion_threshold;
  min_active_blocks = cfg.min_active_blocks;
  lighting_shift_ratio = cfg.lighting_shift_ratio;
  is_masked = is_masked;
  last_y = replicate (cfg.frame_width * cfg.frame_height) 0;
  has_last_frame = false;
}

unfoldable pub new_macroblock_detector : Config → Option MacroblockDetector
new_macroblock_detector cfg =
    elim (mask_rows cfg (block_size_of cfg.block_size) (columns cfg) (rows cfg)
      (replicate (columns cfg * rows cfg) false, 0)) [
        | none ↦ none
        | some m ↦ some (with_mask cfg m)
      ]

-- What the loops over the blocks compute. `end_bx` and `end_by` are maxBX + 1 and maxBY + 1.
pub record Scan : Type 0 where
  pub active_blocks : ℕ
  pub max_block_delta : ℕ
  pub min_bx : ℕ
  pub min_by : ℕ
  pub end_bx : ℕ
  pub end_by : ℕ

abbrev pub lower : ℕ → ℕ → ℕ
lower a b = if ltb a b then a else b

abbrev pub higher : ℕ → ℕ → ℕ
higher a b = if ltb b a then a else b

abbrev pub abs_diff : ℕ → ℕ → ℕ
abs_diff c l = if ltb c l then l - c else c - l

-- Reading either byte may panic.
abbrev pub add_diff : ℕ → Option ℕ → Option ℕ → Option ℕ
add_diff sum (some c) (some l) = some (sum + abs_diff c l)
add_diff sum _ _ = none

-- `copy(dst, src)` leaves what of the destination lies behind the end of the source.
abbrev pub copy : List ℕ → List ℕ → List ℕ
copy dst src = take (length dst) src ++ drop (length src) dst

abbrev pub remember : List ℕ → MacroblockDetector → MacroblockDetector
remember current_y d = record d { last_y = copy d.last_y current_y; has_last_frame = true }

module _ (fl : Floats) (d : MacroblockDetector) (current_y : List ℕ) where
  unfoldable pub add_pixel : ℕ → ℕ → ℕ → Option ℕ
  add_pixel y x sum =
      add_diff sum (get_elem? current_y (y * d.width + x)) (get_elem? d.last_y (y * d.width + x))

  unfoldable pub add_row : ℕ → ℕ → ℕ → Option ℕ
  add_row bx y sum = for_range d.block_size (bx * d.block_size) (add_pixel y) sum

  -- The sum of absolute differences of a block.
  unfoldable pub block_diff_sum : ℕ → ℕ → Option ℕ
  block_diff_sum by bx = for_range d.block_size (by * d.block_size) (add_row bx) 0

  -- The mean, and what the block adds to the scan.
  unfoldable pub count_block : ℕ → ℕ → ℕ → Scan → Scan
  count_block by bx sum s =
      let block_mad = fl.quotient sum (d.block_size * d.block_size) in
      let delta = if fl.greater block_mad s.max_block_delta then block_mad else s.max_block_delta in
      if fl.at_least block_mad d.threshold
      then record {
        active_blocks = s.active_blocks + 1;
        max_block_delta = delta;
        min_bx = lower bx s.min_bx;
        min_by = lower by s.min_by;
        end_bx = higher (bx + 1) s.end_bx;
        end_by = higher (by + 1) s.end_by;
      }
      else record s { max_block_delta = delta }

  unfoldable pub scan_block : ℕ → ℕ → Scan → Option Scan
  scan_block by bx s = elim (get_elem? d.is_masked (by * d.grid_w + bx)) [
    | none ↦ none
    | some true ↦ some s
    | some false ↦ elim (block_diff_sum by bx) [
      | none ↦ none
      | some sum ↦ some (count_block by bx sum s)
    ]
  ]

  unfoldable pub scan_row : ℕ → Scan → Option Scan
  scan_row by s = for_range d.grid_w 0 (scan_block by) s

  abbrev pub start : Scan
  start = record {
    active_blocks = 0;
    max_block_delta = 0;
    min_bx = d.grid_w;
    min_by = d.grid_h;
    end_bx = 0;
    end_by = 0;
  }

  unfoldable pub scan : Option Scan
  scan = for_range d.grid_h 0 scan_row start

  abbrev pub box_of : Scan → MotionBox
  box_of s = record {
    left = s.min_bx * d.block_size;
    top = s.min_by * d.block_size;
    right = lower d.width (s.end_bx * d.block_size);
    bottom = lower d.height (s.end_by * d.block_size);
  }

  -- What is made of the scan.
  unfoldable pub judge : Scan → MotionResult
  judge s =
      let is_lighting_shift =
        fl.at_least (fl.quotient s.active_blocks d.effective_blocks) d.lighting_shift_ratio in
      let has_motion =
        not (ltb_ℤ (pos s.active_blocks) d.min_active_blocks) && not is_lighting_shift in
      record {
        has_motion = has_motion;
        active_blocks = s.active_blocks;
        total_blocks = d.total_blocks;
        effective_blocks = d.effective_blocks;
        is_lighting_shift = is_lighting_shift;
        max_block_delta = s.max_block_delta;
        motion_box = if has_motion && ltb 0 s.end_bx then some (box_of s) else none;
      }

  abbrev pub first_result : MotionResult
  first_result = record {
    has_motion = false;
    active_blocks = 0;
    total_blocks = d.total_blocks;
    effective_blocks = d.effective_blocks;
    is_lighting_shift = false;
    max_block_delta = 0;
    motion_box = none;
  }

  unfoldable pub analyze : Option (MotionResult × MacroblockDetector)
  analyze =
      if d.has_last_frame
      then elim scan [ none ↦ none | some s ↦ some (judge s, remember current_y d) ]
      else some (first_result, remember current_y d)

unfoldable pub reset : MacroblockDetector → MacroblockDetector
reset d = record d { has_last_frame = false }
