-- ===== src/Engine/Motion/New.antt =====
-- What `NewMacroblockDetector` makes (microservices/frame_capturer/motion.go).
use intruder_watch.Engine.Config.{Config}
use intruder_watch.Engine.Motion.{
  MacroblockDetector, get_elem?, Mask, block_size_of, columns, rows, with_mask,
  new_macroblock_detector,
}
use intruder_watch.Engine.Motion.Mask.{
  IsMasked, trues, trues-replicate, get_elem?-replicate, is_excluded, mask_rows-IsMasked, place-lt,
}
use intruder_watch.Base.Int.{ℤ, pos, negsuc}
use intruder_watch.Base.{
  ℕ, zero, suc, ◌+◌, ◌-◌, ◌*◌, ◌≤◌, ◌<◌, ◌≡◌, ◌∙◌, refl, sym, ap, Bool, false, ◌&&◌, some, leb,
  replicate, length, length-replicate, if◌then◌else◌, arith, lt→ltb, le→ltb_false,
}
use native.Mathlib.Nat.{div-mul-le_self}

-- The grid lies in the frame, the planes have a byte for each pixel, and each block has its mask.
pub record IsValid (d : MacroblockDetector) : Type 0 where
  pub block : 0 < d.block_size
  pub across : d.grid_w * d.block_size ≤ d.width
  pub down : d.grid_h * d.block_size ≤ d.height
  pub plane : length d.last_y ≡ d.width * d.height
  pub mask :
      (by bx : ℕ)
      → by < d.grid_h
      → bx < d.grid_w
      → (b : Bool) × (get_elem? d.is_masked (by * d.grid_w + bx) ≡ some b)

block_size_of-pos : (z : ℤ) → 0 < block_size_of z
unfolding block_size_of
block_size_of-pos (pos zero) = omega arith
block_size_of-pos (pos (suc n)) = omega arith
block_size_of-pos (negsuc n) = omega arith

-- The detector is made for every configuration, and its masked blocks are those that a zone meets.
abbrev pub IsMadeFor : Config → MacroblockDetector → Type 0
IsMadeFor cfg d =
    IsValid d
    × (d.width ≡ cfg.frame_width)
    × (d.height ≡ cfg.frame_height)
    × ((by bx : ℕ)
        → by < d.grid_h
        → bx < d.grid_w
        → get_elem? d.is_masked (by * d.grid_w + bx) ≡ some (is_excluded cfg d.block_size by bx))
    × (d.total_blocks ≡ d.grid_w * d.grid_h)
    × (d.effective_blocks ≡ (
        if leb d.total_blocks (trues d.is_masked) then 1 else d.total_blocks - trues d.is_masked))
    × (d.has_last_frame ≡ false)

with_mask-IsMadeFor :
    (cfg : Config) (m : Mask)
    → IsMasked cfg
        (block_size_of cfg.block_size)
        (columns cfg)
        (rows cfg)
        (rows cfg * columns cfg)
        m
    → IsMadeFor cfg (with_mask cfg m)
with_mask-IsMadeFor cfg (m, c) (g, t) =
    let bs = block_size_of cfg.block_size in
    let masked : (by bx : ℕ)
        → by < rows cfg
        → bx < columns cfg
        → get_elem? m (by * columns cfg + bx) ≡ some (is_excluded cfg bs by bx) =
      λ by bx hy hx.
        let inside = lt→ltb _ _ (place-lt (columns cfg) (rows cfg) bx by hx hy) in
        g by bx hy hx ∙ ap (λ b. some (b && is_excluded cfg bs by bx)) inside in
    (
      record {
        block = block_size_of-pos cfg.block_size;
        across = div-mul-le_self cfg.frame_width bs;
        down = div-mul-le_self cfg.frame_height bs;
        plane = length-replicate (cfg.frame_width * cfg.frame_height) 0;
        mask = λ by bx hy hx. (is_excluded cfg bs by bx, masked by bx hy hx);
      },
      refl,
      refl,
      masked,
      refl,
      ap (λ n. if leb (columns cfg * rows cfg) n then 1 else columns cfg * rows cfg - n) t,
      refl,
    )

pub new_macroblock_detector-IsMadeFor :
    (cfg : Config)
    → (d : MacroblockDetector) × (new_macroblock_detector cfg ≡ some d) × IsMadeFor cfg d
unfolding new_macroblock_detector
new_macroblock_detector-IsMadeFor cfg =
    let n = columns cfg * rows cfg in
    let clear : IsMasked cfg (block_size_of cfg.block_size) (columns cfg) (rows cfg) 0
        (replicate n false, 0) =
      (
        (λ by bx hy hx.
            get_elem?-replicate n (by * columns cfg + bx)
              (omega (arith, place-lt (columns cfg) (rows cfg) bx by hx hy))
            ∙ ap (λ b. some (b && is_excluded cfg (block_size_of cfg.block_size) by bx))
                (sym (le→ltb_false _ 0 (omega arith)))),
        sym (trues-replicate n),
      ) in
    let (m, e, i) =
      mask_rows-IsMasked cfg (block_size_of cfg.block_size) (columns cfg) (rows cfg)
        (replicate n false, 0) clear in
    (with_mask cfg m, rw (e, new_macroblock_detector) refl, with_mask-IsMadeFor cfg m i)
