-- ===== src/Engine/Overlay.antt =====
-- `drawVisualOverlay` of microservices/frame_capturer/snapshot.go. A coordinate may be negative; a
-- write at an index that is out of range panics, which is none.
pub mod Total
use intruder_watch.Engine.Zone.{Zone}
use intruder_watch.Engine.Motion.{set}
use intruder_watch.Base.Loops.{for_range}
use intruder_watch.Base.Int.{ℤ, pos, negsuc, pos_part, neg_part, ltb_ℤ, ◌+ℤ◌, ◌-ℤ◌, ◌*ℤ◌}
use intruder_watch.Base.{
  ℕ, ◌+◌, ◌-◌, ◌*◌, ◌/◌, ◌%◌, ◌==◌, Bool, not, ◌&&◌, ◌||◌, Option, none, some, List, [], ◌∷◌,
  if◌then◌else◌,
}

-- What draws into a frame.
abbrev pub Drawing : Type 0
Drawing = List ℕ → Option (List ℕ)

abbrev pub continue_with : Drawing → Option (List ℕ) → Option (List ℕ)
continue_with next none = none
continue_with next (some raw) = next raw

infixl 40 ◌>=>◌
abbrev pub ◌>=>◌ : Drawing → Drawing → Drawing
(first >=> next) raw = continue_with next (first raw)

-- `raw[idx] = v`
abbrev pub write : ℕ → ℤ → Drawing
write v (pos i) raw = set raw i v
write v (negsuc i) raw = none

abbrev pub draw_if : Bool → Drawing → Drawing
draw_if b d raw = if b then d raw else some raw

-- `for x := a; x < b; x++`
unfoldable pub between : ℤ → ℤ → (ℤ → Drawing) → Drawing
between a b d raw = for_range (pos_part (b -ℤ a)) 0 (λ i. d (a +ℤ pos i)) raw

abbrev pub at_most : ℕ → ℤ → ℤ
at_most size v = if ltb_ℤ (pos size) v then pos size else v

-- Whether a coordinate lies in 0 to a size.
abbrev pub is_inside : ℕ → ℤ → Bool
is_inside size v = not (ltb_ℤ v (pos 0)) && ltb_ℤ v (pos size)

-- `v % 24 == 0`
abbrev pub is_on_line : ℤ → Bool
is_on_line v = (pos_part v + neg_part v) % 24 == 0

module _ (w h : ℕ) where
  abbrev pub put : ℕ → ℤ → ℤ → Drawing
  put v y x = write v (y *ℤ pos w +ℤ x)

  -- The lines at 200, 400 and so on.
  unfoldable pub grid_columns : Drawing
  grid_columns =
      for_range ((w - 1) / 200) 0 (λ k. for_range h 0 (λ y. put 240 (pos y) (pos (200 * (k + 1)))))

  unfoldable pub grid_rows : Drawing
  grid_rows =
      for_range ((h - 1) / 200) 0 (λ k. for_range w 0 (λ x. put 240 (pos (200 * (k + 1))) (pos x)))

  module _ (x1 y1 x2 y2 : ℤ) where
    -- A pixel of the top edge and one of the bottom edge.
    abbrev pub horizontal : ℕ → ℤ → Drawing
    horizontal t x =
        draw_if (ltb_ℤ (y1 +ℤ pos t) (pos h)) (put 255 (y1 +ℤ pos t) x)
        >=> draw_if (is_inside h (y2 -ℤ pos (1 + t))) (put 255 (y2 -ℤ pos (1 + t)) x)

    abbrev pub vertical : ℕ → ℤ → Drawing
    vertical t y =
        draw_if (ltb_ℤ (x1 +ℤ pos t) (pos w)) (put 255 y (x1 +ℤ pos t))
        >=> draw_if (is_inside w (x2 -ℤ pos (1 + t))) (put 255 y (x2 -ℤ pos (1 + t)))

    unfoldable pub border : Drawing
    border = for_range 4 0 (λ t. between x1 x2 (horizontal t) >=> between y1 y2 (vertical t))

    unfoldable pub crosshatch : Drawing
    crosshatch = between (y1 +ℤ pos 4) (y2 -ℤ pos 4) (λ y.
        between (x1 +ℤ pos 4) (x2 -ℤ pos 4)
          (λ x. draw_if (is_on_line (x +ℤ y) || is_on_line (x -ℤ y)) (put 220 y x)))

  unfoldable pub draw_zone : Zone → Drawing
  draw_zone z =
      border z.x1 z.y1 (at_most w z.x2) (at_most h z.y2)
      >=> crosshatch z.x1 z.y1 (at_most w z.x2) (at_most h z.y2)

  unfoldable pub draw_zones : List Zone → Drawing
  draw_zones [] raw = some raw
  draw_zones (z ∷ zs) raw = (draw_zone z >=> draw_zones zs) raw

  unfoldable pub draw_visual_overlay : List Zone → Drawing
  draw_visual_overlay zones = grid_columns >=> grid_rows >=> draw_zones zones
