-- ===== src/Engine/Zone.antt =====
-- The excluded zones of microservices/frame_capturer/config.go.
use intruder_watch.Base.Int.{ℤ, pos, ltb_ℤ}
use intruder_watch.Base.{ℕ, ◌+◌, Bool, ◌&&◌}
use intruder_watch.Str.{Text}

-- A rectangle in pixels.
pub record Zone : Type 0 where
  pub name : Text
  pub x1 : ℤ
  pub y1 : ℤ
  pub x2 : ℤ
  pub y2 : ℤ

-- Whether a square block with its corner at a pixel meets a zone.
unfoldable pub intersects : ℕ → ℕ → ℕ → Zone → Bool
intersects b_x1 b_y1 bs zone =
    ltb_ℤ (pos b_x1) zone.x2
    && ltb_ℤ zone.x1 (pos (b_x1 + bs))
    && ltb_ℤ (pos b_y1) zone.y2
    && ltb_ℤ zone.y1 (pos (b_y1 + bs))
