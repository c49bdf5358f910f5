-- ===== src/Engine/Config.antt =====
-- `Config` of microservices/frame_capturer/config.go. Durations are in nanoseconds, floats are their
-- bit patterns. A frame has no negative size.
pub mod Zones
pub mod Window
use intruder_watch.Engine.Zone.{Zone}
use intruder_watch.Base.Int.{ℤ, pos, ltb_ℤ}
use intruder_watch.Base.{ℕ, ◌+◌, ◌*◌, Bool, not, List, ◌&&◌, ◌||◌, if◌then◌else◌}

pub record Config : Type 0 where
  pub channel : ℤ
  pub frame_width : ℕ
  pub frame_height : ℕ
  pub fps : ℤ
  pub start_seconds : ℤ
  pub end_seconds : ℤ
  pub block_size : ℤ
  pub motion_threshold : ℕ
  pub min_active_blocks : ℤ
  pub lighting_shift_ratio : ℕ
  pub exclude_zones : List Zone
  pub post_roll_duration : ℤ

-- The clock's hour, minute and second.
unfoldable pub is_within_time_frame : Config → ℕ → ℕ → ℕ → Bool
is_within_time_frame cfg hour minute second =
    let now_sec = pos (hour * 3600 + minute * 60 + second) in
    if not (ltb_ℤ cfg.end_seconds cfg.start_seconds)
    then not (ltb_ℤ now_sec cfg.start_seconds) && not (ltb_ℤ cfg.end_seconds now_sec)
    else not (ltb_ℤ now_sec cfg.start_seconds) || not (ltb_ℤ cfg.end_seconds now_sec)
