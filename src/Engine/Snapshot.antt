-- ===== src/Engine/Snapshot.antt =====
-- `SnapshotManager` of microservices/frame_capturer/snapshot.go. Times are in
-- nanoseconds.
pub mod Cached
use intruder_watch.Engine.Config.{Config}
use intruder_watch.Engine.Overlay.{draw_visual_overlay}
use intruder_watch.Engine.Motion.{copy}
use intruder_watch.Str.{Text}
use intruder_watch.Base.{
  ℕ, ◌+◌, Bool, true, false, not, ◌&&◌, Option, none, some, List, [], ◌∷◌, ltb, length,
  if◌then◌else◌,
}

-- `updated_at` is none at the zero time. A JPEG is the text of its bytes.
pub record SnapshotManager : Type 0 where
  pub jpeg_bytes : Text
  pub raw_frame : List ℕ
  pub updated_at : Option ℕ

unfoldable pub update_raw : List ℕ → ℕ → SnapshotManager → SnapshotManager
update_raw raw now s = record s { raw_frame = copy s.raw_frame raw; updated_at = some now }

unfoldable pub update_jpeg : Text → ℕ → SnapshotManager → SnapshotManager
update_jpeg jpeg_bytes now s = record s { jpeg_bytes = jpeg_bytes; updated_at = some now }

pub data SnapshotError : Type 0 where
  no_frame_captured : SnapshotError
  encode_failed : SnapshotError

pub data Snapshot : Type 0 where
  snapshot : Text → ℕ → Snapshot
  unavailable : SnapshotError → Snapshot

abbrev pub rendered : Option Text → ℕ → Snapshot
rendered none cache_time = unavailable encode_failed
rendered (some buf) cache_time = snapshot buf cache_time

-- The overlay is drawn into a copy of the raw frame; none is a panic. The encoder makes a JPEG of the
-- planes of a frame.
module _ (cfg : Config) (encode : List ℕ → Option Text) (with_grid : Bool) (now : ℕ)
    (s : SnapshotManager) where
  abbrev pub render : ℕ → Option (List ℕ) → Option Snapshot
  render cache_time none = none
  render cache_time (some raw) = some (rendered (encode raw) cache_time)

  abbrev pub draw : Option (List ℕ)
  draw =
      if with_grid
      then draw_visual_overlay cfg.frame_width cfg.frame_height cfg.exclude_zones s.raw_frame
      else some s.raw_frame

  -- A cached JPEG is sent while the last update is less than four seconds old.
  abbrev pub snapshot_at : Option ℕ → Option Snapshot
  snapshot_at none = some (unavailable no_frame_captured)
  snapshot_at (some cache_time) =
      if not with_grid && (ltb 0 (length s.jpeg_bytes) && ltb now (cache_time + 4000000000))
      then some (snapshot s.jpeg_bytes cache_time)
      else render cache_time draw

  unfoldable pub get_snapshot : Option Snapshot
  get_snapshot = snapshot_at s.updated_at
