-- ===== src/Capturer/Window.antt =====
-- `is_within_time_frame` of microservices/frame_capturer/frame_capturer.py.
pub mod Cyclic
use intruder_watch.Base.{ℕ, Bool, leb, ◌&&◌, ◌||◌, if◌then◌else◌}

-- Times of day are in microseconds since midnight.
unfoldable pub is_within_time_frame : ℕ → ℕ → ℕ → Bool
is_within_time_frame now start_time end_time =
    if leb start_time end_time
    then leb start_time now && leb now end_time
    else leb start_time now || leb now end_time
