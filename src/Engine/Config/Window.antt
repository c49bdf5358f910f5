-- ===== src/Engine/Config/Window.antt =====
-- The two capturers keep the same hours (microservices/frame_capturer/config.go and frame_capturer.py).
use intruder_watch.Engine.Config.{Config, is_within_time_frame}
use intruder_watch.Capturer.Window
use intruder_watch.Base.Int.{pos}
use intruder_watch.Base.{ℕ, ◌+◌, ◌*◌, ◌≡◌, arith}

-- At each whole second, with a window that begins and ends within a day, the window of the engine is
-- that of the capturer in Python, which counts in microseconds.
pub is_within_time_frame-micros :
    (cfg : Config) (hour minute second start end : ℕ)
    → cfg.start_seconds ≡ pos start
    → cfg.end_seconds ≡ pos end
    → is_within_time_frame cfg hour minute second
      ≡ Window.is_within_time_frame
          ((hour * 3600 + minute * 60 + second) * 1000000)
          (start * 1000000)
          (end * 1000000)
unfolding is_within_time_frame Window.is_within_time_frame
is_within_time_frame-micros cfg hour minute second start end a b = rw (a, b) (ground arith)
