-- ===== src/Capturer/Window/Cyclic.antt =====
-- The window on the clock's face (microservices/frame_capturer/frame_capturer.py).
use intruder_watch.Capturer.Window.{is_within_time_frame}
use intruder_watch.Base.{ℕ, ◌≡◌, ◌<◌, ◌+◌, ◌-◌, ◌%◌, leb, arith}

-- The microseconds of a day.
abbrev pub day : ℕ
day = 86400000000

-- How long after `from` the clock shows `time`.
abbrev pub since : ℕ → ℕ → ℕ
since from time = (time + day - from) % day

-- The window holds exactly the times that come, behind its start, no later than its end does: also
-- where it goes over midnight.
pub is_within_time_frame-since :
    (now start_time end_time : ℕ)
    → now < day
    → start_time < day
    → end_time < day
    → is_within_time_frame now start_time end_time
      ≡ leb (since start_time now) (since start_time end_time)
unfolding is_within_time_frame
is_within_time_frame-since now start_time end_time hn hs he = ground arith
