-- ===== src/Engine/Capture.antt =====
-- `StreamCapturer` of microservices/frame_capturer/capture.go. Times are in nanoseconds; the processes
-- of ffmpeg that are spawned and those that are ended are counted.
use intruder_watch.Base.{ℕ, ◌+◌, Bool, true, false, ◌&&◌, ltb, if◌then◌else◌}

-- `stdout` and `cmd` are set exactly while `is_running` holds.
pub record StreamCapturer : Type 0 where
  pub is_running : Bool
  pub last_frame_time : ℕ
  pub spawned : ℕ
  pub killed : ℕ

abbrev pub new_stream_capturer : StreamCapturer
new_stream_capturer = record { is_running = false; last_frame_time = 0; spawned = 0; killed = 0 }

-- `Start`, where a pipe and a process can be had or not, and whether it returns no error.
unfoldable pub start : ℕ → Bool → StreamCapturer → Bool × StreamCapturer
start now can_spawn c =
    if c.is_running
    then (true, c)
    else if can_spawn
    then (true, record c { is_running = true; last_frame_time = now; spawned = c.spawned + 1 })
    else (false, c)

-- `ReadFrame`, where the stream gave a whole frame.
unfoldable pub frame_read : ℕ → StreamCapturer → StreamCapturer
frame_read now c = record c { last_frame_time = now }

unfoldable pub stop : StreamCapturer → StreamCapturer
stop c = if c.is_running then record c { is_running = false; killed = c.killed + 1 } else c

-- A frame within the last 15 seconds.
unfoldable pub is_healthy : ℕ → StreamCapturer → Bool
is_healthy now c = c.is_running && ltb now (c.last_frame_time + 15000000000)
