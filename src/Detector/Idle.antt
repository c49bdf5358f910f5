-- ===== src/Detector/Idle.antt =====
-- `memory_manager` of microservices/human_detector/human_detector.py: its loop, one round a minute.
-- Times are in microseconds.
pub mod Once
mod Tests
use intruder_watch.Base.{ℕ, ◌+◌, List, [], ◌∷◌, Bool, true, false, not, ltb, if◌then◌else◌}

-- What a round reads: the clock and `state.last_frame_time`.
pub record Round : Type 0 where
  pub now : ℕ
  pub last_frame_time : ℕ

-- `collections` are the rounds that called `gc.collect`, the newest first.
pub record Memory : Type 0 where
  pub parked : Bool
  pub collections : List Round

abbrev pub unparked : Memory
unparked = record { parked = false; collections = [] }

-- `idle_duration > 300`
unfoldable pub is_idle : Round → Bool
is_idle r = ltb (r.last_frame_time + 300000000) r.now

unfoldable pub check : Round → Memory → Memory
check r m =
    if is_idle r
    then (if not m.parked then record { parked = true; collections = r ∷ m.collections } else m)
    else record m { parked = false }

-- The loop, as far as the rounds go.
unfoldable pub memory_manager : List Round → Memory → Memory
memory_manager [] m = m
memory_manager (r ∷ rs) m = memory_manager rs (check r m)
