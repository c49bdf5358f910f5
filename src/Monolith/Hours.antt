-- ===== src/Monolith/Hours.antt =====
-- The active hours on the clock's face (monolith/detect.py).
use intruder_watch.Monolith.{is_active}
use intruder_watch.Base.{ℕ, ◌≡◌, ◌<◌, ◌+◌, ◌-◌, ◌%◌, ltb, arith}

-- How many hours after `from` an hour comes.
abbrev pub since : ℕ → ℕ → ℕ
since from hour = (hour + 24 - from) % 24

-- The active hours are those that come, behind the first, before the hour of the end does, also
-- over midnight; where the two are the same hour, none is active.
pub is_active-since :
    (current_hour start_time end_time : ℕ)
    → current_hour < 24
    → start_time < 24
    → end_time < 24
    → is_active current_hour start_time end_time
      ≡ ltb (since start_time current_hour) (since start_time end_time)
unfolding is_active
is_active-since current_hour start_time end_time hc hs he = ground arith
