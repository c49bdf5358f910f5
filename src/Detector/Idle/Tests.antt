-- ===== src/Detector/Idle/Tests.antt =====
-- The detector is idle, gets a frame, and is idle again.
use intruder_watch.Detector.Idle.{Round, unparked, is_idle, check, memory_manager}
use intruder_watch.Detector.Idle.Once.{IsAscending}
use intruder_watch.Base.{ℕ, ◌*◌, ◌≡◌, refl, List, [], ◌∷◌, arith, length}

abbrev at : ℕ → ℕ → Round
at now last = record { now = now * 60000000; last_frame_time = last * 60000000 }

abbrev minutes : List Round
minutes = at 7 0 ∷ at 8 8 ∷ at 13 8 ∷ at 14 8 ∷ at 15 8 ∷ []

collections_of : length (memory_manager (at 6 0 ∷ minutes) unparked).collections ≡ 2
unfolding memory_manager check is_idle
collections_of = refl

ascending : IsAscending (at 6 0) minutes
ascending = (
  omega arith,
  omega arith,
  (
    omega arith,
    omega arith,
    (omega arith, omega arith, (omega arith, omega arith, (omega arith, omega arith, tt))),
  ),
)
