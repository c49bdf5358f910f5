-- ===== src/Detector/Idle/Once.antt =====
-- How often the memory is collected (microservices/human_detector/human_detector.py).
use intruder_watch.Detector.Idle.{Round, Memory, unparked, is_idle, check, memory_manager}
use intruder_watch.Base.{
  ◌+◌, ◌≤◌, ◌<◌, List, [], ◌∷◌, Bool, true, false, inl, inr, arith, All, Bool-cases, ltb→lt,
  ltb_false→le, if◌then◌else◌, not,
}

-- The clock and the time of the last frame do not go back.
abbrev pub IsAscending : Round → List Round → Type 0
IsAscending r [] = Unit
IsAscending r (q ∷ qs) =
    (r.now ≤ q.now) × (r.last_frame_time ≤ q.last_frame_time) × IsAscending q qs

-- Each collection has a frame that came in behind the ones before.
abbrev pub HasNewFrames : List Round → Type 0
HasNewFrames [] = Unit
HasNewFrames (r ∷ rs) = All (λ q. q.last_frame_time < r.last_frame_time) rs × HasNewFrames rs

-- Of the collections so far, when the last round read this.
abbrev Lies : Round → Round → Type 0
Lies r q = (q.last_frame_time ≤ r.last_frame_time) × (q.last_frame_time + 300000000 < r.now)

-- Where the memory is not parked, a frame has come in behind all of them.
abbrev IsNewer : Bool → Round → List Round → Type 0
IsNewer true r qs = Unit
IsNewer false r qs = All (λ q. q.last_frame_time < r.last_frame_time) qs

Lies-All :
    (r t : Round) (qs : List Round)
    → r.now ≤ t.now
    → r.last_frame_time ≤ t.last_frame_time
    → All (Lies r) qs
    → All (Lies t) qs
Lies-All r t [] h k a = tt
Lies-All r t (q ∷ qs) h k (a, b) = ((omega arith, omega arith), Lies-All r t qs h k b)

-- A round behind these that finds the detector idle, and one that does not.
IsNewer-later :
    (r t : Round) (qs : List Round)
    → r.last_frame_time ≤ t.last_frame_time
    → IsNewer false r qs
    → IsNewer false t qs
IsNewer-later r t [] k a = tt
IsNewer-later r t (q ∷ qs) k (a, b) = (omega arith, IsNewer-later r t qs k b)

Lies-IsNewer :
    (t : Round) (qs : List Round)
    → t.now ≤ t.last_frame_time + 300000000
    → All (Lies t) qs
    → IsNewer false t qs
Lies-IsNewer t [] h a = tt
Lies-IsNewer t (q ∷ qs) h ((a, b), c) = (omega arith, Lies-IsNewer t qs h c)

abbrev IsKept : Round → Memory → Type 0
IsKept r m =
    All (Lies r) m.collections × IsNewer m.parked r m.collections × HasNewFrames m.collections

collect-IsKept :
    (r t : Round) (parked : Bool) (qs : List Round)
    → t.last_frame_time + 300000000 < t.now
    → r.now ≤ t.now
    → r.last_frame_time ≤ t.last_frame_time
    → IsKept r (record { parked = parked; collections = qs })
    → IsKept t (
        if not parked
        then record { parked = true; collections = t ∷ qs }
        else record { parked = parked; collections = qs })
collect-IsKept r t true qs idle h k (a, b, c) = (Lies-All r t qs h k a, tt, c)
collect-IsKept r t false qs idle h k (a, b, c) =
    (((omega arith, idle), Lies-All r t qs h k a), tt, (IsNewer-later r t qs k b, c))

check-IsKept :
    (r t : Round) (m : Memory)
    → r.now ≤ t.now
    → r.last_frame_time ≤ t.last_frame_time
    → IsKept r m
    → IsKept t (check t m)
unfolding check
check-IsKept r t m h k (a, b, c) = elim (Bool-cases (is_idle t)) [
  | inl idle ↦
      rw idle (
        collect-IsKept r t m.parked m.collections (unfold is_idle in ltb→lt _ _ idle) h k (a, b, c))
  | inr busy ↦
      let later = Lies-All r t m.collections h k a in
      rw busy
        (later, Lies-IsNewer t m.collections (unfold is_idle in ltb_false→le _ _ busy) later, c)
]

memory_manager-IsKept :
    (r : Round) (rs : List Round) (m : Memory)
    → IsAscending r rs
    → IsKept r m
    → HasNewFrames (memory_manager rs m).collections
unfolding memory_manager
memory_manager-IsKept r [] m h i = i.2
memory_manager-IsKept r (t ∷ rs) m (p, q, h) i =
    memory_manager-IsKept t rs (check t m) h (check-IsKept r t m p q i)

-- Where the clock and the time of the last frame never go back, the memory is collected at most
-- once for the frames that came in so far: from each collection to the next there is a new frame.
pub memory_manager-HasNewFrames :
    (r : Round) (rs : List Round)
    → IsAscending r rs
    → HasNewFrames (memory_manager (r ∷ rs) unparked).collections
unfolding memory_manager
memory_manager-HasNewFrames r rs h =
    memory_manager-IsKept r rs (check r unparked) h
      (check-IsKept r r unparked (omega arith) (omega arith) (tt, tt, tt))
