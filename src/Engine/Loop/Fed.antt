-- ===== src/Engine/Loop/Fed.antt =====
-- Frames in the order of their numbers, with boxes in the frame (microservices/frame_capturer/main.go).
use intruder_watch.Engine.Config.{Config}
use intruder_watch.Engine.Motion.{MacroblockDetector, MotionBox, MotionResult, Floats, analyze}
use intruder_watch.Engine.Motion.New.{IsValid}
use intruder_watch.Engine.Motion.Box.{analyze-IsMotionBox}
use intruder_watch.Engine.Pipeline.{FrameItem}
use intruder_watch.Base.{
  ℕ, ◌+◌, ◌*◌, ◌≡◌, ◌≤◌, ◌<◌, sym, Option, none, some, List, [], ◌∷◌, ◌++◌, length, arith, inl, inr,
  Option-cases, All, All-append,
}
use mathlib.Core.Path.{subst}

-- A rectangle in the frame that is not empty.
abbrev pub IsInFrame : Config → Option MotionBox → Type 0
IsInFrame cfg none = Unit
IsInFrame cfg (some box) =
    (box.left < box.right)
    × (box.right ≤ cfg.frame_width)
    × (box.top < box.bottom)
    × (box.bottom ≤ cfg.frame_height)

abbrev pub IsOrdered : List FrameItem → Type 0
IsOrdered [] = Unit
IsOrdered (x ∷ xs) = All (λ y. x.sequence < y.sequence) xs × IsOrdered xs

-- With the number of the last frame.
abbrev pub IsFed : Config → ℕ → List FrameItem → Type 0
IsFed cfg n xs =
    IsOrdered xs × All (λ x. x.sequence ≤ n) xs × All (λ x. IsInFrame cfg x.motion_box) xs

-- No later than the last frame that the rate limit counts from.
abbrev pub IsBefore : Option ℕ → FrameItem → Type 0
IsBefore none x = ⊥
IsBefore (some last_sent_time) x = x.timestamp ≤ last_sent_time

-- All later frames have their times by an interval later.
abbrev pub IsSpaced : ℕ → List FrameItem → Type 0
IsSpaced i [] = Unit
IsSpaced i (x ∷ xs) = All (λ y. x.timestamp + i ≤ y.timestamp) xs × IsSpaced i xs

abbrev pub IsApart : ℕ → Option ℕ → List FrameItem → Type 0
IsApart i last_sent_time xs = IsSpaced i xs × All (IsBefore last_sent_time) xs

-- A time that the rate limit lets through.
abbrev pub IsDue : ℕ → ℕ → Option ℕ → Type 0
IsDue i now none = Unit
IsDue i now (some last_sent_time) = last_sent_time + i ≤ now

still_before :
    (i now : ℕ) (last : Option ℕ) (xs : List FrameItem)
    → IsDue i now last
    → All (IsBefore last) xs
    → All (λ x. x.timestamp + i ≤ now) xs
still_before i now last [] due h = tt
still_before i now none (x ∷ xs) due (bad, h) = elim bad [ ]
still_before i now (some l) (x ∷ xs) due (a, h) =
    (omega arith, still_before i now (some l) xs due h)

weaken :
    (i now : ℕ) (xs : List FrameItem)
    → All (λ x. x.timestamp + i ≤ now) xs
    → All (IsBefore (some now)) xs
weaken i now [] h = tt
weaken i now (x ∷ xs) (a, h) = (omega arith, weaken i now xs h)

IsSpaced-snoc :
    (i : ℕ) (item : FrameItem) (xs : List FrameItem)
    → IsSpaced i xs
    → All (λ x. x.timestamp + i ≤ item.timestamp) xs
    → IsSpaced i (xs ++ item ∷ [])
IsSpaced-snoc i item [] o h = (tt, tt)
IsSpaced-snoc i item (x ∷ xs) (a, o) (b, h) = (
  All-append (λ y. x.timestamp + i ≤ y.timestamp) xs (item ∷ []) a (b, tt),
  IsSpaced-snoc i item xs o h,
)

-- The rate limit counts from now on.
pub IsApart-now :
    (i now : ℕ) (last : Option ℕ) (xs : List FrameItem)
    → IsDue i now last
    → IsApart i last xs
    → IsApart i (some now) xs
IsApart-now i now last xs due (o, h) = (o, weaken i now xs (still_before i now last xs due h))

pub IsApart-snoc :
    (i : ℕ) (last : Option ℕ) (item : FrameItem) (xs : List FrameItem)
    → IsDue i item.timestamp last
    → IsApart i last xs
    → IsApart i (some item.timestamp) (xs ++ item ∷ [])
IsApart-snoc i last item xs due (o, h) =
    let before = still_before i item.timestamp last xs due h in
    (
      IsSpaced-snoc i item xs o before,
      All-append (IsBefore (some item.timestamp)) xs (item ∷ []) (weaken i item.timestamp xs before)
          (omega arith, tt),
    )

later :
    (n : ℕ) (xs : List FrameItem) → All (λ x. x.sequence ≤ n) xs → All (λ x. x.sequence ≤ n + 1) xs
later n [] h = tt
later n (x ∷ xs) (a, h) = (omega arith, later n xs h)

IsOrdered-snoc :
    (n : ℕ) (item : FrameItem) (xs : List FrameItem)
    → IsOrdered xs
    → All (λ x. x.sequence ≤ n) xs
    → item.sequence ≡ n + 1
    → IsOrdered (xs ++ item ∷ [])
IsOrdered-snoc n item [] o h e = (tt, tt)
IsOrdered-snoc n item (x ∷ xs) (a, o) (b, h) e = (
  All-append (λ y. x.sequence < y.sequence) xs (item ∷ []) a (omega arith, tt),
  IsOrdered-snoc n item xs o h e,
)

pub IsFed-drop :
    (cfg : Config) (n : ℕ) (xs : List FrameItem) → IsFed cfg n xs → IsFed cfg (n + 1) xs
IsFed-drop cfg n xs (o, h, b) = (o, later n xs h, b)

pub IsFed-snoc :
    (cfg : Config) (n : ℕ) (item : FrameItem) (xs : List FrameItem)
    → IsFed cfg n xs
    → item.sequence ≡ n + 1
    → IsInFrame cfg item.motion_box
    → IsFed cfg (n + 1) (xs ++ item ∷ [])
IsFed-snoc cfg n item xs (o, h, b) e i = (
  IsOrdered-snoc n item xs o h e,
  All-append (λ x. x.sequence ≤ n + 1) xs (item ∷ []) (later n xs h) (omega arith, tt),
  All-append (λ x. IsInFrame cfg x.motion_box) xs (item ∷ []) b (i, tt),
)

-- The box of a result.
pub analyze-IsInFrame :
    (fl : Floats) (cfg : Config) (d : MacroblockDetector) (current_y : List ℕ) (r : MotionResult)
    (e : MacroblockDetector)
    → IsValid d
    → d.width ≡ cfg.frame_width
    → d.height ≡ cfg.frame_height
    → length current_y ≡ d.width * d.height
    → analyze fl d current_y ≡ some (r, e)
    → IsInFrame cfg r.motion_box
analyze-IsInFrame fl cfg d current_y r e valid ew eh size h = elim (Option-cases r.motion_box) [
  | inl boxless ↦ subst (IsInFrame cfg) (sym boxless) tt
  | inr (box, made) ↦
      let (b, moved) = analyze-IsMotionBox fl d current_y valid r e box size h made in
      let (j, i, active, side) = b.left_edge in
      let (h1, h2, h3, h4) = b.holds j i active in
      let block = valid.block in
      let (right, bottom) = b.in_frame in
      subst (IsInFrame cfg) (sym made) (omega arith, omega arith, omega arith, omega arith)
]
