-- ===== src/Engine/Loop/Sound.antt =====
-- What every round keeps (microservices/frame_capturer/main.go).
use intruder_watch.Base.Int.{pos, ltb_ℤ, sub_ℕ}
use intruder_watch.Engine.Config.{Config}
use intruder_watch.Engine.Motion.{MacroblockDetector, MotionBox, MotionResult, Floats, reset}
use intruder_watch.Engine.Motion.New.{IsValid}
use intruder_watch.Engine.Capture.{StreamCapturer, stop}
use intruder_watch.Engine.Pipeline.{
  FrameItem, Codecs, Pipeline, WorkerStep, frame_size, release_frame, submit, worker_steps,
}
use intruder_watch.Engine.Pipeline.Fifo.{
  accepted_frames, worker_steps-frames, worker_steps-backpressure, release_frame-frames,
  submit-frames,
}
use intruder_watch.Engine.Pipeline.Owned.{
  IsOwned, release_frame-IsOwned, submit-IsOwned, worker_steps-IsOwned,
}
use intruder_watch.Engine.Loop.{
  Round, State, stop_capture, release, work, is_too_early, is_recent, box_or, count_submitted,
  stamped, dispatch_frame, remember_motion, follow_motion, judge_frame,
}
use intruder_watch.Engine.Loop.Fed.{
  IsInFrame, IsFed, IsFed-drop, IsFed-snoc, IsApart, IsApart-now, IsApart-snoc, IsDue,
}
use intruder_watch.Base.Counts.{one_if}
use intruder_watch.Base.{
  ℕ, ◌+◌, ◌≡◌, ◌∙◌, refl, sym, ap, Bool, true, false, not, ◌&&◌, ◌||◌, Option, none, some, List, [],
  ◌∷◌, ◌++◌, length, if◌then◌else◌, inl, inr, arith, Bool-cases,
}
use mathlib.Core.Path.{subst}

length-snoc : (xs : List FrameItem) (x : FrameItem) → length (xs ++ x ∷ []) ≡ length xs + 1
length-snoc [] x = refl
length-snoc (y ∷ xs) x = omega (arith, length-snoc xs x)

-- What io.ReadFull fills: the whole buffer, where it does not fail.
abbrev pub IsWhole : Config → Option (List ℕ) → Type 0
IsWhole cfg none = Unit
IsWhole cfg (some bytes) = length bytes ≡ frame_size cfg

-- The frames that were captured and skipped, by their reason.
abbrev pub skipped : State → ℕ
skipped s = s.rate_limit + s.lighting_shift + s.duplicate + s.pipeline.backpressure

-- While the loop holds some buffers, and has captured some frames whose lot is open.
pub record IsSound (fl : Floats) (cfg : Config) (held : List FrameItem) (undecided : ℕ) (s : State)
    : Type 0 where
  pub owned : IsOwned held s.pipeline
  pub balanced : s.captured ≡ skipped s + length (accepted_frames s.pipeline) + undecided
  pub fed : IsFed cfg s.seq_counter (accepted_frames s.pipeline)
  pub apart :
      (i : ℕ)
      → fl.interval cfg.fps ≡ pos i
      → IsApart i s.last_sent_time (accepted_frames s.pipeline)
  pub last_box : IsInFrame cfg s.last_motion_box
  pub detector : IsValid s.detector
  pub width : s.detector.width ≡ cfg.frame_width
  pub height : s.detector.height ≡ cfg.frame_height
  pub tidy : s.capturer.spawned ≡ s.capturer.killed + one_if s.capturer.is_running

stop-tidy :
    (c : StreamCapturer)
    → c.spawned ≡ c.killed + one_if c.is_running
    → (stop c).spawned ≡ (stop c).killed + one_if (stop c).is_running
unfolding stop
stop-tidy c h = elim (Bool-cases c.is_running) [
  | inl e ↦ rw e (omega (arith, h ∙ ap (λ b. c.killed + one_if b) e))
  | inr e ↦ rw e (omega (arith, h ∙ ap (λ b. c.killed + one_if b) e))
]

reset-IsValid : (d : MacroblockDetector) → IsValid d → IsValid (reset d)
unfolding reset
reset-IsValid d v = record {
  block = v.block;
  across = v.across;
  down = v.down;
  plane = v.plane;
  mask = v.mask;
}

module _ (fl : Floats) (cfg : Config) where
  pub stop_capture-IsSound :
      (s : State) → IsSound fl cfg [] 0 s → IsSound fl cfg [] 0 (stop_capture s)
  unfolding stop_capture reset
  stop_capture-IsSound s h = record {
    owned = h.owned;
    balanced = h.balanced;
    fed = h.fed;
    apart = h.apart;
    last_box = h.last_box;
    detector = reset-IsValid s.detector h.detector;
    width = h.width;
    height = h.height;
    tidy = stop-tidy s.capturer h.tidy;
  }

  -- The pipeline changes, and nothing that the invariant reads of the rest.
  pub with_pipeline-IsSound :
      (held kept : List FrameItem) (n : ℕ) (s : State) (p : Pipeline)
      → IsSound fl cfg held n s
      → IsOwned kept p
      → accepted_frames p ≡ accepted_frames s.pipeline
      → p.backpressure ≡ s.pipeline.backpressure
      → IsSound fl cfg kept n (record s { pipeline = p })
  with_pipeline-IsSound held kept n s p h o same count = record {
    owned = o;
    balanced = omega (arith, h.balanced, ap length same);
    fed = subst (IsFed cfg s.seq_counter) (sym same) h.fed;
    apart = λ i e. subst (IsApart i s.last_sent_time) (sym same) (h.apart i e);
    last_box = h.last_box;
    detector = h.detector;
    width = h.width;
    height = h.height;
    tidy = h.tidy;
  }

  pub release-IsSound :
      (item : FrameItem) (n : ℕ) (s : State)
      → IsSound fl cfg (item ∷ []) n s
      → IsSound fl cfg [] n (release item s)
  unfolding release_frame
  release-IsSound item n s h =
      with_pipeline-IsSound (item ∷ []) [] n s (release_frame item s.pipeline) h
        (release_frame-IsOwned item s.pipeline h.owned) (release_frame-frames item s.pipeline) refl

  module _ (codecs : Codecs) (r : Round) where
    pub work-IsSound :
        (ws : List WorkerStep) (held : List FrameItem) (n : ℕ) (s : State)
        → IsSound fl cfg held n s
        → IsSound fl cfg held n (work fl cfg codecs r ws s)
    work-IsSound ws held n s h =
        with_pipeline-IsSound held held n s (worker_steps cfg codecs ws s.pipeline) h
          (worker_steps-IsOwned cfg codecs held ws s.pipeline h.owned)
          (worker_steps-frames cfg codecs ws s.pipeline)
          (worker_steps-backpressure cfg codecs ws s.pipeline)

    -- The rate limit lets the round through.
    abbrev AreDue : Option ℕ → Type 0
    AreDue last_sent_time = (i : ℕ) → fl.interval cfg.fps ≡ pos i → IsDue i r.now last_sent_time

    pub is_too_early-AreDue :
        (last_sent_time : Option ℕ)
        → is_too_early fl cfg codecs r last_sent_time ≡ false
        → AreDue last_sent_time
    unfolding is_too_early
    is_too_early-AreDue none h i e = tt
    is_too_early-AreDue (some last) h i e =
        let limit : ltb_ℤ (sub_ℕ r.now last) (pos i) ≡ false =
          ap (ltb_ℤ (sub_ℕ r.now last)) (sym e) ∙ h in
        ground (arith, limit)

    box_or-IsInFrame :
        (box last : Option MotionBox)
        → IsInFrame cfg box
        → IsInFrame cfg last
        → IsInFrame cfg (box_or fl cfg codecs r box last)
    box_or-IsInFrame none last h k = k
    box_or-IsInFrame (some box) last h k = h

    count_submitted-IsSound :
        (item : FrameItem) (s : State) (b : Bool) (p : Pipeline)
        → IsSound fl cfg (item ∷ []) 1 s
        → item.sequence ≡ s.seq_counter + 1
        → item.timestamp ≡ r.now
        → AreDue s.last_sent_time
        → IsInFrame cfg item.motion_box
        → IsOwned [] p
        → accepted_frames p
          ≡ (if b then accepted_frames s.pipeline ++ item ∷ [] else accepted_frames s.pipeline)
        → p.backpressure ≡ (if b then s.pipeline.backpressure else s.pipeline.backpressure + 1)
        → IsSound fl cfg [] 0
            (count_submitted fl cfg codecs r (b, p) (record s { seq_counter = s.seq_counter + 1 }))
    count_submitted-IsSound item s true p h e on_time due i o same count = record {
      owned = o;
      balanced =
          omega (arith, h.balanced, ap length same ∙ length-snoc (accepted_frames s.pipeline) item);
      fed =
          subst (IsFed cfg (s.seq_counter + 1)) (sym same)
            (IsFed-snoc cfg s.seq_counter item _ h.fed e i);
      apart = λ i e.
          let on_due = subst (λ t. IsDue i t s.last_sent_time) (sym on_time) (due i e) in
          let apart =
            IsApart-snoc i s.last_sent_time item (accepted_frames s.pipeline) on_due
              (h.apart i e) in
          subst (λ t. IsApart i (some t) (accepted_frames p)) on_time
            (subst (IsApart i (some item.timestamp)) (sym same) apart);
      last_box = h.last_box;
      detector = h.detector;
      width = h.width;
      height = h.height;
      tidy = h.tidy;
    }
    count_submitted-IsSound item s false p h e on_time due i o same count = record {
      owned = o;
      balanced = omega (arith, h.balanced, ap length same);
      fed = subst (IsFed cfg (s.seq_counter + 1)) (sym same) (IsFed-drop cfg s.seq_counter _ h.fed);
      apart = λ i e. subst (IsApart i s.last_sent_time) (sym same) (h.apart i e);
      last_box = h.last_box;
      detector = h.detector;
      width = h.width;
      height = h.height;
      tidy = h.tidy;
    }

    -- A frame is submitted, with its lot decided.
    dispatch_frame-IsSound :
        (item : FrameItem) (motion : MotionResult) (in_post_roll : Bool) (s : State)
        → IsInFrame cfg motion.motion_box
        → AreDue s.last_sent_time
        → IsSound fl cfg (item ∷ []) 1 s
        → IsSound fl cfg [] 0 (dispatch_frame fl cfg codecs r item motion in_post_roll s)
    unfolding dispatch_frame
    dispatch_frame-IsSound item motion in_post_roll s i due h =
        let sent = stamped fl cfg codecs r item motion in_post_roll s in
        let (same, count) = submit-frames sent s.pipeline in
        count_submitted-IsSound sent s (submit sent s.pipeline).0 (submit sent s.pipeline).1
          (with_pipeline-IsSound (item ∷ []) (sent ∷ []) 1 s s.pipeline h h.owned refl refl) refl
          refl due (box_or-IsInFrame motion.motion_box s.last_motion_box i h.last_box)
          (submit-IsOwned sent s.pipeline h.owned) same count

    remember_motion-IsSound :
        (motion : MotionResult) (held : List FrameItem) (n : ℕ) (s : State)
        → IsInFrame cfg motion.motion_box
        → IsSound fl cfg held n s
        → IsSound fl cfg held n (remember_motion fl cfg codecs r motion s)
    remember_motion-IsSound motion held n s i h = elim (Bool-cases motion.has_motion) [
      | inl e ↦ rw e (record {
        owned = h.owned;
        balanced = h.balanced;
        fed = h.fed;
        apart = h.apart;
        last_box = i;
        detector = h.detector;
        width = h.width;
        height = h.height;
        tidy = h.tidy;
      })
      | inr e ↦ rw e h
    ]

    remember_motion-AreDue :
        (motion : MotionResult) (s : State)
        → AreDue s.last_sent_time
        → AreDue (remember_motion fl cfg codecs r motion s).last_sent_time
    remember_motion-AreDue motion s due = elim (Bool-cases motion.has_motion) [
      | inl e ↦ rw e due
      | inr e ↦ rw e due
    ]

    -- A frame that is skipped, when the count of its reason has gone up.
    pub skip-IsSound :
        (item : FrameItem) (s : State) (light dup rate : ℕ) (sent : Option ℕ)
        → IsSound fl cfg (item ∷ []) 1 s
        → light + dup + rate ≡ s.lighting_shift + s.duplicate + s.rate_limit + 1
        → ((i : ℕ)
            → fl.interval cfg.fps ≡ pos i
            → IsApart i s.last_sent_time (accepted_frames s.pipeline)
            → IsApart i sent (accepted_frames s.pipeline))
        → IsSound fl cfg [] 0 (record (release item s) {
          lighting_shift = light;
          duplicate = dup;
          rate_limit = rate;
          last_sent_time = sent;
        })
    unfolding release_frame
    skip-IsSound item s light dup rate sent h e later =
        let k = release-IsSound item 1 s h in
        record {
          owned = k.owned;
          balanced = omega (arith, k.balanced);
          fed = k.fed;
          apart = λ i e. later i e (h.apart i e);
          last_box = k.last_box;
          detector = k.detector;
          width = k.width;
          height = k.height;
          tidy = k.tidy;
        }

    from_now :
        (s : State)
        → AreDue s.last_sent_time
        → (i : ℕ) → fl.interval cfg.fps ≡ pos i
        → IsApart i s.last_sent_time (accepted_frames s.pipeline)
        → IsApart i (some r.now) (accepted_frames s.pipeline)
    from_now s due i e h =
        IsApart-now i r.now s.last_sent_time (accepted_frames s.pipeline) (due i e) h

    follow_motion-IsSound :
        (item : FrameItem) (motion : MotionResult) (s : State)
        → IsInFrame cfg motion.motion_box
        → AreDue s.last_sent_time
        → IsSound fl cfg (item ∷ []) 1 s
        → IsSound fl cfg [] 0 (follow_motion fl cfg codecs r item motion s)
    unfolding follow_motion
    follow_motion-IsSound item motion s i due h =
        let post = not motion.has_motion && is_recent fl cfg codecs r s.last_motion_time in
        elim (Bool-cases (motion.has_motion || post)) [
          | inl e ↦ rw e (dispatch_frame-IsSound item motion post s i due h)
          | inr e ↦ rw e (
              skip-IsSound item s s.lighting_shift (s.duplicate + 1) s.rate_limit (some r.now) h
                (omega arith) (from_now s due))
        ]

    pub judge_frame-IsSound :
        (item : FrameItem) (motion : MotionResult) (s : State)
        → IsInFrame cfg motion.motion_box
        → AreDue s.last_sent_time
        → IsSound fl cfg (item ∷ []) 1 s
        → IsSound fl cfg [] 0 (judge_frame fl cfg codecs r item motion s)
    unfolding judge_frame follow_motion dispatch_frame
    judge_frame-IsSound item motion s i due h = elim (Bool-cases motion.is_lighting_shift) [
      | inl e ↦ rw e (
          skip-IsSound item s (s.lighting_shift + 1) s.duplicate s.rate_limit (some r.now) h
            (omega arith) (from_now s due))
      | inr e ↦ rw e (
          follow_motion-IsSound item motion (remember_motion fl cfg codecs r motion s) i
            (remember_motion-AreDue motion s due)
            (remember_motion-IsSound motion (item ∷ []) 1 s i h))
    ]
