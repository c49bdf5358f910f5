-- ===== src/Engine/Loop.antt =====
-- The ingestion loop of `main` (microservices/frame_capturer/main.go). A round is an attempt to
-- connect or one run through the inner loop. What the clocks, the stream, RabbitMQ and the pool
-- answer in it is given with the round, and so is what the worker does meanwhile: it shares the pool,
-- the channel and the snapshots with the loop, so its steps stand before the round, while the frame
-- is read and while it is analysed. Times are in nanoseconds; none is a panic.
pub mod Fed
pub mod Sound
pub mod Rounds
pub mod Run
use intruder_watch.Engine.Config.{Config, is_within_time_frame}
use intruder_watch.Engine.Motion.{
  Floats, MacroblockDetector, MotionBox, MotionResult, analyze, reset, new_macroblock_detector,
}
use intruder_watch.Engine.Snapshot.{update_raw}
use intruder_watch.Engine.Capture.{StreamCapturer, start, frame_read, stop, new_stream_capturer}
use intruder_watch.Engine.Pipeline.{
  FrameItem, Codecs, Pipeline, WorkerStep, y_size, frame_size, acquire_frame, release_frame, submit,
  worker_steps,
}
use intruder_watch.Base.Int.{ℤ, pos, ltb_ℤ, sub_ℕ}
use intruder_watch.Base.{
  ℕ, ◌+◌, Bool, true, false, not, ◌&&◌, ◌||◌, Option, none, some, List, [], ◌∷◌, take, replicate,
  if◌then◌else◌,
}

pub record Round : Type 0 where
  pub connect : Bool
  pub notify_close : Bool
  pub hour : ℕ
  pub minute : ℕ
  pub second : ℕ
  pub now : ℕ
  pub started_at : ℕ
  pub can_spawn : Bool
  pub pick : ℕ
  pub read : Option (List ℕ)
  pub read_at : ℕ
  pub updated_at : ℕ
  pub before : List WorkerStep
  pub reading : List WorkerStep
  pub analysing : List WorkerStep

-- `connected` holds inside the inner loop. The counts are those of `framesSkipped` and of
-- `captureErrors`, by their reason.
pub record State : Type 0 where
  pub connected : Bool
  pub capturer : StreamCapturer
  pub detector : MacroblockDetector
  pub pipeline : Pipeline
  pub last_sent_time : Option ℕ
  pub last_motion_time : Option ℕ
  pub last_motion_box : Option MotionBox
  pub seq_counter : ℕ
  pub captured : ℕ
  pub rate_limit : ℕ
  pub lighting_shift : ℕ
  pub duplicate : ℕ
  pub start_error : ℕ
  pub network_sync_lost : ℕ

-- `capturer.Stop()` and `detector.Reset()`.
unfoldable pub stop_capture : State → State
stop_capture s = record s { capturer = stop s.capturer; detector = reset s.detector }

abbrev pub release : FrameItem → State → State
release item s = record s { pipeline = release_frame item s.pipeline }

module _ (fl : Floats) (cfg : Config) (codecs : Codecs) (r : Round) where
  abbrev pub work : List WorkerStep → State → State
  work ws s = record s { pipeline = worker_steps cfg codecs ws s.pipeline }

  -- now.Sub(last), of a time that is not zero
  unfoldable pub is_too_early : Option ℕ → Bool
  is_too_early none = false
  is_too_early (some last_sent_time) = ltb_ℤ (sub_ℕ r.now last_sent_time) (fl.interval cfg.fps)

  unfoldable pub is_recent : Option ℕ → Bool
  is_recent none = false
  is_recent (some last_motion_time) =
      not (ltb_ℤ cfg.post_roll_duration (sub_ℕ r.now last_motion_time))

  -- `if motion.MotionBox != nil`
  abbrev pub box_or : Option MotionBox → Option MotionBox → Option MotionBox
  box_or none last = last
  box_or (some box) last = some box

  abbrev pub count_submitted : Bool × Pipeline → State → State
  count_submitted (true, p) s = record s { pipeline = p; last_sent_time = some r.now }
  count_submitted (false, p) s = record s { pipeline = p }

  -- The frame with what the loop writes into it.
  abbrev pub stamped : FrameItem → MotionResult → Bool → State → FrameItem
  stamped item motion in_post_roll s = record item {
    timestamp = r.now;
    sequence = s.seq_counter + 1;
    is_post_roll = in_post_roll;
    motion_box = box_or motion.motion_box s.last_motion_box;
  }

  unfoldable pub dispatch_frame : FrameItem → MotionResult → Bool → State → State
  dispatch_frame item motion in_post_roll s =
      count_submitted (submit (stamped item motion in_post_roll s) s.pipeline)
        (record s { seq_counter = s.seq_counter + 1 })

  abbrev pub remember_motion : MotionResult → State → State
  remember_motion motion s =
      if motion.has_motion
      then record s { last_motion_time = some r.now; last_motion_box = motion.motion_box }
      else s

  unfoldable pub follow_motion : FrameItem → MotionResult → State → State
  follow_motion item motion s =
      let in_post_roll = not motion.has_motion && is_recent s.last_motion_time in
      if motion.has_motion || in_post_roll
      then dispatch_frame item motion in_post_roll s
      else record (release item s) { duplicate = s.duplicate + 1; last_sent_time = some r.now }

  -- What is done with a frame behind its analysis.
  unfoldable pub judge_frame : FrameItem → MotionResult → State → State
  judge_frame item motion s =
      if motion.is_lighting_shift
      then record (release item s) {
        lighting_shift = s.lighting_shift + 1;
        last_sent_time = some r.now;
      }
      else follow_motion item motion (remember_motion motion s)

  abbrev pub analysed :
      FrameItem → Option (MotionResult × MacroblockDetector) → State → Option State
  analysed item none s = none
  analysed item (some (motion, detector)) s =
      some (judge_frame item motion (work r.analysing (record s { detector = detector })))

  unfoldable pub handle_frame : FrameItem → State → Option State
  handle_frame item s =
      if is_too_early s.last_sent_time
      then some (release item (record s { rate_limit = s.rate_limit + 1 }))
      else analysed item (analyze fl s.detector (take (y_size cfg) item.bytes)) s

  abbrev pub update_snapshot : List ℕ → Pipeline → Pipeline
  update_snapshot bytes p = record p { snapshot_mgr = update_raw bytes r.updated_at p.snapshot_mgr }

  -- `ReadFrame` into the buffer, and what follows. What a failed read leaves in the buffer is read by
  -- nobody, so the buffer stays as it was.
  unfoldable pub read_frame : Option (List ℕ) → FrameItem → State → Option State
  read_frame none item s =
      some (stop_capture (record (release item s) { network_sync_lost = s.network_sync_lost + 1 }))
  read_frame (some bytes) item s =
      handle_frame (record item { bytes = bytes })
        (record s {
          capturer = frame_read r.read_at s.capturer;
          pipeline = update_snapshot bytes s.pipeline;
          captured = s.captured + 1;
        })

  abbrev pub with_frame : FrameItem × Pipeline → State → Option State
  with_frame (item, p) s = read_frame r.read item (work r.reading (record s { pipeline = p }))

  abbrev pub started : Bool × StreamCapturer → State → Option State
  started (false, c) s = some (record s { capturer = c; start_error = s.start_error + 1 })
  started (true, c) s = with_frame (acquire_frame cfg r.pick s.pipeline) (record s { capturer = c })

  -- One run through the inner loop. When the broker is gone, the capture is stopped in it and again
  -- behind it.
  unfoldable pub iterate : State → Option State
  iterate s =
      if r.notify_close
      then some (stop_capture (record (stop_capture s) { connected = false }))
      else if is_within_time_frame cfg r.hour r.minute r.second
      then started (start r.started_at r.can_spawn s.capturer) s
      else some (stop_capture s)

  unfoldable pub round : State → Option State
  round s = if s.connected then iterate s else some (record s { connected = r.connect })

  unfoldable pub step : State → Option State
  step s = round (work r.before s)

unfoldable pub run : Floats → Config → Codecs → List Round → State → Option State
run fl cfg codecs [] s = some s
run fl cfg codecs (r ∷ rs) s = elim (step fl cfg codecs r s) [
  | none ↦ none
  | some t ↦ run fl cfg codecs rs t
]

abbrev pub new_pipeline : Config → Pipeline
new_pipeline cfg = record {
  snapshot_mgr = record {
    jpeg_bytes = [];
    raw_frame = replicate (frame_size cfg) 0;
    updated_at = none;
  };
  frame_pool = [];
  made = 0;
  frame_chan = [];
  working = none;
  backpressure = 0;
  outcomes = [];
}

abbrev pub init : Config → MacroblockDetector → State
init cfg detector = record {
  connected = false;
  capturer = new_stream_capturer;
  detector = detector;
  pipeline = new_pipeline cfg;
  last_sent_time = none;
  last_motion_time = none;
  last_motion_box = none;
  seq_counter = 0;
  captured = 0;
  rate_limit = 0;
  lighting_shift = 0;
  duplicate = 0;
  start_error = 0;
  network_sync_lost = 0;
}

-- The program, as far as the rounds go.
unfoldable pub ingest : Floats → Config → Codecs → List Round → Option State
ingest fl cfg codecs rs = elim (new_macroblock_detector cfg) [
  | none ↦ none
  | some detector ↦ run fl cfg codecs rs (init cfg detector)
]
