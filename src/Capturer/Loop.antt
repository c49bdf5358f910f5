-- ===== src/Capturer/Loop.antt =====
-- The loop of `capture_frames` (microservices/frame_capturer/frame_capturer.py). Its state machine
-- is one step for each round of the inner `while`. What the operating system, RabbitMQ and OpenCV
-- answer in a round is given with the round.
pub mod Frame
pub mod Invariant
pub mod Handled
pub mod Account
pub mod Processes
pub mod Spacing
use intruder_watch.Capturer.Window.{is_within_time_frame}
use intruder_watch.Capturer.Pipe.{Pipe, read_frame}
use intruder_watch.Str.{Text}
use intruder_watch.Base.{
  ℕ, ◌+◌, ◌*◌, ◌==◌, not, true, false, Bool, Option, none, some, List, [], ◌∷◌, ltb, length,
  if◌then◌else◌,
}
use intruder_watch.Base.Result.{Result, ok, err, attribute_error, other_error}
use intruder_watch.Base.Action.{Action, gets, modify, lift, pure, when, catch, ◌>>=◌, ◌>>◌}

-- `fps` is not 0, with which the program raises in front of the loop, at `1.0 / FPS`; `frame_size` is
-- FRAME_WIDTH * FRAME_HEIGHT * 3; the window is in microseconds since midnight.
pub record Config : Type 0 where
  pub fps : ℕ
  pub frame_size : ℕ
  pub start_time : ℕ
  pub end_time : ℕ

-- What is used of OpenCV, of hashlib and of base64. A frame is the text of its bytes.
pub record Vision (Gray : Type 0) : Type 0 where
  pub to_gray : Text → Result Gray
  -- `mse < MOTION_THRESHOLD`, of the current frame and the last
  pub is_still : Gray → Gray → Result Bool
  -- `imencode`, where none is no success
  pub imencode : Text → Result (Option Text)
  pub sha256 : Text → Text
  pub b64encode : Text → Text

-- `killed` is a call of `pipe.kill`, `terminated` one of `pipe.terminate`.
pub data Event : Type 0 where
  started : Event
  killed : Event
  terminated : Event
  network_sync_lost : Event
  encoding_failed : Event
  exception : Event
  -- the time, the hash and the image
  sent : ℕ → Text → Text → Event

-- What a round meets: the clocks, and what its calls end with. A new process of ffmpeg comes with
-- all that it will write.
pub record Round : Type 0 where
  pub time_of_day : ℕ
  pub now : ℕ
  pub connect : Result (Unit {0})
  pub popen : Result Pipe
  pub publish : Result (Unit {0})

-- `connected` holds from `connect_rabbitmq` to the `finally`.
pub record State (Gray : Type 0) : Type 0 where
  pub last_sent_time : ℕ
  pub last_frame_gray : Option Gray
  pub frames_captured : ℕ
  pub frames_sent : ℕ
  pub frames_duplicate : ℕ
  pub frames_skipped : ℕ
  pub pipe : Option Pipe
  pub ffmpeg_running : Bool
  pub connected : Bool
  pub events : List Event

abbrev pub init : {Gray : Type 0} → State Gray
init = record {
  last_sent_time = 0;
  last_frame_gray = none;
  frames_captured = 0;
  frames_sent = 0;
  frames_duplicate = 0;
  frames_skipped = 0;
  pipe = none;
  ffmpeg_running = false;
  connected = false;
  events = [];
}

-- Whether the inner loop goes on.
pub data Flow : Type 0 where
  go_on : Flow
  leave : Flow

abbrev pub if_pipe : Event → Option Pipe → List Event → List Event
if_pipe e none es = es
if_pipe e (some p) es = e ∷ es

module _ {Gray : Type 0} where
  abbrev pub emit : Event → State Gray → State Gray
  emit e s = record s { events = e ∷ s.events }

  -- `pipe.kill()` and `pipe.wait()`, whatever they end with, and the two assignments behind them.
  abbrev pub kill_pipe : State Gray → State Gray
  kill_pipe s = record s {
    pipe = none;
    ffmpeg_running = false;
    events = if_pipe killed s.pipe s.events;
  }

  -- The `finally`, in which the connection is closed too, whatever that ends with, and the two
  -- assignments with which the outer loop begins again.
  abbrev pub finish : State Gray → State Gray
  finish s = record s {
    pipe = none;
    ffmpeg_running = false;
    connected = false;
    events = if_pipe terminated s.pipe s.events;
  }

  abbrev pub after : Result Flow × State Gray → State Gray
  after (ok go_on, s) = s
  after (ok leave, s) = finish s
  after (err e, s) = finish (emit exception s)

  -- A loop of reads that did not end would not come back from the round; `read_frame` always ends.
  abbrev pub with_read : Option (Text × Pipe) → State Gray → Result Text × State Gray
  with_read none s = (err other_error, s)
  with_read (some (raw_frame, rest)) s = (ok raw_frame, record s { pipe = some rest })

  -- `pipe.stdout.read`, until the frame is whole.
  unfoldable pub read_pipe : ℕ → Option Pipe → State Gray → Result Text × State Gray
  read_pipe frame_size none s = (err attribute_error, s)
  read_pipe frame_size (some p) s = with_read (read_frame frame_size p) s

module _ {Gray : Type 0} (cfg : Config) (vision : Vision Gray) (r : Round) where
  unfoldable pub start_ffmpeg : Action (State Gray) (Unit {0})
  start_ffmpeg = do
    p ← lift r.popen
    modify (λ s. record s { pipe = some p; ffmpeg_running = true; events = started ∷ s.events })

  -- `now_ts - last_sent_time < (1.0 / FPS) * 0.9`, in microseconds
  unfoldable pub is_too_early : State Gray → Bool
  is_too_early s = ltb (r.now * cfg.fps) (s.last_sent_time * cfg.fps + 900000)

  unfoldable pub motionless : Gray → Option Gray → Result Bool
  motionless gray none = ok false
  motionless gray (some last) = vision.is_still gray last

  abbrev pub count_sent : Text → State Gray → State Gray
  count_sent byte_data s = record s {
    last_sent_time = r.now;
    frames_sent = s.frames_sent + 1;
    events = sent r.now (vision.sha256 byte_data) (vision.b64encode byte_data) ∷ s.events;
  }

  unfoldable pub publish_frame : Option Text → Action (State Gray) (Unit {0})
  publish_frame none = modify (emit encoding_failed)
  publish_frame (some byte_data) = lift r.publish >> modify (count_sent byte_data)

  abbrev pub count_duplicate : State Gray → State Gray
  count_duplicate s = record s { frames_duplicate = s.frames_duplicate + 1; last_sent_time = r.now }

  unfoldable pub send_frame : Text → Gray → Action (State Gray) (Unit {0})
  send_frame raw_frame gray = do
    modify (λ s. record s { last_frame_gray = some gray })
    img_encode ← lift (vision.imencode raw_frame)
    publish_frame img_encode

  -- The motion filter.
  unfoldable pub filter_motion : Text → Action (State Gray) (Unit {0})
  filter_motion raw_frame = do
    gray ← lift (vision.to_gray raw_frame)
    last ← gets (λ s. s.last_frame_gray)
    still ← lift (motionless gray last)
    if still then modify count_duplicate else send_frame raw_frame gray

  abbrev pub count_skipped : State Gray → State Gray
  count_skipped s = record s { frames_skipped = s.frames_skipped + 1 }

  -- What is done with a whole frame that has been counted.
  unfoldable pub handle_frame : Text → Action (State Gray) (Unit {0})
  handle_frame raw_frame = do
    too_early ← gets is_too_early
    if too_early then modify count_skipped else filter_motion raw_frame

  abbrev pub count_captured : State Gray → State Gray
  count_captured s = record s { frames_captured = s.frames_captured + 1 }

  unfoldable pub take_frame : Text → Action (State Gray) Flow
  take_frame raw_frame =
      if length raw_frame == cfg.frame_size
      then (modify count_captured >> (handle_frame raw_frame >> pure go_on))
      else (modify (emit network_sync_lost) >> (modify kill_pipe >> pure leave))

  unfoldable pub active_round : Action (State Gray) Flow
  active_round = do
    running ← gets (λ s. s.ffmpeg_running)
    when (not running) start_ffmpeg
    raw_frame ← (λ s. read_pipe cfg.frame_size s.pipe s)
    take_frame raw_frame

  unfoldable pub idle_round : Action (State Gray) Flow
  idle_round = do
    running ← gets (λ s. s.ffmpeg_running)
    when running (modify kill_pipe)
    pure go_on

  unfoldable pub round : Action (State Gray) Flow
  round =
      if is_within_time_frame r.time_of_day cfg.start_time cfg.end_time
      then active_round
      else idle_round

  -- What the outer loop does before the inner one.
  unfoldable pub begin : Action (State Gray) (Unit {0})
  begin = do lift r.connect; modify (λ s. record s { connected = true })

  unfoldable pub in_session : Action (State Gray) Flow
  in_session = do connected ← gets (λ s. s.connected); when (not connected) begin; round

  unfoldable pub step : State Gray → State Gray
  step s = after (in_session s)

-- The loop, as far as the rounds go.
unfoldable pub run : {Gray : Type 0} → Config → Vision Gray → List Round → State Gray → State Gray
run cfg vision [] s = s
run cfg vision (r ∷ rs) s = run cfg vision rs (step cfg vision r s)
