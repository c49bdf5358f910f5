-- ===== src/Capturer/Loop/Handled.antt =====
-- What becomes of one frame that is captured (microservices/frame_capturer/frame_capturer.py).
use intruder_watch.Base.Result.{ok}
use intruder_watch.Capturer.Pipe.{Pipe, read_frame}
use intruder_watch.Str.{Text}
use intruder_watch.Capturer.Pipe.Fill.{stream, read_frame-take}
use intruder_watch.Capturer.Loop.{
  Config, Vision, Event, killed, terminated, encoding_failed, exception, Round, State, if_pipe,
  kill_pipe, read_pipe, with_read, is_too_early, motionless, publish_frame, count_duplicate,
  send_frame, filter_motion, count_skipped, handle_frame, finish,
}
use intruder_watch.Capturer.Loop.Frame.{handle_frame-Relates, remember}
use intruder_watch.Capturer.Pipe.{Pipe}
use intruder_watch.Base.Action.{Action, gets, modify, lift, ◌>>=◌}
use intruder_watch.Base.Counts.{Silent, Adds, Adds-bind, Adds-if}
use intruder_watch.Str.{Text}
use intruder_watch.Base.{
  ℕ, suc, ◌+◌, ◌≡◌, refl, arith, Bool, false, Option, none, some, List, [], ◌∷◌, if◌then◌else◌,
  take,
}

-- The frames that could not be encoded, and the exceptions.
abbrev pub failures : List Event → ℕ
failures [] = 0
failures (encoding_failed ∷ es) = suc (failures es)
failures (_ ∷ es) = failures es

abbrev pub exceptions : List Event → ℕ
exceptions [] = 0
exceptions (exception ∷ es) = suc (exceptions es)
exceptions (_ ∷ es) = exceptions es

module _ {Gray : Type 0} where
  -- The frames whose end is counted.
  abbrev pub accounted : State Gray → ℕ
  accounted s = s.frames_sent + s.frames_duplicate + s.frames_skipped + failures s.events

  -- What the rest of a round leaves as it is while a frame is handled, and otherwise.
  abbrev pub others : State Gray → ℕ × ℕ
  others s = (s.frames_captured, exceptions s.events)

  abbrev pub counts : State Gray → ℕ × ℕ × ℕ
  counts s = (s.frames_captured, accounted s, exceptions s.events)

  pub kill_pipe-counts : (s : State Gray) → counts (kill_pipe s) ≡ counts s
  kill_pipe-counts s = go s.pipe
    where
      go :
          (p : Option Pipe)
          → counts
              (record s { pipe = none; ffmpeg_running = false; events = if_pipe killed p s.events })
            ≡ counts s
      go none = refl
      go (some p) = refl

  pub finish-counts : (s : State Gray) → counts (finish s) ≡ counts s
  finish-counts s = go s.pipe
    where
      go :
          (p : Option Pipe)
          → counts (record s {
            pipe = none;
            ffmpeg_running = false;
            connected = false;
            events = if_pipe terminated p s.events;
          })
            ≡ counts s
      go none = refl
      go (some p) = refl

  pub read_pipe-Silent : (n : ℕ) (p : Option Pipe) → Silent counts (read_pipe n p)
  unfolding read_pipe
  read_pipe-Silent n none s = refl
  read_pipe-Silent n (some p) s = with_read-counts (read_frame n p)
    where
      with_read-counts : (o : Option (Text × Pipe)) → counts (with_read o s).1 ≡ counts s
      with_read-counts none = refl
      with_read-counts (some (raw_frame, rest)) = refl

  -- A round reads what the stream begins with, whatever the pieces.
  pub read_pipe-take :
      (n : ℕ) (p : Pipe) (s : State Gray)
      → (rest : Pipe) × (read_pipe n (some p) s
          ≡ (ok (take n (stream p)), record s { pipe = some rest }))
  unfolding read_pipe
  read_pipe-take n p s =
      let (raw_frame, rest, found, first, left) = read_frame-take n p in
      (rest, rw (found, first) refl)

module _ {Gray : Type 0} (cfg : Config) (vision : Vision Gray) (r : Round) where
  publish_frame-Adds : (o : Option Text) → Adds accounted (publish_frame cfg vision r o)
  unfolding publish_frame
  publish_frame-Adds none s = omega arith
  publish_frame-Adds (some byte_data) s = ground arith

  abbrev encode : Text → Action (State Gray) (Unit {0})
  encode raw_frame = lift (vision.imencode raw_frame) >>= publish_frame cfg vision r

  send_frame-Adds :
      (raw_frame : Text) (gray : Gray) → Adds accounted (send_frame cfg vision r raw_frame gray)
  unfolding send_frame
  send_frame-Adds raw_frame gray =
      Adds-bind accounted (modify (remember gray)) (λ u. encode raw_frame) (λ s. refl)
        λ u.
          Adds-bind accounted (lift (vision.imencode raw_frame)) (publish_frame cfg vision r)
            (λ s. refl) publish_frame-Adds

  -- Behind the gray frame, and behind the test for motion.
  abbrev decided : Text → Gray → Bool → Action (State Gray) (Unit {0})
  decided raw_frame gray still =
      if still
      then modify (count_duplicate cfg vision r)
      else send_frame cfg vision r raw_frame gray

  abbrev grayed : Text → Gray → Action (State Gray) (Unit {0})
  grayed raw_frame gray = do
    last ← gets (λ s. s.last_frame_gray)
    still ← lift (motionless cfg vision r gray last)
    decided raw_frame gray still

  filter_motion-Adds : (raw_frame : Text) → Adds accounted (filter_motion cfg vision r raw_frame)
  unfolding filter_motion
  filter_motion-Adds raw_frame =
      Adds-bind accounted (lift (vision.to_gray raw_frame)) (grayed raw_frame) (λ s. refl)
        λ gray s.
          Adds-bind accounted (lift (motionless cfg vision r gray s.last_frame_gray))
            (decided raw_frame gray) (λ s. refl)
            (λ still.
              Adds-if accounted still (modify (count_duplicate cfg vision r))
                (send_frame cfg vision r raw_frame gray) (λ s. omega arith)
                (send_frame-Adds raw_frame gray))
            s

  pub handle_frame-Adds : (raw_frame : Text) → Adds accounted (handle_frame cfg vision r raw_frame)
  unfolding handle_frame
  handle_frame-Adds raw_frame s =
      Adds-if accounted (is_too_early cfg vision r s) (modify (count_skipped cfg vision r))
        (filter_motion cfg vision r raw_frame) (λ s. omega arith) (filter_motion-Adds raw_frame) s

  pub handle_frame-Silent : (raw_frame : Text) → Silent others (handle_frame cfg vision r raw_frame)
  handle_frame-Silent raw_frame =
      handle_frame-Relates cfg vision r others (λ v w. w ≡ v) (λ v. refl) (λ gray s. refl)
        (λ s. refl) (λ s. refl) (λ b s. refl) raw_frame (λ s. refl)
