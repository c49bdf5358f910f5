-- ===== src/Capturer/Loop/Spacing.antt =====
-- How far apart the frames are sent (microservices/frame_capturer/frame_capturer.py).
use intruder_watch.Capturer.Pipe.{Pipe, read_frame}
use intruder_watch.Str.{Text}
use mathlib.Core.Path.{subst}
use intruder_watch.Capturer.Loop.{
  Config, Vision, Event, started, killed, terminated, Round, State, if_pipe, kill_pipe, read_pipe,
  with_read, start_ffmpeg, handle_frame, count_captured, finish, step, run, sent, is_too_early,
  filter_motion, init,
}
use intruder_watch.Capturer.Pipe.{Pipe}
use intruder_watch.Base.Action.{modify, lift, when}
use intruder_watch.Base.Counts.{Silent-bind, Relates}
use intruder_watch.Str.{Text}
use intruder_watch.Base.{
  ℕ, ◌+◌, ◌≡◌, refl, sym, arith, Bool, true, false, not, Option, none, some, List, [], ◌∷◌,
  Bool-cases, inl, inr, All, ◌*◌, ◌≤◌,
}
use intruder_watch.Capturer.Loop.Invariant.{step-Keeps}
use intruder_watch.Capturer.Loop.Frame.{filter_motion-Relates}
use intruder_watch.Base.{ltb_false→le}

-- The times at which a frame was sent, the newest first.
abbrev pub sent_times : List Event → List ℕ
sent_times [] = []
sent_times (sent t hash image ∷ es) = t ∷ sent_times es
sent_times (_ ∷ es) = sent_times es

-- Each time lies nine tenths of a frame's time or more behind every earlier one.
abbrev pub IsSpaced : ℕ → List ℕ → Type 0
IsSpaced fps [] = Unit
IsSpaced fps (t ∷ ts) = All (λ u. u * fps + 900000 ≤ t * fps) ts × IsSpaced fps ts

All-upto :
    (fps m n : ℕ) (ts : List ℕ)
    → m * fps ≤ n * fps
    → All (λ u. u * fps ≤ m * fps) ts
    → All (λ u. u * fps ≤ n * fps) ts
All-upto fps m n [] h a = tt
All-upto fps m n (t ∷ ts) h a = (omega arith, All-upto fps m n ts h a.1)

All-apart :
    (fps m n : ℕ) (ts : List ℕ)
    → m * fps + 900000 ≤ n * fps
    → All (λ u. u * fps ≤ m * fps) ts
    → All (λ u. u * fps + 900000 ≤ n * fps) ts
All-apart fps m n [] h a = tt
All-apart fps m n (t ∷ ts) h a = (omega arith, All-apart fps m n ts h a.1)

-- No frame was sent behind `last_sent_time`.
abbrev pub Paces : ℕ → ℕ × List ℕ → Type 0
Paces fps (last, ts) = All (λ u. u * fps ≤ last * fps) ts × IsSpaced fps ts

module _ {Gray : Type 0} where
  abbrev pub pace : State Gray → ℕ × List ℕ
  pace s = (s.last_sent_time, sent_times s.events)

  kill_pipe-pace : (s : State Gray) → pace (kill_pipe s) ≡ pace s
  kill_pipe-pace s = go s.pipe
    where
      go :
          (p : Option Pipe)
          → ◌≡◌ {A = ℕ × List ℕ} (s.last_sent_time, sent_times (if_pipe killed p s.events)) (pace s)
      go none = refl
      go (some p) = refl

  finish-pace : (s : State Gray) → pace (finish s) ≡ pace s
  finish-pace s = go s.pipe
    where
      go :
          (p : Option Pipe)
          → ◌≡◌ {A = ℕ × List ℕ}
              (s.last_sent_time, sent_times (if_pipe terminated p s.events))
              (pace s)
      go none = refl
      go (some p) = refl

  read_pipe-pace : (n : ℕ) (p : Option Pipe) (s : State Gray) → pace (read_pipe n p s).1 ≡ pace s
  unfolding read_pipe
  read_pipe-pace n none s = refl
  read_pipe-pace n (some p) s = go (read_frame n p)
    where
      go : (o : Option (Text × Pipe)) → pace (with_read o s).1 ≡ pace s
      go none = refl
      go (some (raw_frame, rest)) = refl

module _ {Gray : Type 0} (cfg : Config) (vision : Vision Gray) (r : Round) where
  start_ffmpeg-pace : (s : State Gray) → pace (start_ffmpeg cfg vision r s).1 ≡ pace s
  unfolding start_ffmpeg
  start_ffmpeg-pace s =
      Silent-bind pace (lift r.popen)
        (λ p.
          modify
            (λ s. record s { pipe = some p; ffmpeg_running = true; events = started ∷ s.events }))
        (λ s. refl) (λ p s. refl) s

  -- What the filters do, where a frame is not too early.
  abbrev Late : ℕ × List ℕ → ℕ × List ℕ → Type 0
  Late v w = v.0 * cfg.fps + 900000 ≤ r.now * cfg.fps → Paces cfg.fps v → Paces cfg.fps w

  filter_motion-Late : (raw_frame : Text) → Relates pace Late (filter_motion cfg vision r raw_frame)
  filter_motion-Late =
      filter_motion-Relates cfg vision r pace Late (λ v l h. h) (λ gray s. refl) (λ s l h. h)
        (λ s l h.
          (All-upto cfg.fps s.last_sent_time r.now (sent_times s.events) (omega arith) h.0, h.1))
        (λ b s l h. (
          (
            omega arith,
            All-upto cfg.fps s.last_sent_time r.now (sent_times s.events) (omega arith) h.0,
          ),
          (All-apart cfg.fps s.last_sent_time r.now (sent_times s.events) l h.0, h.1),
        ))

  handle_frame-Paces :
      (raw_frame : Text) (s : State Gray)
      → Paces cfg.fps (pace s)
      → Paces cfg.fps (pace (handle_frame cfg vision r raw_frame s).1)
  unfolding handle_frame
  handle_frame-Paces raw_frame s h = elim (Bool-cases (is_too_early cfg vision r s)) [
    | inl early ↦ rw early h
    | inr late ↦
        let apart : s.last_sent_time * cfg.fps + 900000 ≤ r.now * cfg.fps =
          unfold is_too_early in ltb_false→le _ _ late in
        rw late (filter_motion-Late raw_frame s apart h)
  ]

  abbrev IsPaced : State Gray → Type 0
  IsPaced s = Paces cfg.fps (pace s)

  moved : (s t : State Gray) → pace t ≡ pace s → IsPaced s → IsPaced t
  moved s t e h = subst (Paces cfg.fps) (sym e) h

  start_if-IsPaced :
      (b : Bool) (s : State Gray)
      → IsPaced s
      → IsPaced (when (not b) (start_ffmpeg cfg vision r) s).1
  start_if-IsPaced true s h = h
  start_if-IsPaced false s h = moved s (start_ffmpeg cfg vision r s).1 (start_ffmpeg-pace s) h

  step-IsPaced : (s : State Gray) → IsPaced s → IsPaced (step cfg vision r s)
  step-IsPaced =
      step-Keeps cfg vision r IsPaced (λ s. start_if-IsPaced s.ffmpeg_running s)
        (λ s.
          moved s (read_pipe cfg.frame_size s.pipe s).1 (read_pipe-pace cfg.frame_size s.pipe s))
        (λ raw_frame s. handle_frame-Paces raw_frame (count_captured cfg vision r s)) (λ s h. h)
        (λ s. moved s (kill_pipe s) (kill_pipe-pace s)) (λ s h. h) (λ s h. h)
        (λ s. moved s (finish s) (finish-pace s))

module _ {Gray : Type 0} (cfg : Config) (vision : Vision Gray) where
  run-IsPaced :
      (rs : List Round) (s : State Gray)
      → Paces cfg.fps (pace s)
      → Paces cfg.fps (pace (run cfg vision rs s))
  unfolding run
  run-IsPaced [] s h = h
  run-IsPaced (r ∷ rs) s h = run-IsPaced rs (step cfg vision r s) (step-IsPaced cfg vision r s h)

  -- Any two frames that are sent lie at least nine tenths of a frame's time at the configured rate
  -- apart, whatever the rounds meet, over reconnections and also where the clock is set back.
  pub run-IsSpaced :
      (rs : List Round) → IsSpaced cfg.fps (sent_times (run cfg vision rs init).events)
  run-IsSpaced rs = (run-IsPaced rs init (tt, tt)).1
