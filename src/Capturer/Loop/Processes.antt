-- ===== src/Capturer/Loop/Processes.antt =====
-- How many processes of ffmpeg run (microservices/frame_capturer/frame_capturer.py).
use intruder_watch.Capturer.Pipe.{Pipe, read_frame}
use intruder_watch.Str.{Text}
use intruder_watch.Capturer.Loop.{
  Config, Vision, Event, started, killed, terminated, Round, State, if_pipe, kill_pipe, read_pipe,
  with_read, start_ffmpeg, handle_frame, count_captured, finish, step, run,
}
use intruder_watch.Capturer.Loop.Frame.{handle_frame-Relates}
use intruder_watch.Capturer.Loop.Invariant.{step-Keeps}
use intruder_watch.Capturer.Pipe.{Pipe}
use intruder_watch.Base.Action.{Action, when}
use intruder_watch.Base.Result.{Result-cases}
use intruder_watch.Base.Counts.{Silent, one_if}
use intruder_watch.Base.Keeps.{Keeps}
use intruder_watch.Str.{Text}
use intruder_watch.Base.{
  ℕ, suc, ◌+◌, ◌≡◌, refl, sym, ◌∙◌, ap, arith, Bool, true, false, not, Option, none, some, List, [],
  ◌∷◌, inl, inr,
}

-- The processes that were started, and those that were ended.
abbrev pub starts : List Event → ℕ
starts [] = 0
starts (started ∷ es) = suc (starts es)
starts (_ ∷ es) = starts es

abbrev pub ends : List Event → ℕ
ends [] = 0
ends (killed ∷ es) = suc (ends es)
ends (terminated ∷ es) = suc (ends es)
ends (_ ∷ es) = ends es

abbrev pub open_pipes : {A : Type 0} → Option A → ℕ
open_pipes none = 0
open_pipes (some p) = 1

-- The pipe is the one process that runs, and `ffmpeg_running` says whether there is one.
abbrev pub IsTidy : {Gray : Type 0} → State Gray → Type 0
IsTidy s =
    (starts s.events ≡ ends s.events + open_pipes s.pipe)
    × (one_if s.ffmpeg_running ≡ open_pipes s.pipe)

module _ {Gray : Type 0} where
  abbrev pub processes : State Gray → ℕ × ℕ × ℕ × Bool
  processes s = (starts s.events, ends s.events, open_pipes s.pipe, s.ffmpeg_running)

  -- What leaves the processes as they are keeps them tidy.
  Silent-IsTidy : {A : Type 0} (m : Action (State Gray) A) → Silent processes m → Keeps IsTidy m
  Silent-IsTidy m h s (a, b) =
      let e = h s in
      let e0 : starts (m s).1.events ≡ starts s.events = ap (λ p. p.0) e in
      let e1 : ends (m s).1.events ≡ ends s.events = ap (λ p. p.1) e in
      let e2 : open_pipes (m s).1.pipe ≡ open_pipes s.pipe = ap (λ p. p.2) e in
      (omega arith, ap (λ p. one_if p.3) e ∙ b ∙ sym e2)

  kill_pipe-IsTidy : (s : State Gray) → IsTidy s → IsTidy (kill_pipe s)
  kill_pipe-IsTidy s (a, b) = go s.pipe a
    where
      go :
          (p : Option Pipe)
          → starts s.events ≡ ends s.events + open_pipes p
          → (starts (if_pipe killed p s.events) ≡ ends (if_pipe killed p s.events) + 0)
            × (one_if false ≡ 0)
      go none a = (a, refl)
      go (some p) a = (omega arith, refl)

  finish-IsTidy : (s : State Gray) → IsTidy s → IsTidy (finish s)
  finish-IsTidy s (a, b) = go s.pipe a
    where
      go :
          (p : Option Pipe)
          → starts s.events ≡ ends s.events + open_pipes p
          → (starts (if_pipe terminated p s.events) ≡ ends (if_pipe terminated p s.events) + 0)
            × (one_if false ≡ 0)
      go none a = (a, refl)
      go (some p) a = (omega arith, refl)

  read_pipe-IsTidy :
      (n : ℕ) (p : Option Pipe) (s : State Gray)
      → s.pipe ≡ p
      → IsTidy s
      → IsTidy (read_pipe n p s).1
  unfolding read_pipe
  read_pipe-IsTidy n none s e h = h
  read_pipe-IsTidy n (some p) s e (a, b) = go (read_frame n p)
    where
      go : (o : Option (Text × Pipe)) → IsTidy (with_read o s).1
      go none = (a, b)
      go (some (raw_frame, rest)) = (rw e at a, rw e at b)

module _ {Gray : Type 0} (cfg : Config) (vision : Vision Gray) (r : Round) where
  handle_frame-IsTidy : (raw_frame : Text) → Keeps IsTidy (handle_frame cfg vision r raw_frame)
  handle_frame-IsTidy raw_frame = Silent-IsTidy (handle_frame cfg vision r raw_frame) (
      handle_frame-Relates cfg vision r processes (λ v w. w ≡ v) (λ v. refl) (λ gray s. refl)
        (λ s. refl) (λ s. refl) (λ b s. refl) raw_frame (λ s. refl))

  -- A process is started only where none runs.
  start_ffmpeg-IsTidy :
      (s : State Gray)
      → IsTidy s
      → s.ffmpeg_running ≡ false
      → IsTidy (start_ffmpeg cfg vision r s).1
  unfolding start_ffmpeg
  start_ffmpeg-IsTidy s (a, b) idle =
      let closed : open_pipes s.pipe ≡ 0 = sym b ∙ ap one_if idle in
      elim (Result-cases r.popen) [
        | inl (e, bad) ↦ rw bad (a, b)
        | inr (p, good) ↦ rw good (omega arith, refl)
      ]

  start_if-IsTidy :
      (b : Bool) (s : State Gray)
      → s.ffmpeg_running ≡ b
      → IsTidy s
      → IsTidy (when (not b) (start_ffmpeg cfg vision r) s).1
  start_if-IsTidy true s e h = h
  start_if-IsTidy false s e h = start_ffmpeg-IsTidy s h e

  step-IsTidy : (s : State Gray) → IsTidy s → IsTidy (step cfg vision r s)
  step-IsTidy =
      step-Keeps cfg vision r IsTidy (λ s. start_if-IsTidy s.ffmpeg_running s refl)
        (λ s. read_pipe-IsTidy cfg.frame_size s.pipe s refl)
        (λ raw_frame s. handle_frame-IsTidy raw_frame (count_captured cfg vision r s)) (λ s h. h)
        kill_pipe-IsTidy (λ s h. h) (λ s h. h) finish-IsTidy

-- From a state in which this holds, as in the first one, and whatever the rounds meet: of the
-- processes of ffmpeg that were started, `kill` or `terminate` has been called for all but the one of
-- the current pipe, of which there is at most one, and `ffmpeg_running` says whether there is one.
pub run-IsTidy :
    {Gray : Type 0} (cfg : Config) (vision : Vision Gray) (rs : List Round) (s : State Gray)
    → IsTidy s
    → IsTidy (run cfg vision rs s)
unfolding run
run-IsTidy cfg vision [] s h = h
run-IsTidy cfg vision (r ∷ rs) s h =
    run-IsTidy cfg vision rs (step cfg vision r s) (step-IsTidy cfg vision r s h)
