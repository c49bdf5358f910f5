-- ===== src/Capturer/Tests.antt =====
-- The capturer at concrete rounds: frames of two bytes, whose gray picture is the first.
use intruder_watch.Capturer.Loop.{
  Config, Vision, Round, State, init, run, step, in_session, round, active_round, idle_round, begin,
  start_ffmpeg, read_pipe, take_frame, handle_frame, is_too_early, filter_motion, motionless,
  send_frame, publish_frame,
}
use intruder_watch.Capturer.Loop.Account.{run-IsAccounted}
use intruder_watch.Capturer.Loop.Handled.{failures, exceptions}
use intruder_watch.Capturer.Loop.Processes.{IsTidy, run-IsTidy}
use intruder_watch.Capturer.Loop.Spacing.{IsSpaced, sent_times, run-IsSpaced}
use intruder_watch.Capturer.Pipe.{Pipe, read_frame, fill, read}
use intruder_watch.Capturer.Pipe.Fill.{stream, read_frame-take}
use intruder_watch.Capturer.Window.{is_within_time_frame}
use intruder_watch.Capturer.Window.Cyclic.{since, is_within_time_frame-since}
use intruder_watch.Base.Result.{Result, ok, err, other_error, index_error}
use intruder_watch.Str.{Text}
use intruder_watch.Base.{ℕ, ◌+◌, ◌≤◌, ◌≡◌, refl, arith, List, [], ◌∷◌, some, ◌==◌, leb, take, drop}

abbrev config : Config
config = record { fps = 4; frame_size = 2; start_time = 79200000000; end_time = 21600000000 }

abbrev first_byte : Text → Result ℕ
first_byte [] = err index_error
first_byte (b ∷ bs) = ok b

abbrev vision : Vision ℕ
vision = record {
  to_gray = first_byte;
  is_still = λ a b. ok (a == b);
  imencode = λ s. ok (some s);
  sha256 = λ s. s;
  b64encode = λ s. s;
}

-- Three frames in pieces, and a fourth that is cut off.
abbrev pieces : Pipe
pieces = (1 ∷ []) ∷ (0 ∷ 2 ∷ 0 ∷ []) ∷ (2 ∷ 7 ∷ []) ∷ (3 ∷ []) ∷ []

abbrev round_at : ℕ → Round
round_at t = record {
  time_of_day = 0;
  now = t;
  connect = ok tt;
  popen = ok pieces;
  publish = ok tt;
}

abbrev refused : ℕ → Round
refused t = record {
  time_of_day = 0;
  now = t;
  connect = ok tt;
  popen = ok pieces;
  publish = err other_error;
}

abbrev noon : Round
noon = record {
  time_of_day = 43200000000;
  now = 9000000;
  connect = ok tt;
  popen = ok pieces;
  publish = ok tt;
}

abbrev night : List Round
night =
    round_at 1000000
    ∷ round_at 1100000
    ∷ round_at 2000000
    ∷ round_at 3000000
    ∷ refused 4000000
    ∷ round_at 5000000
    ∷ noon
    ∷ []

abbrev last : State ℕ
last = run config vision night init

what_is_counted :
    (last.frames_captured ≡ 5)
    × (last.frames_sent ≡ 2)
    × (last.frames_skipped ≡ 1)
    × (last.frames_duplicate ≡ 1)
    × (exceptions last.events ≡ 1)
unfolding run step in_session round active_round idle_round begin is_within_time_frame start_ffmpeg
    read_pipe read_frame fill read take_frame handle_frame is_too_early filter_motion motionless
    send_frame publish_frame
what_is_counted = (refl, refl, refl, refl, refl)

is_within_time_frame-since_example :
    is_within_time_frame 3600000000 79200000000 21600000000
    ≡ leb (since 79200000000 3600000000) (since 79200000000 21600000000)
is_within_time_frame-since_example =
    is_within_time_frame-since 3600000000 79200000000 21600000000 (omega arith) (omega arith)
      (omega arith)

read_frame-take_example :
    (raw_frame : Text) × (rest : Pipe) × (read_frame 2 pieces ≡ some (raw_frame, rest))
    × (raw_frame ≡ take 2 (stream pieces))
    × (stream rest ≡ drop 2 (stream pieces))
read_frame-take_example = read_frame-take 2 pieces

run-IsAccounted_example :
    (last.frames_sent + last.frames_duplicate + last.frames_skipped + failures last.events
      ≤ last.frames_captured)
    × (last.frames_captured
        ≤ last.frames_sent
          + last.frames_duplicate
          + last.frames_skipped
          + failures last.events
          + exceptions last.events)
run-IsAccounted_example = run-IsAccounted config vision night

run-IsTidy_example : IsTidy last
run-IsTidy_example = run-IsTidy config vision night init (refl, refl)

run-IsSpaced_example : IsSpaced 4 (sent_times last.events)
run-IsSpaced_example = run-IsSpaced config vision night
