-- ===== src/Capturer/Loop/Account.antt =====
-- What becomes of the frames that are captured (microservices/frame_capturer/frame_capturer.py).
use intruder_watch.Capturer.Window.{is_within_time_frame}
use intruder_watch.Capturer.Loop.{
  Config, Vision, started, network_sync_lost, exception, Round, State, init, Flow, go_on, leave,
  emit, kill_pipe, read_pipe, start_ffmpeg, handle_frame, count_captured, take_frame, active_round,
  idle_round, round, begin, in_session, finish, after, step, run,
}
use intruder_watch.Base.Action.{Action, modify, lift, pure, when, ◌>>=◌}
use intruder_watch.Base.Result.{Result, ok, err, is_ok}
use intruder_watch.Base.Counts.{Silent, Silent-bind, Silent-if, one_if}
use intruder_watch.Str.{Text}
use intruder_watch.Base.{
  suc, ◌+◌, ◌≤◌, ◌≡◌, refl, arith, true, not, some, List, [], ◌∷◌, Bool-cases, inl, inr, ap, length,
  ◌==◌,
}
use intruder_watch.Capturer.Loop.Handled.{
  failures, exceptions, accounted, others, counts, kill_pipe-counts, finish-counts,
  read_pipe-Silent, handle_frame-Adds, handle_frame-Silent,
}

module _ {Gray : Type 0} (cfg : Config) (vision : Vision Gray) (r : Round) where
  -- An action counts what it captures, and at most one frame is lost, where it raises.
  abbrev Accounts : {A : Type 0} → State Gray → Result A × State Gray → Type 0
  Accounts s (x, t) =
      (s.frames_captured + accounted t ≤ t.frames_captured + accounted s)
      × (t.frames_captured + accounted s + one_if (is_ok x) ≤ s.frames_captured + accounted t + 1)
      × (exceptions t.events ≡ exceptions s.events)

  Accounts-bind :
      {A B : Type 0} (m : Action (State Gray) A) (f : A → Action (State Gray) B)
      → Silent counts m
      → ((a : A) (s : State Gray) → Accounts s (f a s))
      → (s : State Gray) → Accounts s ((m >>= f) s)
  Accounts-bind {A} {B} m f hm hf s = go (m s).0 (hm s)
    where
      go :
          (x : Result A)
          → counts (m s).1 ≡ counts s
          → Accounts s (elim x as (λ x. Result B × State Gray) [
            | ok a ↦ f a (m s).1
            | err e ↦ (err e, (m s).1)
          ])
      go (ok a) k =
          let (p, q, e) = hf a (m s).1 in
          let captured : (m s).1.frames_captured ≡ s.frames_captured = ap (λ c. c.0) k in
          let same : accounted (m s).1 ≡ accounted s = ap (λ c. c.1) k in
          let raised : exceptions (m s).1.events ≡ exceptions s.events = ap (λ c. c.2) k in
          (omega arith, omega arith, omega arith)
      go (err e) k =
          let captured : (m s).1.frames_captured ≡ s.frames_captured = ap (λ c. c.0) k in
          let same : accounted (m s).1 ≡ accounted s = ap (λ c. c.1) k in
          (omega arith, omega arith, ap (λ c. c.2) k)

  counted :
      (s t : State Gray) (x : Result (Unit {0}))
      → accounted t ≡ accounted s + one_if (is_ok x)
      → others t ≡ (s.frames_captured + 1, exceptions s.events)
      → Accounts s
          (elim x as (λ x. Result Flow × State Gray) [ ok u ↦ (ok go_on, t) | err e ↦ (err e, t) ])
  counted s t (ok u) h k =
      let captured : t.frames_captured ≡ s.frames_captured + 1 = ap (λ c. c.0) k in
      (omega arith, omega arith, ap (λ c. c.1) k)
  counted s t (err e) h k =
      let captured : t.frames_captured ≡ s.frames_captured + 1 = ap (λ c. c.0) k in
      (omega arith, omega arith, ap (λ c. c.1) k)

  take_frame-Accounts :
      (raw_frame : Text) (s : State Gray) → Accounts s (take_frame cfg vision r raw_frame s)
  unfolding take_frame
  take_frame-Accounts raw_frame s = elim (Bool-cases (length raw_frame == cfg.frame_size)) [
    | inl whole ↦
        let t = count_captured cfg vision r s in
        rw whole (
          counted s (handle_frame cfg vision r raw_frame t).1
            (handle_frame cfg vision r raw_frame t).0 (handle_frame-Adds cfg vision r raw_frame t)
            (handle_frame-Silent cfg vision r raw_frame t))
    | inr short ↦
        let k : counts (kill_pipe (emit network_sync_lost s)) ≡ counts s =
          kill_pipe-counts (emit network_sync_lost s) in
        let captured : (kill_pipe (emit network_sync_lost s)).frames_captured ≡ s.frames_captured =
          ap (λ c. c.0) k in
        let same : accounted (kill_pipe (emit network_sync_lost s)) ≡ accounted s =
          ap (λ c. c.1) k in
        rw short (omega arith, omega arith, ap (λ c. c.2) k)
  ]

  -- The calls before a frame is there.
  start_ffmpeg-Silent : Silent counts (start_ffmpeg cfg vision r)
  unfolding start_ffmpeg
  start_ffmpeg-Silent =
      Silent-bind counts (lift r.popen)
        (λ p.
          modify
            (λ s. record s { pipe = some p; ffmpeg_running = true; events = started ∷ s.events }))
        (λ s. refl) (λ p s. refl)

  abbrev reading : Action (State Gray) Text
  reading s = read_pipe cfg.frame_size s.pipe s

  active_round-Accounts : (s : State Gray) → Accounts s (active_round cfg vision r s)
  unfolding active_round
  active_round-Accounts s =
      let from_pipe = reading >>= take_frame cfg vision r in
      Accounts-bind (when (not s.ffmpeg_running) (start_ffmpeg cfg vision r)) (λ u. from_pipe)
        (Silent-if counts (not s.ffmpeg_running) (start_ffmpeg cfg vision r) (pure tt)
          start_ffmpeg-Silent (λ s. refl))
        (λ u.
          Accounts-bind reading (take_frame cfg vision r)
            (λ s. read_pipe-Silent cfg.frame_size s.pipe s) take_frame-Accounts)
        s

  idle_round-Accounts : (s : State Gray) → Accounts s (idle_round cfg vision r s)
  unfolding idle_round
  idle_round-Accounts s =
      Accounts-bind (when s.ffmpeg_running (modify kill_pipe)) (λ u. pure go_on)
        (Silent-if counts s.ffmpeg_running (modify kill_pipe) (pure tt) kill_pipe-counts
          (λ s. refl))
        (λ u s. (omega arith, omega arith, refl)) s

  round-Accounts : (s : State Gray) → Accounts s (round cfg vision r s)
  unfolding round
  round-Accounts s =
      elim (Bool-cases (is_within_time_frame r.time_of_day cfg.start_time cfg.end_time)) [
        | inl active ↦ rw active (active_round-Accounts s)
        | inr idle ↦ rw idle (idle_round-Accounts s)
      ]

  begin-Silent : Silent counts (begin cfg vision r)
  unfolding begin
  begin-Silent s =
      Silent-bind counts (lift r.connect) (λ u. modify (λ s. record s { connected = true }))
        (λ s. refl) (λ u s. refl) s

  in_session-Accounts : (s : State Gray) → Accounts s (in_session cfg vision r s)
  unfolding in_session
  in_session-Accounts s =
      Accounts-bind (when (not s.connected) (begin cfg vision r)) (λ u. round cfg vision r)
        (Silent-if counts (not s.connected) (begin cfg vision r) (pure tt) begin-Silent (λ s. refl))
        (λ u. round-Accounts) s

-- No frame is accounted for twice, and each that is not ended with an exception.
abbrev pub IsAccounted : {Gray : Type 0} → State Gray → Type 0
IsAccounted s =
    (accounted s ≤ s.frames_captured) × (s.frames_captured ≤ accounted s + exceptions s.events)

after-IsAccounted :
    {Gray : Type 0} (s : State Gray) (x : Result Flow) (t : State Gray)
    → (s.frames_captured + accounted t ≤ t.frames_captured + accounted s)
    → (t.frames_captured + accounted s + one_if (is_ok x) ≤ s.frames_captured + accounted t + 1)
    → exceptions t.events ≡ exceptions s.events
    → IsAccounted s
    → IsAccounted (after (x, t))
after-IsAccounted s (ok go_on) t p q e (a, b) = (omega arith, omega arith)
after-IsAccounted s (ok leave) t p q e (a, b) =
    let k = finish-counts t in
    let captured : (finish t).frames_captured ≡ t.frames_captured = ap (λ c. c.0) k in
    let same : accounted (finish t) ≡ accounted t = ap (λ c. c.1) k in
    let raised : exceptions (finish t).events ≡ exceptions t.events = ap (λ c. c.2) k in
    (omega arith, omega arith)
after-IsAccounted s (err x) t p q e (a, b) =
    let k = finish-counts (emit exception t) in
    let captured : (finish (emit exception t)).frames_captured ≡ t.frames_captured =
      ap (λ c. c.0) k in
    let same : accounted (finish (emit exception t)) ≡ accounted t = ap (λ c. c.1) k in
    let raised : exceptions (finish (emit exception t)).events ≡ suc (exceptions t.events) =
      ap (λ c. c.2) k in
    (omega arith, omega arith)

module _ {Gray : Type 0} (cfg : Config) (vision : Vision Gray) where
  step-IsAccounted :
      (r : Round) (s : State Gray) → IsAccounted s → IsAccounted (step cfg vision r s)
  unfolding step
  step-IsAccounted r s h =
      let (p, q, e) = in_session-Accounts cfg vision r s in
      after-IsAccounted s (in_session cfg vision r s).0 (in_session cfg vision r s).1 p q e h

  run-IsAccounted_from :
      (rs : List Round) (s : State Gray) → IsAccounted s → IsAccounted (run cfg vision rs s)
  unfolding run
  run-IsAccounted_from [] s h = h
  run-IsAccounted_from (r ∷ rs) s h =
      run-IsAccounted_from rs (step cfg vision r s) (step-IsAccounted r s h)

  -- Whatever the rounds meet: the frames that were sent, those that were skipped as duplicates or
  -- as too early, and those that could not be encoded are together no more than the frames that
  -- were captured, and no frame is missing among them but by an exception, one for each at most.
  pub run-IsAccounted :
      (rs : List Round)
      → let s = run cfg vision rs init in
        (s.frames_sent + s.frames_duplicate + s.frames_skipped + failures s.events
          ≤ s.frames_captured)
        × (s.frames_captured
            ≤ s.frames_sent
              + s.frames_duplicate
              + s.frames_skipped
              + failures s.events
              + exceptions s.events)
  run-IsAccounted rs = run-IsAccounted_from rs init (omega arith, omega arith)
