-- ===== src/Capturer/Loop/Invariant.antt =====
-- What a round keeps (microservices/frame_capturer/frame_capturer.py): an invariant of the parts of
-- a round is one of the whole step.
use intruder_watch.Capturer.Window.{is_within_time_frame}
use intruder_watch.Capturer.Loop.{
  Config, Vision, network_sync_lost, exception, Round, State, Flow, go_on, leave, emit, kill_pipe,
  read_pipe, start_ffmpeg, handle_frame, count_captured, take_frame, active_round, idle_round,
  round, begin, in_session, finish, after, step,
}
use intruder_watch.Base.Action.{Action, modify, lift, pure, when, ◌>>=◌, ◌>>◌}
use intruder_watch.Base.Result.{Result, ok, err}
use intruder_watch.Base.Keeps.{Keeps, Keeps-bind, Keeps-if}
use intruder_watch.Str.{Text}
use intruder_watch.Base.{true, not, ◌==◌, length}

module _ {ℓ} {Gray : Type 0} (cfg : Config) (vision : Vision Gray) (r : Round)
    (P : State Gray → Type ℓ)
    (starts : (s : State Gray)
      → P s
      → P (when (not s.ffmpeg_running) (start_ffmpeg cfg vision r) s).1)
    (reads : (s : State Gray) → P s → P (read_pipe cfg.frame_size s.pipe s).1)
    (handles : (raw_frame : Text) (s : State Gray)
      → P s
      → P (handle_frame cfg vision r raw_frame (count_captured cfg vision r s)).1)
    (loses : (s : State Gray) → P s → P (emit network_sync_lost s))
    (kills : (s : State Gray) → P s → P (kill_pipe s))
    (connects : (s : State Gray) → P s → P (record s { connected = true }))
    (raises : (s : State Gray) → P s → P (emit exception s))
    (finishes : (s : State Gray) → P s → P (finish s)) where
  abbrev starting : Action (State Gray) (Unit {0})
  starting s = when (not s.ffmpeg_running) (start_ffmpeg cfg vision r) s

  abbrev reading : Action (State Gray) Text
  reading s = read_pipe cfg.frame_size s.pipe s

  take_frame-Keeps : (raw_frame : Text) → Keeps P (take_frame cfg vision r raw_frame)
  unfolding take_frame
  take_frame-Keeps raw_frame =
      Keeps-if P (length raw_frame == cfg.frame_size)
        (modify (count_captured cfg vision r)
          >> (handle_frame cfg vision r raw_frame >> pure go_on))
        (modify (emit network_sync_lost) >> (modify kill_pipe >> pure leave))
        (λ s h.
          Keeps-bind P (modify (count_captured cfg vision r) >> handle_frame cfg vision r raw_frame)
            (λ u. pure go_on) (handles raw_frame) (λ u s h. h) s h)
        (λ s h. kills (emit network_sync_lost s) (loses s h))

  active_round-Keeps : Keeps P (active_round cfg vision r)
  unfolding active_round
  active_round-Keeps =
      Keeps-bind P starting (λ u. reading >>= take_frame cfg vision r) starts
        (λ u. Keeps-bind P reading (take_frame cfg vision r) reads take_frame-Keeps)

  idle_round-Keeps : Keeps P (idle_round cfg vision r)
  unfolding idle_round
  idle_round-Keeps s h =
      Keeps-bind P (when s.ffmpeg_running (modify kill_pipe)) (λ u. pure go_on)
        (Keeps-if P s.ffmpeg_running (modify kill_pipe) (pure tt) kills (λ s h. h)) (λ u s h. h) s h

  round-Keeps : Keeps P (round cfg vision r)
  unfolding round
  round-Keeps =
      Keeps-if P (is_within_time_frame r.time_of_day cfg.start_time cfg.end_time)
        (active_round cfg vision r) (idle_round cfg vision r) active_round-Keeps idle_round-Keeps

  begin-Keeps : Keeps P (begin cfg vision r)
  unfolding begin
  begin-Keeps =
      Keeps-bind P (lift r.connect) (λ u. modify (λ s. record s { connected = true })) (λ s h. h)
        (λ u. connects)

  in_session-Keeps : Keeps P (in_session cfg vision r)
  unfolding in_session
  in_session-Keeps s h =
      Keeps-bind P (when (not s.connected) (begin cfg vision r)) (λ u. round cfg vision r)
        (Keeps-if P (not s.connected) (begin cfg vision r) (pure tt) begin-Keeps (λ s h. h))
        (λ u. round-Keeps) s h

  after-Keeps : (x : Result Flow) (t : State Gray) → P t → P (after (x, t))
  after-Keeps (ok go_on) t h = h
  after-Keeps (ok leave) t h = finishes t h
  after-Keeps (err e) t h = finishes (emit exception t) (raises t h)

  pub step-Keeps : (s : State Gray) → P s → P (step cfg vision r s)
  unfolding step
  step-Keeps s h =
      after-Keeps (in_session cfg vision r s).0 (in_session cfg vision r s).1 (in_session-Keeps s h)
