-- ===== src/Capturer/Loop/Frame.antt =====
-- One frame's way through the filters (microservices/frame_capturer/frame_capturer.py), for any
-- view of the state: what holds of the updates at its ends holds of the whole.
use intruder_watch.Capturer.Loop.{
  Config, Vision, encoding_failed, Round, State, emit, is_too_early, motionless, count_sent,
  publish_frame, count_duplicate, send_frame, filter_motion, count_skipped, handle_frame,
}
use intruder_watch.Base.Action.{Action, gets, modify, lift, ◌>>=◌}
use intruder_watch.Base.Counts.{Silent, Relates, Relates-bind, Relates-if}
use intruder_watch.Str.{Text}
use intruder_watch.Base.{refl, Bool, Option, none, some, if◌then◌else◌}

abbrev pub remember : {Gray : Type 0} → Gray → State Gray → State Gray
remember gray s = record s { last_frame_gray = some gray }

module _ {ℓ} {Gray V : Type 0} (cfg : Config) (vision : Vision Gray) (r : Round)
    (view : State Gray → V) (R : V → V → Type ℓ) (same : (v : V) → R v v)
    (remembers : (gray : Gray) → Silent view (modify (remember gray)))
    (fails : (s : State Gray) → R (view s) (view (emit encoding_failed s)))
    (duplicates : (s : State Gray) → R (view s) (view (count_duplicate cfg vision r s)))
    (sends : (b : Text) (s : State Gray) → R (view s) (view (count_sent cfg vision r b s))) where
  publish_frame-Relates : (o : Option Text) → Relates view R (publish_frame cfg vision r o)
  unfolding publish_frame
  publish_frame-Relates none s = fails s
  publish_frame-Relates (some byte_data) s =
      Relates-bind view R (lift r.publish) (λ u. modify (count_sent cfg vision r byte_data)) same
        (λ s. refl) (λ u. sends byte_data) s

  abbrev encode : Text → Action (State Gray) (Unit {0})
  encode raw_frame = lift (vision.imencode raw_frame) >>= publish_frame cfg vision r

  send_frame-Relates :
      (raw_frame : Text) (gray : Gray) → Relates view R (send_frame cfg vision r raw_frame gray)
  unfolding send_frame
  send_frame-Relates raw_frame gray =
      Relates-bind view R (modify (remember gray)) (λ u. encode raw_frame) same (remembers gray)
        λ u.
          Relates-bind view R (lift (vision.imencode raw_frame)) (publish_frame cfg vision r) same
            (λ s. refl) publish_frame-Relates

  abbrev decided : Text → Gray → Bool → Action (State Gray) (Unit {0})
  decided raw_frame gray still =
      if still
      then modify (count_duplicate cfg vision r)
      else send_frame cfg vision r raw_frame gray

  abbrev grayed : Text → Gray → Action (State Gray) (Unit {0})
  grayed raw_frame gray = do
    last ← gets (λ s. s.last_frame_gray)
    still ← lift (motionless cfg vision r gray last)
    decided raw_frame gray still

  pub filter_motion-Relates :
      (raw_frame : Text) → Relates view R (filter_motion cfg vision r raw_frame)
  unfolding filter_motion
  filter_motion-Relates raw_frame =
      Relates-bind view R (lift (vision.to_gray raw_frame)) (grayed raw_frame) same (λ s. refl)
        λ gray s.
          Relates-bind view R (lift (motionless cfg vision r gray s.last_frame_gray))
            (decided raw_frame gray) same (λ s. refl)
            (λ still.
              Relates-if view R still (modify (count_duplicate cfg vision r))
                (send_frame cfg vision r raw_frame gray) duplicates
                (send_frame-Relates raw_frame gray))
            s

  pub handle_frame-Relates :
      (raw_frame : Text)
      → ((s : State Gray) → R (view s) (view (count_skipped cfg vision r s)))
      → Relates view R (handle_frame cfg vision r raw_frame)
  unfolding handle_frame
  handle_frame-Relates raw_frame skips s =
      Relates-if view R (is_too_early cfg vision r s) (modify (count_skipped cfg vision r))
        (filter_motion cfg vision r raw_frame) skips (filter_motion-Relates raw_frame) s
