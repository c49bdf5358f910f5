-- ===== src/Engine/Loop/Rounds.antt =====
-- No round panics, and each keeps the invariant (microservices/frame_capturer/main.go).
use intruder_watch.Engine.Config.{Config, is_within_time_frame}
use intruder_watch.Engine.Motion.{Floats}
use intruder_watch.Engine.Motion.Total.{seen, analyze-some}
use intruder_watch.Engine.Capture.{StreamCapturer, start, frame_read}
use intruder_watch.Engine.Pipeline.{FrameItem, Codecs, y_size, frame_size, acquire_frame}
use intruder_watch.Engine.Pipeline.Fifo.{acquire_frame-frames, acquire_frame-backpressure}
use intruder_watch.Engine.Pipeline.Owned.{acquire_frame-IsOwned}
use intruder_watch.Engine.Loop.{
  Round, State, stop_capture, release, work, is_too_early, analysed, handle_frame, read_frame,
  with_frame, started, iterate, round, step,
}
use intruder_watch.Engine.Loop.Fed.{analyze-IsInFrame}
use intruder_watch.Base.Counts.{one_if}
use intruder_watch.Base.{
  ℕ, ◌+◌, ◌*◌, ◌≡◌, ◌∙◌, refl, sym, ap, Bool, true, false, Option, none, some, List, [], ◌∷◌,
  length, length-take, take, inl, inr, arith, Bool-cases,
}
use mathlib.Core.Path.{subst}
use intruder_watch.Engine.Loop.Sound.{
  IsWhole, IsSound, stop_capture-IsSound, with_pipeline-IsSound, release-IsSound, work-IsSound,
  judge_frame-IsSound, skip-IsSound, is_too_early-AreDue,
}

module _ (fl : Floats) (cfg : Config) where
  module _ (codecs : Codecs) (r : Round) where
    -- No panic, and the invariant behind it.
    abbrev pub EndsSound : Option State → Type 0
    EndsSound o = (t : State) × (o ≡ some t) × IsSound fl cfg [] 0 t

    handle_frame-EndsSound :
        (item : FrameItem) (s : State)
        → length item.bytes ≡ frame_size cfg
        → IsSound fl cfg (item ∷ []) 1 s
        → EndsSound (handle_frame fl cfg codecs r item s)
    unfolding handle_frame
    handle_frame-EndsSound item s size h =
        elim (Bool-cases (is_too_early fl cfg codecs r s.last_sent_time)) [
          | inl e ↦ rw e (
            _,
            refl,
            skip-IsSound fl cfg codecs r item s s.lighting_shift s.duplicate (s.rate_limit + 1)
                s.last_sent_time h (omega arith) (λ i e apart. apart),
          )
          | inr e ↦
              let plane = take (y_size cfg) item.bytes in
              let fits : length plane ≡ s.detector.width * s.detector.height =
                length-take (y_size cfg) item.bytes (omega arith) ∙ rw (h.width, h.height) refl in
              let (motion, a, valid) = analyze-some fl s.detector plane h.detector fits in
              let inside =
                analyze-IsInFrame fl cfg s.detector plane motion (seen s.detector plane) h.detector
                  h.width h.height fits a in
              let now =
                work-IsSound fl cfg codecs r r.analysing (item ∷ []) 1
                  (record s { detector = seen s.detector plane })
                  (record {
                    owned = h.owned;
                    balanced = h.balanced;
                    fed = h.fed;
                    apart = h.apart;
                    last_box = h.last_box;
                    detector = valid;
                    width = h.width;
                    height = h.height;
                    tidy = h.tidy;
                  }) in
              rw e (
                subst (λ o. EndsSound (analysed fl cfg codecs r item o s)) (sym a)
                  (
                    _,
                    refl,
                    judge_frame-IsSound fl cfg codecs r item motion _ inside
                        (is_too_early-AreDue fl cfg codecs r s.last_sent_time e) now,
                  ))
        ]

    read_frame-EndsSound :
        (read : Option (List ℕ)) (item : FrameItem) (s : State)
        → IsWhole cfg read
        → IsSound fl cfg (item ∷ []) 0 s
        → EndsSound (read_frame fl cfg codecs r read item s)
    unfolding read_frame frame_read
    read_frame-EndsSound none item s w h =
        let k = release-IsSound fl cfg item 0 s h in
        (
          _,
          refl,
          stop_capture-IsSound fl cfg
              (record (release item s) { network_sync_lost = s.network_sync_lost + 1 })
              (record {
                owned = k.owned;
                balanced = k.balanced;
                fed = k.fed;
                apart = k.apart;
                last_box = k.last_box;
                detector = k.detector;
                width = k.width;
                height = k.height;
                tidy = k.tidy;
              }),
        )
    read_frame-EndsSound (some bytes) item s w h =
        handle_frame-EndsSound (record item { bytes = bytes }) _ w
          (record {
            owned = h.owned;
            balanced = omega (arith, h.balanced);
            fed = h.fed;
            apart = h.apart;
            last_box = h.last_box;
            detector = h.detector;
            width = h.width;
            height = h.height;
            tidy = h.tidy;
          })

    with_connected-IsSound :
        (b : Bool) (s : State)
        → IsSound fl cfg [] 0 s
        → IsSound fl cfg [] 0 (record s { connected = b })
    with_connected-IsSound b s h = record {
      owned = h.owned;
      balanced = h.balanced;
      fed = h.fed;
      apart = h.apart;
      last_box = h.last_box;
      detector = h.detector;
      width = h.width;
      height = h.height;
      tidy = h.tidy;
    }

    -- The capturer changes, and is as tidy as before.
    with_capturer-IsSound :
        (c : StreamCapturer) (s : State) (errors : ℕ)
        → IsSound fl cfg [] 0 s
        → c.spawned ≡ c.killed + one_if c.is_running
        → IsSound fl cfg [] 0 (record s { capturer = c; start_error = errors })
    with_capturer-IsSound c s errors h e = record {
      owned = h.owned;
      balanced = h.balanced;
      fed = h.fed;
      apart = h.apart;
      last_box = h.last_box;
      detector = h.detector;
      width = h.width;
      height = h.height;
      tidy = e;
    }

    start-tidy :
        (now : ℕ) (can_spawn : Bool) (c : StreamCapturer)
        → c.spawned ≡ c.killed + one_if c.is_running
        → (start now can_spawn c).1.spawned
          ≡ (start now can_spawn c).1.killed + one_if (start now can_spawn c).1.is_running
    unfolding start
    start-tidy now can_spawn c h = elim (Bool-cases c.is_running) [
      | inl e ↦ rw e (h ∙ ap (λ b. c.killed + one_if b) e)
      | inr e ↦ elim (Bool-cases can_spawn) [
        | inl f ↦ rw (e, f) (omega (arith, h ∙ ap (λ b. c.killed + one_if b) e))
        | inr f ↦ rw (e, f) (omega (arith, h ∙ ap (λ b. c.killed + one_if b) e))
      ]
    ]

    with_frame-EndsSound :
        (s : State)
        → IsWhole cfg r.read
        → IsSound fl cfg [] 0 s
        → EndsSound (with_frame fl cfg codecs r (acquire_frame cfg r.pick s.pipeline) s)
    with_frame-EndsSound s w h =
        let (item, p) = acquire_frame cfg r.pick s.pipeline in
        let taken = acquire_frame-IsOwned cfg r.pick s.pipeline h.owned in
        read_frame-EndsSound r.read _ _ w (
          work-IsSound fl cfg codecs r r.reading _ 0
            (record s { pipeline = (acquire_frame cfg r.pick s.pipeline).1 })
            (with_pipeline-IsSound fl cfg [] _ 0 s _ h taken
              (acquire_frame-frames cfg codecs r.pick s.pipeline)
              (acquire_frame-backpressure cfg codecs r.pick s.pipeline)))

    started-EndsSound :
        (b : Bool) (c : StreamCapturer) (s : State)
        → IsWhole cfg r.read
        → IsSound fl cfg [] 0 s
        → c.spawned ≡ c.killed + one_if c.is_running
        → EndsSound (started fl cfg codecs r (b, c) s)
    started-EndsSound false c s w h e = (_, refl, with_capturer-IsSound c s (s.start_error + 1) h e)
    started-EndsSound true c s w h e =
        with_frame-EndsSound (record s { capturer = c }) w
          (with_capturer-IsSound c s s.start_error h e)

    iterate-EndsSound :
        (s : State)
        → IsWhole cfg r.read
        → IsSound fl cfg [] 0 s
        → EndsSound (iterate fl cfg codecs r s)
    unfolding iterate
    iterate-EndsSound s w h = elim (Bool-cases r.notify_close) [
      | inl e ↦ simp e (
        _,
        refl,
        stop_capture-IsSound fl cfg (record (stop_capture s) { connected = false })
            (with_connected-IsSound false (stop_capture s) (stop_capture-IsSound fl cfg s h)),
      )
      | inr e ↦ elim (Bool-cases (is_within_time_frame cfg r.hour r.minute r.second)) [
        | inl f ↦
            simp (e, f)
              (started-EndsSound (start r.started_at r.can_spawn s.capturer).0
                (start r.started_at r.can_spawn s.capturer).1 s w h
                (start-tidy r.started_at r.can_spawn s.capturer h.tidy))
        | inr f ↦ simp (e, f) (_, refl, stop_capture-IsSound fl cfg s h)
      ]
    ]

    round-EndsSound :
        (s : State)
        → IsWhole cfg r.read
        → IsSound fl cfg [] 0 s
        → EndsSound (round fl cfg codecs r s)
    unfolding round
    round-EndsSound s w h = elim (Bool-cases s.connected) [
      | inl e ↦ simp e (iterate-EndsSound s w h)
      | inr e ↦ simp e (_, refl, with_connected-IsSound r.connect s h)
    ]

    -- A round with a read that fills the buffer or fails does not panic and keeps the invariant.
    pub step-EndsSound :
        (s : State)
        → IsWhole cfg r.read
        → IsSound fl cfg [] 0 s
        → EndsSound (step fl cfg codecs r s)
    unfolding step
    step-EndsSound s w h =
        round-EndsSound (work fl cfg codecs r r.before s) w
          (work-IsSound fl cfg codecs r r.before [] 0 s h)
