-- ===== src/Engine/Loop/Run.antt =====
-- What holds behind any rounds of the program (microservices/frame_capturer/main.go).
use intruder_watch.Engine.Config.{Config}
use intruder_watch.Engine.Motion.{MacroblockDetector, Floats, new_macroblock_detector}
use intruder_watch.Engine.Motion.New.{new_macroblock_detector-IsMadeFor}
use intruder_watch.Engine.Pipeline.{Codecs, Outcome}
use intruder_watch.Engine.Pipeline.Fifo.{accepted_frames, frame_of, in_hand}
use intruder_watch.Engine.Pipeline.Owned.{IsOwned}
use intruder_watch.Engine.Loop.{Round, State, step, run, init, ingest}
use intruder_watch.Engine.Loop.Fed.{IsSpaced, IsFed}
use intruder_watch.Engine.Loop.Sound.{IsWhole, IsSound}
use intruder_watch.Engine.Loop.Rounds.{step-EndsSound}
use intruder_watch.Base.Int.{pos}
use intruder_watch.Base.Counts.{one_if}
use intruder_watch.Base.{
  suc, ◌+◌, ◌≡◌, ◌∙◌, refl, ap, some, List, [], ◌∷◌, ◌++◌, map, length, length-append, All, arith,
  ℕ,
}

module _ (fl : Floats) (cfg : Config) (codecs : Codecs) where
  -- Every read fills the buffer or fails.
  abbrev pub AreWhole : List Round → Type 0
  AreWhole rs = All (λ r. IsWhole cfg r.read) rs

  run-step :
      (r : Round) (rs : List Round) (s : State) {t : State}
      → step fl cfg codecs r s ≡ some t
      → run fl cfg codecs (r ∷ rs) s ≡ run fl cfg codecs rs t
  unfolding run
  run-step r rs s h = rw (h, run) refl

  run-EndsSound :
      (rs : List Round) (s : State)
      → AreWhole rs
      → IsSound fl cfg [] 0 s
      → (t : State) × (run fl cfg codecs rs s ≡ some t) × IsSound fl cfg [] 0 t
  run-EndsSound [] s w h = (s, unfold run in refl, h)
  run-EndsSound (r ∷ rs) s (w, ws) h =
      let (t, e, k) = step-EndsSound fl cfg codecs r s w h in
      let (u, f, l) = run-EndsSound rs t ws k in (u, run-step r rs s e ∙ f, l)

  ingest-run :
      (rs : List Round) {d : MacroblockDetector}
      → new_macroblock_detector cfg ≡ some d
      → ingest fl cfg codecs rs ≡ run fl cfg codecs rs (init cfg d)
  unfolding ingest
  ingest-run rs h = rw (h, ingest) refl

  ingest-EndsSound :
      (rs : List Round)
      → AreWhole rs
      → (s : State) × (ingest fl cfg codecs rs ≡ some s) × IsSound fl cfg [] 0 s
  ingest-EndsSound rs w =
      let (d, e, (valid, width, height, m, total, effective, unseen)) =
        new_macroblock_detector-IsMadeFor cfg in
      let (s, f, k) = run-EndsSound rs (init cfg d) w (record {
        owned = ((λ i. omega arith), omega arith);
        balanced = refl;
        fed = (tt, tt, tt);
        apart = λ i e. (tt, tt);
        last_box = tt;
        detector = valid;
        width = width;
        height = height;
        tidy = refl;
      }) in
      (s, ingest-run rs e ∙ f, k)

  length-map : (os : List Outcome) → length (map frame_of os) ≡ length os
  length-map [] = refl
  length-map (o ∷ os) = ap suc (length-map os)

  length-accepted_frames :
      (s : State)
      → length (accepted_frames s.pipeline)
        ≡ length s.pipeline.outcomes
          + length (in_hand s.pipeline.working)
          + length s.pipeline.frame_chan
  length-accepted_frames s =
      let p = s.pipeline in
      omega (
        arith,
        length-append (map frame_of p.outcomes) (in_hand p.working ++ p.frame_chan),
        length-append (in_hand p.working) p.frame_chan,
        length-map p.outcomes,
      )

  -- While every read fills the buffer or fails, the program does not panic, and every frame that was
  -- captured was skipped for exactly one counted reason (rate limit, lighting shift, duplicate or
  -- backpressure), is done with by the worker, with an outcome, is in the worker's hand or waits.
  pub ingest-balanced :
      (rs : List Round)
      → AreWhole rs
      → (s : State) × (ingest fl cfg codecs rs ≡ some s)
        × (s.captured
            ≡ s.rate_limit
              + s.lighting_shift
              + s.duplicate
              + s.pipeline.backpressure
              + length s.pipeline.outcomes
              + length (in_hand s.pipeline.working)
              + length s.pipeline.frame_chan)
  ingest-balanced rs w =
      let (s, e, k) = ingest-EndsSound rs w in
      (s, e, omega (arith, k.balanced, length-accepted_frames s))

  -- While every read fills the buffer or fails, two frames at most wait in the channel, and each
  -- buffer that was made stands in one place at most: in the pool, in the channel or in the worker's
  -- hand. So a frame that waits or is encoded is not overwritten by the next one. And all processes
  -- of ffmpeg that were spawned were ended again, but for the one that runs.
  pub ingest-IsOwned :
      (rs : List Round)
      → AreWhole rs
      → (s : State) × (ingest fl cfg codecs rs ≡ some s)
        × IsOwned [] s.pipeline
        × (s.capturer.spawned ≡ s.capturer.killed + one_if s.capturer.is_running)
  ingest-IsOwned rs w = let (s, e, k) = ingest-EndsSound rs w in (s, e, k.owned, k.tidy)

  -- While every read fills the buffer or fails, the frames that were let into the channel, in the
  -- order in which the worker takes them, have rising sequence numbers up to the counter, and every
  -- motion box among them is a rectangle in the frame that is not empty.
  pub ingest-IsFed :
      (rs : List Round)
      → AreWhole rs
      → (s : State) × (ingest fl cfg codecs rs ≡ some s)
        × IsFed cfg s.seq_counter (accepted_frames s.pipeline)
  ingest-IsFed rs w = let (s, e, k) = ingest-EndsSound rs w in (s, e, k.fed)

  -- While every read fills the buffer or fails, and with an interval of the rate limit that is not
  -- negative, any two frames that were let into the channel are at least that interval apart.
  pub ingest-IsSpaced :
      (rs : List Round) (interval : ℕ)
      → AreWhole rs
      → fl.interval cfg.fps ≡ pos interval
      → (s : State) × (ingest fl cfg codecs rs ≡ some s)
        × IsSpaced interval (accepted_frames s.pipeline)
  ingest-IsSpaced rs interval w h =
      let (s, e, k) = ingest-EndsSound rs w in
      let (spaced, before) = k.apart interval h in (s, e, spaced)
