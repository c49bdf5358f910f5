-- ===== src/Engine/Pipeline/Fifo.antt =====
-- The frames of the pipeline in their order (microservices/frame_capturer/pipeline.go).
use intruder_watch.Engine.Config.{Config}
use intruder_watch.Engine.Pipeline.{
  FrameItem, FramePayload, Codecs, Outcome, published, encoding_failed, marshal_failed,
  publish_failed, Pipeline, WorkerStep, receive, process_frame, acquire_frame, borrow, take_at,
  release_frame, submit, receive_frame, process_frame_of, publish, dispatch_jpeg, process,
  worker_step, worker_steps, payload_of, log_outcome,
}
use intruder_watch.Engine.Snapshot.{update_jpeg}
use intruder_watch.Str.{Text}
use intruder_watch.Base.{
  ℕ, ◌+◌, ◌≡◌, ◌∙◌, refl, sym, ap, Bool, Option, none, some, List, [], ◌∷◌, ◌++◌, map, append_assoc,
  ltb, length, if◌then◌else◌, inl, inr, Bool-cases,
}

abbrev pub frame_of : Outcome → FrameItem
frame_of (published item payload) = item
frame_of (encoding_failed item) = item
frame_of (marshal_failed item) = item
frame_of (publish_failed item payload) = item

abbrev pub in_hand : Option FrameItem → List FrameItem
in_hand none = []
in_hand (some item) = item ∷ []

-- All frames that were let into the channel, the oldest first: those that the worker is done with,
-- the one it has in hand and those that wait.
abbrev pub accepted_frames : Pipeline → List FrameItem
accepted_frames p = map frame_of p.outcomes ++ (in_hand p.working ++ p.frame_chan)

map-snoc :
    (os : List Outcome) (o : Outcome)
    → map frame_of (os ++ o ∷ []) ≡ map frame_of os ++ frame_of o ∷ []
map-snoc [] o = refl
map-snoc (x ∷ os) o = ap (◌∷◌ (frame_of x)) (map-snoc os o)

module _ (cfg : Config) (codecs : Codecs) where
  module _ (now : ℕ) (accepted : Bool) where
    publish-frame_of :
        (item : FrameItem) (payload : FramePayload) (m : Option Text)
        → frame_of (publish cfg codecs now accepted item payload m) ≡ item
    unfolding publish
    publish-frame_of item payload none = refl
    publish-frame_of item payload (some b) = elim (Bool-cases accepted) [
      | inl e ↦ rw e refl
      | inr e ↦ rw e refl
    ]

    log-frames :
        (o : Outcome) (p : Pipeline)
        → accepted_frames (log_outcome o p)
          ≡ map frame_of p.outcomes ++ frame_of o ∷ (in_hand p.working ++ p.frame_chan)
    log-frames o p =
        ap (λ os. os ++ (in_hand p.working ++ p.frame_chan)) (map-snoc p.outcomes o)
        ∙ append_assoc (map frame_of p.outcomes) (frame_of o ∷ [])
            (in_hand p.working ++ p.frame_chan)

    dispatch_jpeg-frames :
        (item : FrameItem) (jpeg : Option Text) (p : Pipeline)
        → accepted_frames (dispatch_jpeg cfg codecs now accepted item jpeg p)
          ≡ map frame_of p.outcomes ++ item ∷ (in_hand p.working ++ p.frame_chan)
    unfolding dispatch_jpeg
    dispatch_jpeg-frames item none p = log-frames (encoding_failed item) p
    dispatch_jpeg-frames item (some jpeg) p =
        let payload = payload_of cfg codecs now accepted item jpeg in
        log-frames (publish cfg codecs now accepted item payload (codecs.marshal payload))
          (record p { snapshot_mgr = update_jpeg jpeg now p.snapshot_mgr })
        ∙ ap (λ x. map frame_of p.outcomes ++ x ∷ (in_hand p.working ++ p.frame_chan))
            (publish-frame_of item payload (codecs.marshal payload))

  receive_frame-frames :
      (w : Option FrameItem) (c : List FrameItem) (p : Pipeline)
      → accepted_frames (receive_frame w c (record p { working = w; frame_chan = c }))
        ≡ map frame_of p.outcomes ++ (in_hand w ++ c)
  receive_frame-frames none [] p = refl
  receive_frame-frames none (x ∷ xs) p = refl
  receive_frame-frames (some y) c p = refl

  process-frames :
      (now : ℕ) (accepted : Bool) (w : Option FrameItem) (p : Pipeline)
      → accepted_frames (process_frame_of cfg codecs now accepted w (record p { working = w }))
        ≡ map frame_of p.outcomes ++ (in_hand w ++ p.frame_chan)
  unfolding process release_frame
  process-frames now accepted none p = refl
  process-frames now accepted (some item) p =
      dispatch_jpeg-frames now accepted item _ (record p { working = none })

  worker_step-frames :
      (w : WorkerStep) (p : Pipeline)
      → accepted_frames (worker_step cfg codecs w p) ≡ accepted_frames p
  unfolding worker_step
  worker_step-frames receive p = receive_frame-frames p.working p.frame_chan p
  worker_step-frames (process_frame now accepted) p = process-frames now accepted p.working p

  -- The worker neither loses a frame nor changes their order.
  pub worker_steps-frames :
      (ws : List WorkerStep) (p : Pipeline)
      → accepted_frames (worker_steps cfg codecs ws p) ≡ accepted_frames p
  unfolding worker_steps
  worker_steps-frames [] p = refl
  worker_steps-frames (w ∷ ws) p =
      worker_steps-frames ws (worker_step cfg codecs w p) ∙ worker_step-frames w p

  borrow-frames :
      (o : Option (FrameItem × List FrameItem)) (p : Pipeline)
      → accepted_frames (borrow cfg p o).1 ≡ accepted_frames p
  borrow-frames none p = refl
  borrow-frames (some (item, rest)) p = refl

  pub acquire_frame-frames :
      (pick : ℕ) (p : Pipeline) → accepted_frames (acquire_frame cfg pick p).1 ≡ accepted_frames p
  unfolding acquire_frame
  acquire_frame-frames pick p = borrow-frames (take_at pick p.frame_pool) p

  receive_frame-backpressure :
      (w : Option FrameItem) (c : List FrameItem) (p : Pipeline)
      → (receive_frame w c p).backpressure ≡ p.backpressure
  receive_frame-backpressure none [] p = refl
  receive_frame-backpressure none (x ∷ xs) p = refl
  receive_frame-backpressure (some y) c p = refl

  dispatch_jpeg-backpressure :
      (now : ℕ) (accepted : Bool) (item : FrameItem) (jpeg : Option Text) (p : Pipeline)
      → (dispatch_jpeg cfg codecs now accepted item jpeg p).backpressure ≡ p.backpressure
  unfolding dispatch_jpeg
  dispatch_jpeg-backpressure now accepted item none p = refl
  dispatch_jpeg-backpressure now accepted item (some jpeg) p = refl

  process-backpressure :
      (now : ℕ) (accepted : Bool) (w : Option FrameItem) (p : Pipeline)
      → (process_frame_of cfg codecs now accepted w p).backpressure ≡ p.backpressure
  unfolding process release_frame
  process-backpressure now accepted none p = refl
  process-backpressure now accepted (some item) p =
      dispatch_jpeg-backpressure now accepted item _ (record p { working = none })

  worker_step-backpressure :
      (w : WorkerStep) (p : Pipeline) → (worker_step cfg codecs w p).backpressure ≡ p.backpressure
  unfolding worker_step
  worker_step-backpressure receive p = receive_frame-backpressure p.working p.frame_chan p
  worker_step-backpressure (process_frame now accepted) p =
      process-backpressure now accepted p.working p

  pub worker_steps-backpressure :
      (ws : List WorkerStep) (p : Pipeline)
      → (worker_steps cfg codecs ws p).backpressure ≡ p.backpressure
  unfolding worker_steps
  worker_steps-backpressure [] p = refl
  worker_steps-backpressure (w ∷ ws) p =
      worker_steps-backpressure ws (worker_step cfg codecs w p) ∙ worker_step-backpressure w p

  borrow-backpressure :
      (o : Option (FrameItem × List FrameItem)) (p : Pipeline)
      → (borrow cfg p o).1.backpressure ≡ p.backpressure
  borrow-backpressure none p = refl
  borrow-backpressure (some (item, rest)) p = refl

  pub acquire_frame-backpressure :
      (pick : ℕ) (p : Pipeline) → (acquire_frame cfg pick p).1.backpressure ≡ p.backpressure
  unfolding acquire_frame
  acquire_frame-backpressure pick p = borrow-backpressure (take_at pick p.frame_pool) p

pub release_frame-frames :
    (item : FrameItem) (p : Pipeline) → accepted_frames (release_frame item p) ≡ accepted_frames p
unfolding release_frame
release_frame-frames item p = refl

-- A frame that is submitted is the last of them, or it is dropped and counted.
pub submit-frames :
    (item : FrameItem) (p : Pipeline)
    → (accepted_frames (submit item p).1
        ≡ (if (submit item p).0 then accepted_frames p ++ item ∷ [] else accepted_frames p))
      × ((submit item p).1.backpressure
          ≡ (if (submit item p).0 then p.backpressure else p.backpressure + 1))
unfolding submit release_frame
submit-frames item p = elim (Bool-cases (ltb (length p.frame_chan) 2)) [
  | inl e ↦ rw e (
    sym (
        append_assoc (map frame_of p.outcomes) (in_hand p.working ++ p.frame_chan) (item ∷ [])
        ∙ ap (λ x. map frame_of p.outcomes ++ x)
            (append_assoc (in_hand p.working) p.frame_chan (item ∷ []))),
    refl,
  )
  | inr e ↦ rw e (refl, refl)
]
