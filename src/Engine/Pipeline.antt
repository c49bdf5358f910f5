-- ===== src/Engine/Pipeline.antt =====
-- `Pipeline` of microservices/frame_capturer/pipeline.go: the pool of frame buffers, the channel of
-- two frames and the worker that encodes and publishes. A buffer is known by a number, so that two
-- uses of one are seen. The pool may give any of its buffers, or a new one.
pub mod Fifo
pub mod Owned
use intruder_watch.Engine.Config.{Config}
use intruder_watch.Engine.Motion.{MotionBox}
use intruder_watch.Engine.Snapshot.{SnapshotManager, update_jpeg}
use intruder_watch.Base.Int.{ℤ, pos}
use intruder_watch.Json.{Json, Fields, int, str, bool, arr, obj, field, end, cons, nil}
use intruder_watch.Str.{Text, codes}
use intruder_watch.Base.{
  ℕ, zero, suc, ◌+◌, ◌*◌, ◌/◌, Bool, true, false, Option, none, some, List, [], ◌∷◌, ◌++◌, ltb,
  length, take, drop, replicate, if◌then◌else◌,
}

pub record FrameItem : Type 0 where
  pub id : ℕ
  pub bytes : List ℕ
  pub timestamp : ℕ
  pub sequence : ℕ
  pub motion_box : Option MotionBox
  pub is_post_roll : Bool

pub record FramePayload : Type 0 where
  pub camera : ℤ
  pub hash : Text
  pub image : Text
  pub motion_box : Option MotionBox
  pub is_post_roll : Bool

-- Where a tag says `omitempty`: nil is left out, and so is false.
abbrev pub box_field : Option MotionBox → Fields → Fields
box_field none rest = rest
box_field (some box) rest =
    field (codes "motion_box")
      (arr (
        cons (int (pos box.left)) (
          cons (int (pos box.top)) (cons (int (pos box.right)) (cons (int (pos box.bottom)) nil)))))
      rest

abbrev pub post_roll_field : Bool → Fields
post_roll_field false = end
post_roll_field true = field (codes "is_post_roll") (bool true) end

-- The object that is marshalled, by the tags of the struct.
unfoldable pub payload_json : FramePayload → Json
payload_json payload = obj (
    field (codes "camera") (int payload.camera) (
      field (codes "hash") (str payload.hash) (
        field (codes "image") (str payload.image)
          (box_field payload.motion_box (post_roll_field payload.is_post_roll)))))

-- What is used of the libraries; the JPEG encoder is given the planes Y, Cb and Cr.
pub record Codecs : Type 0 where
  pub encode_jpeg : List ℕ → List ℕ → List ℕ → Option Text
  pub sha256_hex : Text → Text
  pub base64 : Text → Text
  pub marshal : FramePayload → Option Text

-- What became of a frame that the worker took.
pub data Outcome : Type 0 where
  published : FrameItem → FramePayload → Outcome
  encoding_failed : FrameItem → Outcome
  marshal_failed : FrameItem → Outcome
  publish_failed : FrameItem → FramePayload → Outcome

-- `working` is the frame that the worker has in hand; the first of the outcomes is the oldest.
pub record Pipeline : Type 0 where
  pub snapshot_mgr : SnapshotManager
  pub frame_pool : List FrameItem
  pub made : ℕ
  pub frame_chan : List FrameItem
  pub working : Option FrameItem
  pub backpressure : ℕ
  pub outcomes : List Outcome

-- A step of the worker: it receives a frame, or it is done with it, at a time and with an answer of
-- the broker.
pub data WorkerStep : Type 0 where
  receive : WorkerStep
  process_frame : ℕ → Bool → WorkerStep

abbrev pub frame_size : Config → ℕ
frame_size cfg =
    cfg.frame_width * cfg.frame_height + 2 * (cfg.frame_width / 2) * (cfg.frame_height / 2)

abbrev pub y_size : Config → ℕ
y_size cfg = cfg.frame_width * cfg.frame_height

abbrev pub c_size : Config → ℕ
c_size cfg = (cfg.frame_width / 2) * (cfg.frame_height / 2)

-- The item at a place, and the others.
unfoldable pub take_at : ℕ → List FrameItem → Option (FrameItem × List FrameItem)
take_at i [] = none
take_at zero (x ∷ xs) = some (x, xs)
take_at (suc i) (x ∷ xs) = elim (take_at i xs) [ none ↦ none | some (y, ys) ↦ some (y, x ∷ ys) ]

abbrev pub new_item : Config → ℕ → FrameItem
new_item cfg id = record {
  id = id;
  bytes = replicate (frame_size cfg) 0;
  timestamp = 0;
  sequence = 0;
  motion_box = none;
  is_post_roll = false;
}

abbrev pub borrow : Config → Pipeline → Option (FrameItem × List FrameItem) → FrameItem × Pipeline
borrow cfg p none = (new_item cfg p.made, record p { made = p.made + 1 })
borrow cfg p (some (item, rest)) =
    (record item { motion_box = none; is_post_roll = false }, record p { frame_pool = rest })

-- The place is the pool's choice; a place behind the last is a new buffer.
unfoldable pub acquire_frame : Config → ℕ → Pipeline → FrameItem × Pipeline
acquire_frame cfg pick p = borrow cfg p (take_at pick p.frame_pool)

unfoldable pub release_frame : FrameItem → Pipeline → Pipeline
release_frame item p = record p { frame_pool = record item { motion_box = none } ∷ p.frame_pool }

unfoldable pub submit : FrameItem → Pipeline → Bool × Pipeline
submit item p =
    if ltb (length p.frame_chan) 2
    then (true, record p { frame_chan = p.frame_chan ++ item ∷ [] })
    else (false, release_frame item (record p { backpressure = p.backpressure + 1 }))

abbrev pub log_outcome : Outcome → Pipeline → Pipeline
log_outcome o p = record p { outcomes = p.outcomes ++ o ∷ [] }

module _ (cfg : Config) (codecs : Codecs) (now : ℕ) (accepted : Bool) where
  abbrev pub payload_of : FrameItem → Text → FramePayload
  payload_of item jpeg_bytes = record {
    camera = cfg.channel;
    hash = codecs.sha256_hex jpeg_bytes;
    image = codecs.base64 jpeg_bytes;
    motion_box = item.motion_box;
    is_post_roll = item.is_post_roll;
  }

  unfoldable pub publish : FrameItem → FramePayload → Option Text → Outcome
  publish item payload none = marshal_failed item
  publish item payload (some payload_bytes) =
      if accepted then published item payload else publish_failed item payload

  unfoldable pub dispatch_jpeg : FrameItem → Option Text → Pipeline → Pipeline
  dispatch_jpeg item none p = log_outcome (encoding_failed item) p
  dispatch_jpeg item (some jpeg_bytes) p =
      let payload = payload_of item jpeg_bytes in
      log_outcome (publish item payload (codecs.marshal payload))
        (record p { snapshot_mgr = update_jpeg jpeg_bytes now p.snapshot_mgr })

  -- `processFrame`, with the deferred release.
  unfoldable pub process : FrameItem → Pipeline → Pipeline
  process item p =
      let y = take (y_size cfg) item.bytes in
      let cb = take (c_size cfg) (drop (y_size cfg) item.bytes) in
      let cr = drop (y_size cfg + c_size cfg) item.bytes in
      release_frame item (dispatch_jpeg item (codecs.encode_jpeg y cb cr) p)

abbrev pub receive_frame : Option FrameItem → List FrameItem → Pipeline → Pipeline
receive_frame none (item ∷ rest) p = record p { frame_chan = rest; working = some item }
receive_frame _ _ p = p

abbrev pub process_frame_of : Config → Codecs → ℕ → Bool → Option FrameItem → Pipeline → Pipeline
process_frame_of cfg codecs now accepted none p = p
process_frame_of cfg codecs now accepted (some item) p =
    process cfg codecs now accepted item (record p { working = none })

-- A step that the worker cannot take changes nothing.
unfoldable pub worker_step : Config → Codecs → WorkerStep → Pipeline → Pipeline
worker_step cfg codecs receive p = receive_frame p.working p.frame_chan p
worker_step cfg codecs (process_frame now accepted) p =
    process_frame_of cfg codecs now accepted p.working p

unfoldable pub worker_steps : Config → Codecs → List WorkerStep → Pipeline → Pipeline
worker_steps cfg codecs [] p = p
worker_steps cfg codecs (w ∷ ws) p = worker_steps cfg codecs ws (worker_step cfg codecs w p)
