-- ===== src/Detector/Frames.antt =====
-- The callback of frame_queue in `consume_frames` (microservices/human_detector/human_detector.py).
-- The decoder of images and the model that finds people are parameters. Logging and the labels of
-- the metrics are left out.
pub mod Acks
pub mod Camera
pub mod Head
pub mod Message
pub mod Repeats
pub mod WarmUp
mod Tests
use intruder_watch.Base.Action.{Action, gets, modify, lift, pure, when, catch, ◌>>=◌, ◌>>◌}
use intruder_watch.Base.Result.{Result, ok, err, type_error, key_error}
use intruder_watch.Base.Int.{ℤ, pos}
use intruder_watch.Json.{
  Json, Items, nil, cons, end, field, obj, arr, int, float, str, Python, lookup, get, is_true,
  json_eq, to_text,
}
use intruder_watch.Json.Key.{Key, Dict, key_of, find, find_or, insert}
use intruder_watch.Str.{Text, codes}
use intruder_watch.Base.{
  map, ℕ, zero, suc, List, [], ◌∷◌, ◌++◌, ◌+◌, ◌&&◌, ◌==◌, Bool, Option, none, some, ltb, length,
  if◌then◌else◌, take,
}

-- `warmup_limit` is WARMUP_LIMIT, and `instance` the first six characters of INSTANCE_ID.
pub record Config : Type 0 where
  pub warmup_limit : ℕ
  pub instance : Text

-- A box of a person: the corners and the rounded confidence, a float.
pub record Box : Type 0 where
  pub corners : List ℤ
  pub confidence : ℕ

pub record Vision (Frame : Type 0) : Type 0 where
  -- `b64decode` and `imdecode`, where none is None
  pub decode : Json → Result (Option Frame)
  -- the boxes that the model returns
  pub detect : Frame → Result (List Box)
  -- `x > y` of floats
  pub greater : ℕ → ℕ → Bool

pub record Alert : Type 0 where
  pub camera : Json
  pub timestamp : Text
  pub filename : Text
  pub human_count : ℕ
  pub max_confidence : ℕ
  pub boxes : List Box

abbrev items_of : List Json → Items
items_of [] = nil
items_of (v ∷ vs) = cons v (items_of vs)

-- The dictionary that is published.
abbrev box_json : Box → Json
box_json b = obj (
    field (codes "box") (arr (items_of (map int b.corners)))
      (field (codes "confidence") (float b.confidence) end))

unfoldable pub alert_payload : Alert → Json
alert_payload a = obj (
    field (codes "camera") a.camera (
      field (codes "timestamp") (str a.timestamp) (
        field (codes "filename") (str a.filename) (
          field (codes "human_count") (int (pos a.human_count)) (
            field (codes "max_confidence") (float a.max_confidence)
              (field (codes "boxes") (arr (items_of (map box_json a.boxes))) end))))))

-- `submitted` is a call of `AlertDispatcher.submit`, `acked` an acknowledgement that succeeds.
pub data Event : Type 0 where
  submitted : Alert → Event
  humans_detected : ℕ → Event
  frame_processed : Event
  decode_error : Event
  exception : Event
  acked : ℕ → Event

pub record State : Type 0 where
  pub last_frame_time : ℕ
  pub frame_counter : ℕ
  pub camera_warmup : Dict ℕ
  pub last_saved_hashes : Dict Json
  pub events : List Event

-- A message: what the clock reads, the date and the time of day as texts, and what a call of
-- `basic_ack` ends with in the callback and in its `except` clause.
pub record Delivery : Type 0 where
  pub now : ℕ
  pub date : Text
  pub time_of_day : Text
  pub tag : ℕ
  pub body : List ℕ
  pub ack : Result (Unit {0})
  pub ack_again : Result (Unit {0})

-- The state behind `DetectionState()`, with what the clock reads, and the two empty dicts.
abbrev pub init : ℕ → State
init now = record {
  last_frame_time = now;
  frame_counter = 0;
  camera_warmup = [];
  last_saved_hashes = [];
  events = [];
}

abbrev pub emit : Event → State → State
emit e s = record s { events = e ∷ s.events }

abbrev pub first_items : ℕ → Items → Items
first_items zero vs = nil
first_items (suc n) nil = nil
first_items (suc n) (cons v vs) = cons v (first_items n vs)

-- `f"{expected_hash[:8]}"`
unfoldable pub short_hash : Python → Json → Result Text
short_hash py (Json.str s) = ok (take 8 s)
short_hash py (Json.arr vs) = ok (py.str_of (Json.arr (first_items 8 vs)))
short_hash py _ = err type_error

-- `payload[k]` of a payload that `get` has read before.
unfoldable pub subscript : Json → Text → Result Json
subscript (Json.obj fs) k = elim (lookup k fs) [ none ↦ err key_error | some v ↦ ok v ]
subscript _ k = err type_error

-- `os.path.join(path, part)`, where the part does not begin with a slash.
unfoldable pub os_join : Text → Text → Text
os_join [] part = part
os_join (c ∷ []) part = if c == b'/' then c ∷ part else c ∷ b'/' ∷ part
os_join (c ∷ path) part = c ∷ os_join path part

module _ {Frame : Type 0} (cfg : Config) (py : Python) (vision : Vision Frame) (d : Delivery) where
  unfoldable pub basic_ack : Result (Unit {0}) → Action State (Unit {0})
  basic_ack answer = lift answer >> modify (emit (acked d.tag))

  unfoldable pub max_confidence_of : ℕ → List Box → ℕ
  max_confidence_of best [] = best
  max_confidence_of best (b ∷ bs) =
      max_confidence_of (if vision.greater b.confidence best then b.confidence else best) bs

  unfoldable pub file_of : Json → Text → Text
  file_of camera_id hash =
      os_join (codes "/app/captures/camera_" ++ to_text py camera_id) d.date
      ++ (codes "/det_"
          ++ (d.date ++ (b' ' ∷ d.time_of_day))
          ++ (b'_' ∷ hash)
          ++ (b'_' ∷ cfg.instance)
          ++ codes ".jpg")

  -- The boxes of a frame: none is no detection.
  unfoldable pub report : Json → Key → Json → List Box → Action State (Unit {0})
  report camera_id key expected_hash [] = pure tt
  report camera_id key expected_hash (b ∷ bs) = do
    when (is_true expected_hash) (
        modify (λ s. record s { last_saved_hashes = insert key expected_hash s.last_saved_hashes }))
    hash ← lift (short_hash py expected_hash)
    modify (
        emit (
          submitted (record {
            camera = camera_id;
            timestamp = d.date ++ (b' ' ∷ d.time_of_day);
            filename = file_of camera_id hash;
            human_count = length (b ∷ bs);
            max_confidence = max_confidence_of b.confidence bs;
            boxes = b ∷ bs;
          })))
    modify (emit (humans_detected (length (b ∷ bs))))

  unfoldable pub detect_people : Json → Key → Json → Option Frame → Action State (Unit {0})
  detect_people camera_id key expected_hash none = do modify (emit decode_error); basic_ack d.ack
  detect_people camera_id key expected_hash (some frame) = do
    boxes ← lift (vision.detect frame)
    report camera_id key expected_hash boxes
    modify (emit frame_processed)
    basic_ack d.ack

  abbrev or_null : Option Json → Json
  or_null none = Json.null
  or_null (some v) = v

  -- `expected_hash and last_saved_hashes.get(camera_id) == expected_hash`
  unfoldable pub is_duplicate : Key → Json → State → Bool
  is_duplicate key expected_hash s =
      is_true expected_hash && json_eq py (or_null (find key s.last_saved_hashes)) expected_hash

  -- Behind the warm-up.
  unfoldable pub examine : Json → Json → Key → Json → Action State (Unit {0})
  examine payload camera_id key expected_hash = do
    modify (λ s. record s { frame_counter = s.frame_counter + 1 })
    duplicate ← gets (is_duplicate key expected_hash)
    if duplicate then (lift (short_hash py expected_hash) >> basic_ack d.ack) else do
      image ← lift (subscript payload (codes "image"))
      frame ← lift (vision.decode image)
      detect_people camera_id key expected_hash frame

  -- The first frames of a camera are skipped.
  unfoldable pub warm_up : Key → ℕ → Action State (Unit {0})
  warm_up key current_count = do
    modify (λ s. record s { camera_warmup = insert key (current_count + 1) s.camera_warmup })
    basic_ack d.ack

  -- The `try` of the callback.
  unfoldable pub read_frame : Action State (Unit {0})
  read_frame = do
    payload ← lift (py.loads d.body)
    camera_id ← lift (get payload (codes "camera") (Json.str (codes "unknown")))
    expected_hash ← lift (get payload (codes "hash") (Json.str []))
    key ← lift (key_of py camera_id)
    current_count ← gets (λ s. find_or key 0 s.camera_warmup)
    if ltb current_count cfg.warmup_limit
        then warm_up key current_count
        else examine payload camera_id key expected_hash

  unfoldable pub callback : Action State (Unit {0})
  callback = do
    modify (λ s. record s { last_frame_time = d.now })
    catch read_frame
        λ e. modify (emit exception) >> catch (basic_ack d.ack_again) (λ ack_err. pure tt)

-- `start_consuming`: the callback of one message behind the other. It never raises.
unfoldable pub deliver :
    {Frame : Type 0} → Config → Python → Vision Frame → List Delivery → State → State
deliver cfg py vision [] s = s
deliver cfg py vision (d ∷ ds) s = deliver cfg py vision ds (callback cfg py vision d s).1
