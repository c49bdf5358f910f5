-- ===== src/Detector/Start.antt =====
-- The life of `consume_frames`, and the answer of `/healthz`
-- (microservices/human_detector/human_detector.py). What the model's loader, RabbitMQ and the file
-- system answer is given; a name is the text of INSTANCE_ID.
pub mod Life
mod Tests
use intruder_watch.Detector.Frames as Frames
use intruder_watch.Detector.Frames.{Config, Vision, Delivery, deliver}
use intruder_watch.Base.Action.{Action, modify, lift, pure, catch, ◌>>=◌, ◌>>◌}
use intruder_watch.Base.Result.{Result, ok, err, value_error}
use intruder_watch.Base.Int.{ℤ, pos, ◌-ℤ◌, ◌*ℤ◌, ltb_ℤ}
use intruder_watch.Json.{Python}
use intruder_watch.Str.{Text, split, codes, text_eq}
use intruder_watch.Str.Decimal.{parse_int}
use intruder_watch.Base.{
  ℕ, Bool, true, false, Option, none, some, List, [], ◌∷◌, ◌||◌, if◌then◌else◌,
}

-- What the start meets: `random.randint(1, 5)`, the outcomes of `YOLO`, `connect_rabbitmq`,
-- `basic_qos` and `os.makedirs`, the messages, and how the loop over them ends.
pub record Outside : Type 0 where
  pub random : ℤ
  pub sleep : ℤ → Result (Unit {0})
  pub load : Result (Unit {0})
  pub connect : Result (Unit {0})
  pub basic_qos : Result (Unit {0})
  pub makedirs : Result (Unit {0})
  pub messages : List Delivery
  pub consuming : Result (Unit {0})

-- `DetectionState` with what the callback keeps.
pub record Service : Type 0 where
  pub is_ready : Bool
  pub frames : Frames.State

-- `s.split(c)[-1]`; a text splits into one part or more.
abbrev last_of : List Text → Text
last_of [] = []
last_of (w ∷ []) = w
last_of (w ∷ ws) = last_of ws

unfoldable pub instance_num : ℤ → Text → ℤ
unfolding parse_int
instance_num random name = elim (parse_int (last_of (split b'_' name))) [
  | some n ↦ n
  | none ↦ elim (parse_int (last_of (split b'-' name))) [ some n ↦ n | none ↦ random ]
]

-- In seconds.
unfoldable pub init_delay : ℤ → Text → ℤ
init_delay random name = (instance_num random name -ℤ pos 1) *ℤ pos 3

abbrev pub set_ready : Bool → Service → Service
set_ready b s = record s { is_ready = b }

module _ {Frame : Type 0} (cfg : Config) (py : Python) (vision : Vision Frame) (name : Text)
    (o : Outside) where
  -- `start_consuming`: the messages, and what ends the loop.
  unfoldable pub start_consuming : Action Service (Unit {0})
  start_consuming = do
    modify (λ s. record s { frames = deliver cfg py vision o.messages s.frames })
    lift o.consuming

  -- The first lines, up to the connection with its two queues.
  unfoldable pub prepare : Action Service (Unit {0})
  prepare = do
    lift (o.sleep (init_delay o.random name))
    lift o.load
    lift o.connect
    lift o.basic_qos

  -- The `finally` clause closes the connection, whatever that ends with.
  unfoldable pub consume_frames : Action Service (Unit {0})
  consume_frames = do
    prepare
    modify (set_ready true)
    lift o.makedirs
    catch start_consuming (λ e. pure tt)
    modify (set_ready false)

-- The answer for a path: the status of `/healthz`, or none for that of the Prometheus library.
unfoldable pub wsgi_app : Text → Service → Option ℕ
wsgi_app path s =
    if text_eq path (codes "/healthz") || text_eq path (codes "/health")
    then some (if s.is_ready then 200 else 503)
    else none
