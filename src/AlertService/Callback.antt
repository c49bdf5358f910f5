-- ===== src/AlertService/Callback.antt =====
-- `alert_service` and its `callback`: a message is read, and starts a thread for the photo and one
-- for the voice calls unless the cooldown of either is still running.
pub mod Outcome
pub mod Limiter
pub mod Cooldown
pub mod Voice
pub mod Acks
use intruder_watch.Base.{ℕ, suc, ◌+◌, ◌*◌, Bool, List, [], ◌∷◌, ltb, if◌then◌else◌}
use intruder_watch.Base.Int.{ℤ, pos, negsuc}
use intruder_watch.Base.Result.{Result}
use intruder_watch.Base.Action.{Action, pure, lift, modify, ◌>>=◌, ◌>>◌}
use intruder_watch.Json.{Python, Json}
use intruder_watch.Json.Key.{Key, key_of, Dict, insert, find_or}
use intruder_watch.AlertService.Config.{Config, Alert, second}
use intruder_watch.AlertService.Payload.{read_alert, recover}

-- What the callback does outside its own variables, at the time at which it does it: the two
-- counters, the threads that it starts, and the acknowledgement of a delivery tag.
pub data Event : Type 0 where
  alerts_total : Json → Event
  alerts_suppressed : Json → Event
  photo_thread : ℕ → Key → Alert → Event
  call_thread : ℕ → Event
  ack : ℕ → Event

-- The variables that the callback closes over, and its events, the newest first.
pub record State : Type 0 where
  pub last_call_time : ℕ
  pub last_ntfy_times : Dict ℕ
  pub events : List Event

abbrev pub init : State
init = record { last_call_time = 0; last_ntfy_times = []; events = [] }

abbrev pub emit : Event → State → State
emit e s = record s { events = e ∷ s.events }

-- `now - last > cooldown`; a cooldown that is negative stands on the other side.
unfoldable pub expired : ℤ → ℕ → ℕ → Bool
expired (pos cooldown) last now = ltb (last + cooldown * second) now
expired (negsuc n) last now = ltb last (now + suc n * second)

-- 1. The photo notification, with a cooldown for each camera.
unfoldable pub notify : Config → ℕ → Key → Alert → State → State
unfolding expired
notify cfg now key alert s =
    if expired cfg.ntfy_cooldown (find_or key 0 s.last_ntfy_times) now
    then record s {
      last_ntfy_times = insert key now s.last_ntfy_times;
      events = photo_thread now key alert ∷ s.events;
    }
    else emit (alerts_suppressed alert.camera_id) s

-- 2. The voice calls, with one cooldown.
unfoldable pub call : Config → ℕ → Alert → State → State
unfolding expired
call cfg now alert s =
    if cfg.enable_call_alerts
    then (if expired cfg.alert_cooldown s.last_call_time now
        then record s { last_call_time = now; events = call_thread now ∷ s.events }
        else emit (alerts_suppressed alert.camera_id) s)
    else s

-- A message, the time at which its callback runs, and what `basic_ack` ends with.
pub record Delivery : Type 0 where
  pub now : ℕ
  pub tag : ℕ
  pub body : List ℕ
  pub acked : Result (Unit {0})

module _ (cfg : Config) (py : Python) where
  -- The look-up of the camera's last time raises where its id cannot be hashed.
  unfoldable pub callback : Delivery → Action State Unit
  callback d = do
    alert ← lift (recover (read_alert py d.body))
    modify (emit (alerts_total alert.camera_id))
    key ← lift (key_of py alert.camera_id)
    modify (notify cfg d.now key alert)
    modify (call cfg d.now alert)
    lift d.acked
    modify (emit (ack d.tag))

  -- `start_consuming`: an exception in a callback leaves the loop.
  unfoldable pub consume : List Delivery → Action State Unit
  consume [] = pure tt
  consume (d ∷ ds) = do callback d; consume ds
