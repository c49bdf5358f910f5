-- ===== src/AlertPath.antt =====
-- The way of an alert from the detector (microservices/human_detector/human_detector.py) to the
-- alert service (microservices/alert_service/alert_service.py).
mod Tests
use intruder_watch.AlertService.Config.{Config, Alert}
use intruder_watch.AlertService.Payload.{count_of, confidence_of, read_alert, recover}
use intruder_watch.AlertService.Callback.{State, Delivery, callback}
use intruder_watch.AlertService.Callback.Outcome.{accepted, after, callback-accepted}
use intruder_watch.Detector.Frames as Frames
use intruder_watch.Detector.Frames.{alert_payload}
use intruder_watch.Base.Result.{ok}
use intruder_watch.Base.Int.{pos}
use intruder_watch.Json.{Json, Python, str, get, lookup, to_int, to_float}
use intruder_watch.Json.Key.{Key, key_of}
use intruder_watch.Str.{text_eq}
use intruder_watch.Base.{◌≡◌, refl}

-- The alert of the detector, as the alert service keeps it.
abbrev pub received : Frames.Alert → Alert
received a = record {
  camera_id = a.camera;
  timestamp = str a.timestamp;
  filename = str a.filename;
  human_count = pos a.human_count;
  max_confidence = a.max_confidence;
}

module _ (cfg : Config) (py : Python) (a : Frames.Alert) (d : Delivery) where
  read_alert-payload :
      py.loads d.body ≡ ok (alert_payload a) → read_alert py d.body ≡ ok (received a)
  unfolding read_alert alert_payload get lookup text_eq count_of confidence_of to_int to_float
  read_alert-payload h = rw h refl

  -- An alert of the detector is read by the alert service with its camera, time, picture, number of
  -- people and confidence, and handled to the end, if the camera is a value that can be looked up,
  -- the body of the message is read as the dictionary that the detector wrote, and the
  -- acknowledgement returns.
  pub callback-alert_payload :
      (s : State) {key : Key}
      → key_of py a.camera ≡ ok key
      → py.loads d.body ≡ ok (alert_payload a)
      → d.acked ≡ ok tt
      → callback cfg py d s ≡ (ok tt, after cfg d (received a) key s)
  unfolding accepted recover
  callback-alert_payload s k h fine =
      callback-accepted cfg py d s (rw (read_alert-payload h, k, accepted) refl) fine
