-- ===== src/AlertPath/Tests.antt =====
-- An alert for two people comes in.
use intruder_watch.AlertPath.{received, callback-alert_payload}
use intruder_watch.AlertService.Config.{Config}
use intruder_watch.AlertService.Callback.{Delivery, callback, init}
use intruder_watch.AlertService.Callback.Outcome.{after}
use intruder_watch.Detector.Frames.{Alert, alert_payload}
use intruder_watch.Stub.{python}
use intruder_watch.Base.Result.{ok}
use intruder_watch.Base.Int.{pos}
use intruder_watch.Json.{Python, str}
use intruder_watch.Json.Key.{text, key_of}
use intruder_watch.Str.{codes}
use intruder_watch.Base.{◌≡◌, refl, [], ◌∷◌, true, none}

abbrev config : Config
config = record {
  alert_cooldown = pos 90;
  ntfy_cooldown = pos 60;
  enable_call_alerts = true;
  alert_recipients = codes "+111";
  ntfy_internal_url = codes "http://ntfy";
  viewer_public_url = codes "https://watch.home";
  image_access_code = none;
}

abbrev two_people : Alert
two_people = record {
  camera = str (codes "7");
  timestamp = codes "2026-10-03 02:15:30.000001";
  filename = codes "/app/captures/camera_7/2026-10-03/det.jpg";
  human_count = 2;
  max_confidence = 91;
  boxes =
      record { corners = pos 1 ∷ pos 2 ∷ pos 3 ∷ pos 4 ∷ []; confidence = 91 }
      ∷ record { corners = []; confidence = 85 }
      ∷ [];
}

-- A run time whose reader knows this one message.
abbrev reader : Python
reader = record python { loads = λ body. ok (alert_payload two_people) }

abbrev delivery : Delivery
delivery = record { now = 90000001; tag = 3; body = 1 ∷ []; acked = ok tt }

camera_key : key_of reader two_people.camera ≡ ok (text (codes "7"))
unfolding key_of
camera_key = refl

callback-alert_payload_example :
    callback config reader delivery init
    ≡ (ok tt, after config delivery (received two_people) (text (codes "7")) init)
callback-alert_payload_example =
    callback-alert_payload config reader two_people delivery init camera_key refl refl
