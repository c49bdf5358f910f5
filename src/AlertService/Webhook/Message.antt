-- ===== src/AlertService/Webhook/Message.antt =====
-- The message that `webhook` makes of one alert of Alertmanager, and the alerts of a request
-- (microservices/alert_service/alert_service.py).
use intruder_watch.Base.{none, List, [], ◌∷◌, ◌++◌, if◌then◌else◌, take}
use intruder_watch.Base.Result.{Result, ok, err, type_error, ◌>>=◌}
use intruder_watch.Json.{
  Json, nil, end, str, Python, get, json_eq, to_text, Items, Fields, cons, field,
}
use intruder_watch.Json.Key.{Key, key_of, text}
use intruder_watch.Str.{Text, codes, text_eq}
use intruder_watch.AlertService.Config.{Config}
use intruder_watch.AlertService.Http.{Request}

abbrev items : Items → List Json
items nil = []
items (cons v vs) = v ∷ items vs

abbrev keys : Fields → List Json
keys end = []
keys (field k v fs) = str k ∷ keys fs

abbrev chars : Text → List Json
chars [] = []
chars (c ∷ s) = str (c ∷ []) ∷ chars s

-- What a `for` loop goes through: the items of a list, the keys of a dict, the characters of a text.
unfoldable pub iterate : Json → Result (List Json)
iterate (Json.arr vs) = ok (items vs)
iterate (Json.obj fs) = ok (keys fs)
iterate (Json.str s) = ok (chars s)
iterate _ = err type_error

-- `data.get("alerts", [])`, as the loop goes through it.
unfoldable pub alerts_of : Json → Result (List Json)
unfolding iterate
alerts_of payload = do alerts ← get payload (codes "alerts") (Json.arr nil); iterate alerts

abbrev lookup_text : Text → List (Text × Text) → Text → Text
lookup_text k [] d = d
lookup_text k ((j, v) ∷ m) d = if text_eq j k then v else lookup_text k m d

-- The table `resolution_messages`, with the two entries that name a job and a container.
abbrev resolution_messages : Text → Text → List (Text × Text)
resolution_messages job name =
    (codes "GPUTempHigh", codes "GPU Temperature stabilized (< 75°C)")
    ∷ (codes "GPUPowerHigh", codes "GPU Power usage normalized")
    ∷ (codes "ServiceDown", codes "Service " ++ job ++ codes " is back online")
    ∷ (codes "RabbitMQBacklog", codes "Queue backlog has been cleared")
    ∷ (codes "HostHighCPU", codes "CPU usage has normalized")
    ∷ (codes "HostLowDiskSpace", codes "Disk space issue resolved")
    ∷ (
      codes "ContainerCPUThrottling",
      codes "Container " ++ name ++ codes " CPU throttling resolved",
    )
    ∷ []

-- Only a text can be a key of the table.
abbrev resolution : Key → List (Text × Text) → Text → Text
resolution (text k) table default = lookup_text k table default
resolution _ table default = default

module _ (cfg : Config) (py : Python) (topic : Text) where
  abbrev firing_priority : Json → Text
  firing_priority severity =
      if json_eq py severity (str (codes "critical")) then codes "5" else codes "3"

  abbrev request : Json → Text → Text → Text → Request
  request alertname message tag priority = record {
    url = cfg.ntfy_internal_url ++ codes "/" ++ topic;
    title = take 100 (to_text py alertname);
    priority = priority;
    tags = tag;
    attach = none;
    body = message;
  }

  -- A resolved alert: the name of the alert is looked up in the table.
  unfoldable pub resolved_request : Json → Json → Result Request
  resolved_request labels alertname = do
    job ← get labels (codes "job") (str (codes "unknown"))
    name ← get labels (codes "name") (str (codes "unknown"))
    key ← key_of py alertname
    let table = resolution_messages (to_text py job) (to_text py name)
    let detail = resolution key table (to_text py alertname ++ codes " condition cleared")
    ok (request alertname (codes "✅ RESOLVED: " ++ detail) (codes "white_check_mark") (codes "1"))

  unfoldable pub request_of : Json → Result Request
  unfolding resolved_request
  request_of alert = do
    annotations ← get alert (codes "annotations") (Json.obj end)
    summary ← get annotations (codes "summary") (str (codes "No summary provided"))
    labels ← get alert (codes "labels") (Json.obj end)
    alertname ← get labels (codes "alertname") (str (codes "Unknown Alert"))
    severity ← get labels (codes "severity") (str (codes "warning"))
    status ← get alert (codes "status") (str (codes "firing"))
    if json_eq py status (str (codes "firing"))
        then ok (
            request alertname (codes "🚨 " ++ to_text py summary) (codes "warning")
              (firing_priority severity))
        else resolved_request labels alertname
