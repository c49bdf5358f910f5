-- ===== src/AlertService/Payload.antt =====
-- How `callback` reads the body of a message, with its `try` and the values that it falls back on
-- (microservices/alert_service/alert_service.py).
use intruder_watch.Base.{ℕ, Bool, true, false, List, [], if◌then◌else◌}
use intruder_watch.Base.Int.{ℤ, pos}
use intruder_watch.Base.Result.{
  Error, Result, ok, err, json_decode_error, unicode_decode_error, value_error, type_error, ◌>>=◌,
}
use intruder_watch.Json.{Json, Python, get, to_float, to_int}
use intruder_watch.Str.{codes}
use intruder_watch.AlertService.Config.{Alert}

-- `int(raw_count) if raw_count is not None else 1`
unfoldable pub count_of : Python → Json → Result ℤ
unfolding to_int
count_of py Json.null = ok (pos 1)
count_of py raw = to_int py raw

-- `float(raw_conf) if raw_conf is not None else 0.0`
unfoldable pub confidence_of : Python → Json → Result ℕ
unfolding to_float
confidence_of py Json.null = ok 0
confidence_of py raw = to_float py raw

-- The body of the `try`.
unfoldable pub read_alert : Python → List ℕ → Result Alert
unfolding get count_of confidence_of
read_alert py body = do
  payload ← py.loads body
  camera_id ← get payload (codes "camera") (Json.str (codes "unknown"))
  timestamp ← get payload (codes "timestamp") (Json.str (codes "unknown"))
  filename ← get payload (codes "filename") (Json.str [])
  raw_count ← get payload (codes "human_count") Json.null
  human_count ← count_of py raw_count
  raw_conf ← get payload (codes "max_confidence") Json.null
  max_confidence ← confidence_of py raw_conf
  ok (record {
    camera_id = camera_id;
    timestamp = timestamp;
    filename = filename;
    human_count = human_count;
    max_confidence = max_confidence;
  })

abbrev pub fallback : Alert
fallback = record {
  camera_id = Json.str (codes "unknown");
  timestamp = Json.str (codes "unknown");
  filename = Json.str [];
  human_count = pos 1;
  max_confidence = 0;
}

-- The classes that the `except` clause names, with their subclasses.
unfoldable pub is_malformed : Error → Bool
is_malformed json_decode_error = true
is_malformed unicode_decode_error = true
is_malformed value_error = true
is_malformed type_error = true
is_malformed _ = false

unfoldable pub recover : Result Alert → Result Alert
unfolding is_malformed
recover (ok a) = ok a
recover (err e) = if is_malformed e then ok fallback else err e
