-- ===== src/AlertService/Tests.antt =====
-- The alert service (microservices/alert_service/alert_service.py) on concrete inputs, with a run
-- time for Python that answers on them.
use mathlib.Core.List.{reverse}
use intruder_watch.Base.{ℕ, ◌+◌, ◌*◌, ◌≤◌, ◌≡◌, refl, true, some, List, [], ◌∷◌, All}
use intruder_watch.Base.Int.{pos}
use intruder_watch.Base.Result.{ok, err, connection_error}
use intruder_watch.Json.{is_true, get, json_eq, Json, nil, cons, end, field, str, int}
use intruder_watch.Json.Key.{number, key_of, key_eq}
use intruder_watch.Str.{Text, codes, split, strip, text_eq}
use intruder_watch.Stub.{python}
use intruder_watch.AlertService.Config.{Config, Alert, second}
use intruder_watch.AlertService.Http.{Request, Post, answer, raise_for_status}
use intruder_watch.AlertService.Payload.{read_alert, recover}
use intruder_watch.AlertService.Callback.{init, Delivery, consume}
use intruder_watch.AlertService.Callback.Limiter.{limit, is_late}
use intruder_watch.AlertService.Callback.Cooldown.{photo_times, arrivals, photo_times-consume}
use intruder_watch.AlertService.Callback.Voice.{call_times, call_arrivals, call_times-consume}
use intruder_watch.AlertService.Callback.Acks.{acks, acks-consume}
use intruder_watch.AlertService.Callback.Outcome.{accepted, handled, alerted}
use intruder_watch.AlertService.Photo.{send_ntfy_photo, image_url}
use intruder_watch.AlertService.Photo.Link.{path}
use intruder_watch.AlertService.Photo.Outcome.{posts, sents, failures, send_ntfy_photo-accounted}
use intruder_watch.AlertService.Calls.{dispatch_calls, recipient_list}
use intruder_watch.AlertService.Calls.Order.{tried, labels, AreLabels, dispatch_calls-calls}
use intruder_watch.AlertService.Webhook.{Call, webhook, find_topic}
use intruder_watch.AlertService.Webhook.Message as Message
use intruder_watch.AlertService.Webhook.Message.{alerts_of}
use intruder_watch.AlertService.Webhook.Topics.{IsAllowed, requests, webhook-IsAllowed}
use intruder_watch.AlertService.Webhook.Delivered as Delivered
use intruder_watch.AlertService.Webhook.Delivered.{webhook-delivered}

abbrev config : Config
config = record {
  alert_cooldown = pos 90;
  ntfy_cooldown = pos 60;
  enable_call_alerts = true;
  alert_recipients = codes "+111: :+222";
  ntfy_internal_url = codes "http://ntfy";
  viewer_public_url = codes "https://watch.home";
  image_access_code = some (codes "key");
}

-- Bodies that the stub reads: an alert of camera 1 (`1`), one of camera 2 (`2`), a list (`3`), and
-- what is no JSON (`0`).
abbrev at : ℕ → ℕ → ℕ → Delivery
at seconds tag body = record { now = seconds * second; tag = tag; body = body ∷ []; acked = ok tt }

abbrev morning : List Delivery
morning = at 1000 1 1 ∷ at 1030 2 1 ∷ at 1031 3 2 ∷ at 1061 4 1 ∷ at 1095 5 0 ∷ at 1096 6 3 ∷ []

photo_times-consume_example :
    photo_times (number (pos 1)) (consume config python morning init).1.events
    ≡ 1061 * second ∷ 1000 * second ∷ []
unfolding limit is_late arrivals accepted read_alert recover key_of key_eq
photo_times-consume_example = photo_times-consume config python (number (pos 1)) morning

call_times-consume_example :
    call_times (consume config python morning init).1.events ≡ 1095 * second ∷ 1000 * second ∷ []
unfolding limit is_late call_arrivals alerted accepted read_alert recover key_of
call_times-consume_example = call_times-consume config python morning

acks-consume_example : acks (consume config python morning init).1.events ≡ 5 ∷ 4 ∷ 3 ∷ 2 ∷ 1 ∷ []
unfolding handled accepted read_alert recover key_of
acks-consume_example = acks-consume config python morning

abbrev alert : Alert
alert = record {
  camera_id = int (pos 1);
  timestamp = str (codes "2026-10-03 02:15:30.1");
  filename =
      str (path (codes "/app/captures") (codes "camera_1") (codes "2026-10-03") (codes "det.jpg"));
  human_count = pos 3;
  max_confidence = 95;
}

abbrev link : Text
link = codes "https://watch.home/images/camera_1/2026-10-03/det.jpg?token=key"

-- The messages of the tests in microservices/tests/test_alert_service.py.
abbrev notification : Request
notification = record {
  url = codes "http://ntfy/intruder-alerts";
  title = codes "INTRUDER: Camera 1 (3 Persons)";
  priority = codes "5";
  tags = codes "rotating_light,warning,camera";
  attach = some link;
  body = codes "3 persons detected (95% conf) at 2026-10-03 02:15:30";
}

abbrev accept : Post
accept r = ok 200

abbrev refuse : Post
refuse r = ok 503

send_ntfy_photo-accounted_example :
    let (result, es) = send_ntfy_photo config python accept alert [] in
    (result ≡ ok tt) × (posts es ≤ 1) × (sents es ≤ posts es) × (sents es + failures es ≡ 1)
unfolding image_url split
send_ntfy_photo-accounted_example =
    send_ntfy_photo-accounted config python accept alert (codes "2026-10-03 02:15:30.1") refl

dispatch_calls-calls_example :
    let (result, es) =
      dispatch_calls config (λ r. err connection_error) config.alert_recipients [] in
    let recipients = recipient_list config.alert_recipients in
    (result ≡ ok tt)
    × (tried es ≡ codes "+222" ∷ codes "+111" ∷ [])
    × ((ls : List Text) × (labels es ≡ reverse ls) × AreLabels recipients recipients ls)
unfolding recipient_list split strip
dispatch_calls-calls_example = dispatch_calls-calls config (λ r. err connection_error)

-- Two firing alerts; the second has no object for its labels.
abbrev report : Json
report = Json.obj (
    field (codes "alerts")
      (Json.arr (cons (Json.obj end) (cons (Json.obj (field (codes "labels") Json.null end)) nil)))
      end)

abbrev call_to : Text → Call
call_to t = record { json = ok report; topic = some t }

webhook-IsAllowed_example :
    All
      (IsAllowed config)
      (requests (webhook config python accept (call_to (codes "infra-alerts")) []).1)
webhook-IsAllowed_example = webhook-IsAllowed config python accept (call_to (codes "infra-alerts"))

webhook-delivered_example :
    (Delivered.sents (webhook config python accept (call_to (codes "infra-alerts")) []).1 ≡ 1)
    × ((webhook config python accept (call_to (codes "infra-alerts")) []).0
        ≡ ok (record { status_code = 500; text = codes "Internal server error" }))
unfolding Delivered.delivered_first Delivered.delivers Message.request_of get json_eq answer
    raise_for_status
webhook-delivered_example =
    webhook-delivered config python accept (call_to (codes "infra-alerts")) report
      (codes "infra-alerts") (Json.obj end ∷ Json.obj (field (codes "labels") Json.null end) ∷ [])
      refl (unfold is_true in refl) (unfold find_topic text_eq in refl)
      (unfold alerts_of get in refl)
