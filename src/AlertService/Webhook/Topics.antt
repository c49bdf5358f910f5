-- ===== src/AlertService/Webhook/Topics.antt =====
-- Where `webhook` posts to (microservices/alert_service/alert_service.py): only to the three topics
-- of its table.
use intruder_watch.Base.{
  ◌≡◌, ◌⊎◌, refl, true, some, none, Option, List, [], ◌∷◌, ◌++◌, arith, All, not,
}
use intruder_watch.Base.Result.{Result, ok}
use intruder_watch.Base.Keeps.{Keeps, Keeps-bind, Keeps-catch, Keeps-if}
use intruder_watch.Json.{Json, Python, is_true}
use intruder_watch.Str.{Text, codes}
use intruder_watch.Str.Equal.{text_eq→≡}
use intruder_watch.AlertService.Config.{Config}
use intruder_watch.AlertService.Http.{Request, Post}
use intruder_watch.AlertService.Webhook.Message.{request_of, alerts_of}
use intruder_watch.AlertService.Webhook.Round.{
  Round, no_message, no_answer, delivered, post_alert-Round,
}
use intruder_watch.Base.Action.{lift, ◌>>=◌, ◌>>◌}
use intruder_watch.AlertService.Webhook.{
  Event, sent, Call, topics, find_topic, requested, post_alert, post_all, respond, serve, reply,
  webhook, posted,
}

-- The requests that were posted, the newest first.
unfoldable pub requests : List Event → List Request
requests [] = []
requests (posted r ∷ es) = r ∷ requests es
requests (sent t ∷ es) = requests es

-- One of the three topics.
abbrev pub IsTopic : Text → Type 0
IsTopic t =
    (t ≡ codes "intruder-alerts") ⊎ (t ≡ codes "infra-alerts") ⊎ (t ≡ codes "hardware-alerts")

-- A request that goes to ntfy, and there to one of the topics.
abbrev pub IsAllowed : Config → Request → Type 0
IsAllowed cfg r = (t : Text) × IsTopic t × (r.url ≡ cfg.ntfy_internal_url ++ codes "/" ++ t)

find_topic-IsTopic : (t : Text) {u : Text} → find_topic t topics ≡ some u → IsTopic u
unfolding find_topic
find_topic-IsTopic t h = ground arith

find_topic-other : (t : Text) → ¬ IsTopic t → find_topic t topics ≡ none
unfolding find_topic
find_topic-other t other = ground (
  arith,
  other,
  text_eq→≡ (codes "intruder-alerts") t,
  text_eq→≡ (codes "infra-alerts") t,
  text_eq→≡ (codes "hardware-alerts") t,
)

request_of-url :
    (cfg : Config) (py : Python) (t : Text) (alert : Json) {r : Request}
    → request_of cfg py t alert ≡ ok r
    → r.url ≡ cfg.ntfy_internal_url ++ codes "/" ++ t
unfolding request_of
request_of-url cfg py t alert h = ground arith

abbrev AllAllowed : Config → List Event → Type 0
AllAllowed cfg es = All (IsAllowed cfg) (requests es)

module _ (cfg : Config) (py : Python) (post : Post) (t : Text) (topic : IsTopic t) where
  Round-AllAllowed :
      {alert : Json} {es : List Event} {p : Result (Unit {0}) × List Event}
      → Round cfg py post t alert es p
      → AllAllowed cfg es
      → AllAllowed cfg p.1
  unfolding requests
  Round-AllAllowed (no_message bad) h = h
  Round-AllAllowed {alert = alert} (no_answer r good refused) h =
      ((t, topic, request_of-url cfg py t alert good), h)
  Round-AllAllowed {alert = alert} (delivered r good fine) h =
      ((t, topic, request_of-url cfg py t alert good), h)

  post_all-Keeps : (alerts : List Json) → Keeps (AllAllowed cfg) (post_all cfg py post t alerts)
  unfolding post_all
  post_all-Keeps [] = λ es h. h
  post_all-Keeps (a ∷ alerts) =
      Keeps-bind (AllAllowed cfg) (post_alert cfg py post t a) (λ u. post_all cfg py post t alerts)
        (λ es. Round-AllAllowed (post_alert-Round cfg py post t a es)) (λ u. post_all-Keeps alerts)

respond-Keeps :
    (cfg : Config) (py : Python) (post : Post) (found : Option Text) (payload : Json)
    → ((t : Text) → found ≡ some t → IsTopic t)
    → Keeps (AllAllowed cfg) (respond cfg py post found payload)
respond-Keeps cfg py post none payload topic = λ es h. h
respond-Keeps cfg py post (some t) payload topic =
    Keeps-bind (AllAllowed cfg) (lift (alerts_of payload))
      (λ alerts. post_all cfg py post t alerts >> reply 200 (codes "ok")) (λ es h. h)
      (λ alerts.
        Keeps-bind (AllAllowed cfg) (post_all cfg py post t alerts) (λ u. reply 200 (codes "ok"))
          (post_all-Keeps cfg py post t (topic t refl) alerts) (λ u es h. h))

-- Whatever a request of Alertmanager holds and asks for, every post goes to one of the three topics.
pub webhook-IsAllowed :
    (cfg : Config) (py : Python) (post : Post) (call : Call)
    → All (IsAllowed cfg) (requests (webhook cfg py post call []).1)
unfolding webhook requests
webhook-IsAllowed cfg py post call =
    Keeps-catch (AllAllowed cfg) (lift call.json >>= serve cfg py post call)
      (λ e. reply 500 (codes "Internal server error"))
      (Keeps-bind (AllAllowed cfg) (lift call.json) (serve cfg py post call) (λ es h. h)
        (λ payload.
          Keeps-if (AllAllowed cfg) (not (is_true payload)) (reply 400 (codes "No JSON data"))
            (respond cfg py post (find_topic (requested call.topic) topics) payload) (λ es h. h)
            (respond-Keeps cfg py post (find_topic (requested call.topic) topics) payload
              (λ t. find_topic-IsTopic (requested call.topic)))))
      (λ e es h. h) [] tt

-- A request for any other topic, with a body that is not empty, is answered by 403; nothing is
-- posted.
pub webhook-other_topic :
    (cfg : Config) (py : Python) (post : Post) (call : Call) (payload : Json)
    → call.json ≡ ok payload
    → is_true payload ≡ true
    → ¬ IsTopic (requested call.topic)
    → webhook cfg py post call []
      ≡ (ok (record { status_code = 403; text = codes "Invalid topic" }), [])
unfolding webhook
webhook-other_topic cfg py post call payload h full other =
    ground (arith, find_topic-other (requested call.topic) other)
