-- ===== src/AlertService/Webhook.antt =====
-- `webhook` of microservices/alert_service/alert_service.py: the alerts of one request of
-- Alertmanager, each posted as a message to a topic of ntfy.
pub mod Message
pub mod Round
pub mod Topics
pub mod Delivered
use intruder_watch.Base.{ℕ, not, Option, none, some, List, [], ◌∷◌, if◌then◌else◌}
use intruder_watch.Base.Result.{Result, ok}
use intruder_watch.Base.Action.{Action, pure, lift, modify, catch, ◌>>=◌, ◌>>◌}
use intruder_watch.Json.{Json, Python, is_true}
use intruder_watch.Str.{Text, codes, text_eq}
use intruder_watch.AlertService.Config.{Config}
use intruder_watch.AlertService.Http.{Post, raise_for_status, Request}
use intruder_watch.AlertService.Webhook.Message.{request_of, alerts_of}

-- The post that is made, and the counter with the topic as its label.
pub data Event : Type 0 where
  posted : Request → Event
  sent : Text → Event

-- The answer: its status and the text of its one entry.
pub record Reply : Type 0 where
  pub status_code : ℕ
  pub text : Text

-- `request.json`, which raises where the body is no JSON, and `request.args.get("topic")`.
pub record Call : Type 0 where
  pub json : Result Json
  pub topic : Option Text

abbrev pub topics : List Text
topics = codes "intruder-alerts" ∷ codes "infra-alerts" ∷ codes "hardware-alerts" ∷ []

-- TOPIC_MAP.get: each key is mapped to itself.
unfoldable pub find_topic : Text → List Text → Option Text
find_topic t [] = none
find_topic t (k ∷ ks) = if text_eq k t then some k else find_topic t ks

-- `request.args.get("topic", "infra-alerts")`
abbrev pub requested : Option Text → Text
requested none = codes "infra-alerts"
requested (some t) = t

module _ (cfg : Config) (py : Python) (post : Post) (topic : Text) where
  -- One round of the loop.
  unfoldable pub post_alert : Json → Action (List Event) Unit
  post_alert alert = do
    request ← lift (request_of cfg py topic alert)
    modify (λ es. posted request ∷ es)
    status ← lift (post request)
    lift (raise_for_status status)
    modify (λ es. sent topic ∷ es)

  unfoldable pub post_all : List Json → Action (List Event) Unit
  unfolding post_alert
  post_all [] = pure tt
  post_all (alert ∷ alerts) = do post_alert alert; post_all alerts

abbrev pub reply : ℕ → Text → Action (List Event) Reply
reply status text = pure (record { status_code = status; text = text })

module _ (cfg : Config) (py : Python) (post : Post) where
  abbrev pub respond : Option Text → Json → Action (List Event) Reply
  respond none payload = reply 403 (codes "Invalid topic")
  respond (some topic) payload = do
    alerts ← lift (alerts_of payload)
    post_all cfg py post topic alerts
    reply 200 (codes "ok")

  -- The body of the `try`, behind the reading of the JSON.
  abbrev pub serve : Call → Json → Action (List Event) Reply
  serve call payload =
      if not (is_true payload)
      then reply 400 (codes "No JSON data")
      else respond (find_topic (requested call.topic) topics) payload

  unfoldable pub webhook : Call → Action (List Event) Reply
  webhook call =
      catch (do payload ← lift call.json; serve call payload)
        (λ e. reply 500 (codes "Internal server error"))
