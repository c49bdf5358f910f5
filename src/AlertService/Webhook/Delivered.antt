-- ===== src/AlertService/Webhook/Delivered.antt =====
-- What `webhook` answers, and how many messages it has delivered by then
-- (microservices/alert_service/alert_service.py).
use intruder_watch.Base.{
  ℕ, suc, ◌+◌, ◌≡◌, refl, true, false, some, Bool, List, [], ◌∷◌, arith, ◌==◌, if◌then◌else◌,
  length,
}
use intruder_watch.Base.Result.{Result, is_ok, ok, err}
use intruder_watch.Base.Action.{seq-ok, seq-err}
use intruder_watch.Json.{Json, Python, is_true}
use intruder_watch.Str.{Text, codes}
use intruder_watch.AlertService.Config.{Config}
use intruder_watch.AlertService.Http.{Post, answer}
use intruder_watch.AlertService.Webhook.Message.{request_of, alerts_of}
use intruder_watch.AlertService.Webhook.{
  Event, posted, sent, Call, topics, find_topic, requested, post_alert, post_all, webhook,
}
use intruder_watch.AlertService.Webhook.Round.{
  Round, no_message, no_answer, delivered, post_alert-Round,
}

-- The messages that were counted as sent.
unfoldable pub sents : List Event → ℕ
sents [] = 0
sents (posted r ∷ es) = sents es
sents (sent t ∷ es) = suc (sents es)

module _ (cfg : Config) (py : Python) (post : Post) (t : Text) where
  -- Whether an alert makes a message whose post is answered well.
  unfoldable pub delivers : Json → Bool
  delivers alert = elim (request_of cfg py t alert) [
    | ok r ↦ elim (answer post r) [ ok u ↦ true | err e ↦ false ]
    | err e ↦ false
  ]

  -- How many alerts are delivered before the first that is not.
  unfoldable pub delivered_first : List Json → ℕ
  delivered_first [] = 0
  delivered_first (a ∷ alerts) =
      let rest = delivered_first alerts in if delivers a then suc rest else 0

  -- The number of messages sent, and whether the loop ends without an exception.
  Ends : List Json → List Event → Result (Unit {0}) × List Event → Type 0
  Ends alerts es (r, es') =
      (sents es' ≡ sents es + delivered_first alerts)
      × (is_ok r ≡ (delivered_first alerts == length alerts))

  Round-Ends :
      (a : Json) (alerts : List Json) (es : List Event) {p : Result (Unit {0}) × List Event}
      → Round cfg py post t a es p
      → post_alert cfg py post t a es ≡ p
      → ((es' : List Event) → Ends alerts es' (post_all cfg py post t alerts es'))
      → Ends (a ∷ alerts) es (post_all cfg py post t (a ∷ alerts) es)
  unfolding post_all sents delivered_first delivers Ends
  Round-Ends a alerts es (no_message bad) e ih =
      rw (seq-err (post_alert cfg py post t a) es (post_all cfg py post t alerts) e)
        (ground (arith, bad))
  Round-Ends a alerts es (no_answer r good refused) e ih =
      rw (seq-err (post_alert cfg py post t a) es (post_all cfg py post t alerts) e)
        (ground (arith, good, refused))
  Round-Ends a alerts es (delivered r good fine) e ih =
      rw (seq-ok (post_alert cfg py post t a) es (post_all cfg py post t alerts) e)
        (ground (arith, good, fine, ih (sent t ∷ posted r ∷ es)))

  post_all-Ends :
      (alerts : List Json) (es : List Event) → Ends alerts es (post_all cfg py post t alerts es)
  post_all-Ends [] es = unfold Ends post_all delivered_first in (omega arith, refl)
  post_all-Ends (a ∷ alerts) es =
      Round-Ends a alerts es (post_alert-Round cfg py post t a es) refl (post_all-Ends alerts)

-- For a request with a topic of the table and a list of alerts: the answer is 200 if every alert
-- was delivered and 500 otherwise, no exception leaves the handler, and the messages sent are those
-- of the alerts before the first that makes no message or whose post is not answered well.
pub webhook-delivered :
    (cfg : Config) (py : Python) (post : Post) (call : Call) (payload : Json) (t : Text)
    (alerts : List Json)
    → call.json ≡ ok payload
    → is_true payload ≡ true
    → find_topic (requested call.topic) topics ≡ some t
    → alerts_of payload ≡ ok alerts
    → let n = delivered_first cfg py post t alerts in
      (sents (webhook cfg py post call []).1 ≡ n)
      × ((webhook cfg py post call []).0
          ≡ ok (
              if n == length alerts
              then record { status_code = 200; text = codes "ok" }
              else record { status_code = 500; text = codes "Internal server error" }))
unfolding webhook
webhook-delivered cfg py post call payload t alerts hj full ht ha =
    let ends : Ends cfg py post t alerts [] (post_all cfg py post t alerts []) =
      post_all-Ends cfg py post t alerts [] in
    unfold Ends sents in ground (arith, hj, ha, full, ht, ends)
