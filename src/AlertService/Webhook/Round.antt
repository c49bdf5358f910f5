-- ===== src/AlertService/Webhook/Round.antt =====
-- One round of the loop of `webhook` (microservices/alert_service/alert_service.py), by whether the
-- alert makes a message and the post is answered well.
use intruder_watch.Base.{◌≡◌, inl, inr, List, ◌∷◌, arith}
use mathlib.Core.Path.{subst}
use intruder_watch.Base.Result.{Error, Result, ok, err, Result-cases}
use intruder_watch.Json.{Json, Python}
use intruder_watch.Str.{Text}
use intruder_watch.AlertService.Config.{Config}
use intruder_watch.AlertService.Http.{Request, Post, answer}
use intruder_watch.AlertService.Webhook.Message.{request_of}
use intruder_watch.AlertService.Webhook.{Event, posted, sent, post_alert}

module _ (cfg : Config) (py : Python) (post : Post) (t : Text) where
  -- What a round ends with.
  pub data Round (alert : Json) (es : List Event) : Result (Unit {0}) × List Event → Type 0 where
    no_message : {e : Error} → request_of cfg py t alert ≡ err e → Round alert es (err e, es)
    no_answer :
        {e : Error} (r : Request)
        → request_of cfg py t alert ≡ ok r
        → answer post r ≡ err e
        → Round alert es (err e, posted r ∷ es)
    delivered :
        (r : Request)
        → request_of cfg py t alert ≡ ok r
        → answer post r ≡ ok tt
        → Round alert es (ok tt, sent t ∷ posted r ∷ es)

module _ (cfg : Config) (py : Python) (post : Post) (t : Text) where
  pub post_alert-Round :
      (alert : Json) (es : List Event)
      → Round cfg py post t alert es (post_alert cfg py post t alert es)
  unfolding post_alert answer
  post_alert-Round alert es = elim (Result-cases (request_of cfg py t alert)) [
    | inl (e, bad) ↦ rw bad (no_message bad)
    | inr (r, good) ↦ rw good (elim (Result-cases (answer post r)) [
      | inl (e, refused) ↦
          subst (Round cfg py post t alert es) (ground arith) (no_answer r good refused)
      | inr (u, fine) ↦ subst (Round cfg py post t alert es) (ground arith) (delivered r good fine)
    ])
  ]
