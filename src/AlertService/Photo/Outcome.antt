-- ===== src/AlertService/Photo/Outcome.antt =====
-- What one run of `send_ntfy_photo` does, by the answer to its post
-- (microservices/alert_service/alert_service.py).
use intruder_watch.Base.{ℕ, suc, ◌+◌, ◌≤◌, ◌≡◌, List, [], ◌∷◌, ◌++◌, arith, some, none}
use intruder_watch.Base.Result.{Error, ok, err, Result}
use intruder_watch.Json.{Json, Python, to_text}
use intruder_watch.Str.{Text, codes}
use intruder_watch.AlertService.Config.{Config, Alert}
use intruder_watch.AlertService.Http.{Request, Post, answer}
use intruder_watch.AlertService.Photo.{
  Event, posted, sent, failed, clean_timestamp, image_url, conf_text, wording, encode, post_photo,
  send_ntfy_photo,
}

module _ (cfg : Config) (py : Python) (post : Post) where
  -- The request that is posted, or the exception that comes before the post.
  unfoldable pub request_of : Alert → Json → Text → Result Request
  request_of a clean url = elim (conf_text py a.max_confidence) [
    | ok conf ↦
        let words = wording py a conf (to_text py clean) in
        elim (encode words.1) [
          | ok message ↦ ok (record {
            url = cfg.ntfy_internal_url ++ codes "/intruder-alerts";
            title = words.0;
            priority = codes "5";
            tags = words.2;
            attach = some url;
            body = message;
          })
          | err e ↦ err e
        ]
    | err e ↦ err e
  ]

  pub post_photo-posts :
      (a : Alert) (es : List Event) (clean : Json) (url : Text) (r : Request)
      → request_of a clean url ≡ ok r
      → post_photo cfg py post a clean url es ≡ (elim (answer post r) [
        | ok u ↦ (ok tt, sent a.camera_id ∷ posted r ∷ es)
        | err e ↦ (err e, posted r ∷ es)
      ])
  unfolding post_photo request_of answer
  post_photo-posts a es clean url r h = ground arith

  pub post_photo-fails :
      (a : Alert) (es : List Event) (clean : Json) (url : Text) {e : Error}
      → request_of a clean url ≡ err e
      → post_photo cfg py post a clean url es ≡ (err e, es)
  unfolding post_photo request_of
  post_photo-fails a es clean url h = ground arith

  -- With a timestamp that can be cleaned and a path that can be linked: the thread ends without an
  -- exception, makes one post, and counts it as sent where the answer is good and as failed, with
  -- the exception, where it is not.
  pub send_ntfy_photo-posts :
      (a : Alert) (es : List Event) (clean : Json) (url : Text) (r : Request)
      → clean_timestamp a.timestamp ≡ ok clean
      → image_url cfg a.filename ≡ ok (some url)
      → request_of a clean url ≡ ok r
      → send_ntfy_photo cfg py post a es ≡ (
        ok tt,
        (elim (answer post r) [ ok u ↦ sent a.camera_id | err e ↦ failed a.camera_id e ])
            ∷ posted r
            ∷ es,
      )
  unfolding send_ntfy_photo
  send_ntfy_photo-posts a es clean url r hc hu hr =
      ground (arith, post_photo-posts a es clean url r)

-- How often each event was recorded.
abbrev pub posts : List Event → ℕ
posts [] = 0
posts (posted r ∷ es) = suc (posts es)
posts (_ ∷ es) = posts es

abbrev pub sents : List Event → ℕ
sents [] = 0
sents (sent c ∷ es) = suc (sents es)
sents (_ ∷ es) = sents es

abbrev pub failures : List Event → ℕ
failures [] = 0
failures (failed c e ∷ es) = suc (failures es)
failures (_ ∷ es) = failures es

module _ (cfg : Config) (py : Python) (post : Post) where
  -- A thread whose timestamp is a text ends without an exception, whatever the path, the
  -- confidence and the answer are. It makes one post at most, counts one outcome at most, and
  -- counts as sent only what it has posted; only a path of fewer than four parts counts nothing.
  pub send_ntfy_photo-accounted :
      (a : Alert) (s : Text)
      → a.timestamp ≡ Json.str s
      → let (result, es) = send_ntfy_photo cfg py post a [] in
        (result ≡ ok tt)
        × (posts es ≤ 1)
        × (sents es ≤ posts es)
        × (sents es + failures es
            ≡ (elim (image_url cfg a.filename) [ ok none ↦ 0 | ok (some url) ↦ 1 | err e ↦ 1 ]))
  unfolding send_ntfy_photo post_photo clean_timestamp
  send_ntfy_photo-accounted a s h = ground (arith, h)
