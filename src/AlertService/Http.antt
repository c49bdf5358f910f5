-- ===== src/AlertService/Http.antt =====
-- The posts to ntfy that microservices/alert_service/alert_service.py makes. The HTTP library is a
-- parameter: what a post answers, a status or an exception.
use intruder_watch.Base.{ℕ, ◌&&◌, Option, leb, ltb, if◌then◌else◌}
use intruder_watch.Base.Result.{Result, ok, err, http_error}
use intruder_watch.Str.{Text}

-- The target, the headers, and the text of the body, which goes out in UTF-8.
pub record Request : Type 0 where
  pub url : Text
  pub title : Text
  pub priority : Text
  pub tags : Text
  pub attach : Option Text
  pub body : Text

-- `http_session.post`: the status of the answer.
abbrev pub Post : Type 0
Post = Request → Result ℕ

-- `response.raise_for_status()`
unfoldable pub raise_for_status : ℕ → Result (Unit {0})
raise_for_status status = if leb 400 status && ltb status 600 then err http_error else ok tt

-- Whether a post is answered well, or the exception of the two calls.
unfoldable pub answer : Post → Request → Result (Unit {0})
answer post request = elim (post request) [ ok status ↦ raise_for_status status | err e ↦ err e ]
