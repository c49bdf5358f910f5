-- ===== src/Viewer/Pages.antt =====
-- The login and the pages of microservices/viewer_service/viewer_service.py.
pub mod Login
use intruder_watch.Viewer.Session.{create_session_token}
use intruder_watch.Viewer.Image.{of_result}
use intruder_watch.Viewer.Auth.{Request, Http, or_empty, get_session_user, http_exception, reply}
use intruder_watch.Viewer.Config.{compare_digest, Config, Codec, session_max_age}
use intruder_watch.Str.{Text, codes, truthy}
use intruder_watch.Base.Result.{ok, Result, ◌>>=◌}
use intruder_watch.Base.{none, some, true, false, if◌then◌else◌, ℕ, Option, Bool, not, ◌&&◌}

pub data Cookie : Type 0 where
  -- `set_cookie("session_token", token, max_age)`, and `delete_cookie("session_token")`
  set_session : Text → ℕ → Cookie
  delete_session : Cookie

pub data Body : Type 0 where
  file : Text → Body
  redirect : Text → Body
  json_user : Text → Body

-- `no_store` is the Cache-Control header `no-cache, no-store, must-revalidate`.
pub record Response : Type 0 where
  pub status_code : ℕ
  pub body : Body
  pub no_store : Bool
  pub cookie : Option Cookie

abbrev pub redirect_to : Text → Option Cookie → Response
redirect_to url cookie = record {
  status_code = 303;
  body = redirect url;
  no_store = true;
  cookie = cookie;
}

abbrev pub page : Text → Response
page name = record { status_code = 200; body = file name; no_store = true; cookie = none }

-- `is_correct_username and is_correct_password`; both comparisons are made, and an exception of
-- either leaves the handler.
unfoldable pub credentials_match : Config → Text → Text → Result Bool
unfolding compare_digest
credentials_match cfg username password = do
  is_correct_username ← compare_digest username cfg.viewer_username
  is_correct_password ← compare_digest password cfg.viewer_password
  ok (is_correct_username && is_correct_password)

module _ (cfg : Config) (codec : Codec) (now : ℕ) where
  unfoldable pub serve_login : Request → Response
  serve_login r =
      if truthy (or_empty (get_session_user cfg codec now r))
      then redirect_to (codes "/") none
      else page (codes "login.html")

  unfoldable pub serve_root : Request → Response
  serve_root r =
      if not (truthy (or_empty (get_session_user cfg codec now r)))
      then redirect_to (codes "/login") none
      else page (codes "index.html")

  unfoldable pub api_login : Text → Text → Http Response
  unfolding credentials_match
  api_login username password = of_result (credentials_match cfg username password) λ correct.
      if not correct
      then http_exception 401
      else reply (record {
        status_code = 200;
        body = json_user cfg.viewer_username;
        no_store = false;
        cookie =
            some (set_session (create_session_token codec now cfg.viewer_username) session_max_age);
      })

abbrev pub logout : Response
logout = redirect_to (codes "/login") (some delete_session)

-- The request that a browser makes with the cookie of a response, to which it sends no other.
abbrev cookie_request : Option Cookie → Request
cookie_request (some (set_session token age)) = record {
  session_token = some token;
  authorization = none;
}
cookie_request _ = record { session_token = none; authorization = none }

abbrev pub follow : Response → Request
follow r = cookie_request r.cookie
