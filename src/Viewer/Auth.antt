-- ===== src/Viewer/Auth.antt =====
-- Who a request comes from: `get_session_user`, `get_authenticated_user` and `require_auth` of
-- microservices/viewer_service/viewer_service.py.
pub mod Basic
use intruder_watch.Viewer.Session.{verify_session_token, or_none}
use intruder_watch.Str.{Text, truthy, starts_with, codes, split_once, strip}
use intruder_watch.Viewer.Config.{Config, Codec, compare_digest}
use intruder_watch.Base.{[], Option, ℕ, some, none, if◌then◌else◌, ◌∷◌, ◌&&◌, not}
use intruder_watch.Base.Result.{◌>>=◌, Error, Result, err, value_error, index_error, ok}

-- The session cookie and the Authorization header, if they are there.
pub record Request : Type 0 where
  pub session_token : Option Text
  pub authorization : Option Text

-- What a handler ends with: a value, an `HTTPException` with its status, or another exception.
pub data Http (A : Type 0) : Type 0 where
  reply : A → Http A
  http_exception : ℕ → Http A
  fault : Error → Http A

abbrev pub or_empty : Option Text → Text
or_empty none = []
or_empty (some s) = s

module _ (cfg : Config) (codec : Codec) (now : ℕ) where
  abbrev pub verify_if : Text → Option Text
  verify_if [] = none
  verify_if (c ∷ token) = verify_session_token cfg codec now (c ∷ token)

  unfoldable pub get_session_user : Request → Option Text
  get_session_user r = verify_if (or_empty r.session_token)

  -- `username, password = decoded.split(":", 1)`, and the two comparisons, of which the second is
  -- made only if the first holds.
  unfoldable pub check_credentials : Text × Option Text → Result (Option Text)
  check_credentials (username, none) = err value_error
  check_credentials (username, some password) = do
    known ← compare_digest username cfg.viewer_username
    if not known then ok none else do
      right ← compare_digest password cfg.viewer_password
      ok (if right then some username else none)

  -- `auth_header.split(" ", 1)[1]`
  abbrev behind : Text × Option Text → Result Text
  behind (_, none) = err index_error
  behind (_, some rest) = ok rest

  -- The Authorization header; every exception is no user.
  unfoldable pub basic_user : Text → Option Text
  unfolding check_credentials
  basic_user header =
      if truthy header && starts_with header (codes "Basic ")
      then or_none (do
        rest ← behind (split_once b' ' header)
        decoded ← codec.basic_decode (strip rest)
        check_credentials (split_once b':' decoded))
      else none

  unfoldable pub get_authenticated_user : Request → Option Text
  unfolding get_session_user basic_user
  get_authenticated_user r =
      let user = get_session_user r in
      if truthy (or_empty user) then user else basic_user (or_empty r.authorization)

  unfoldable pub require_auth : Request → Http Text
  require_auth r =
      let user = or_empty (get_authenticated_user r) in
      if truthy user then reply user else http_exception 401
