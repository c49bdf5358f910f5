-- ===== src/Viewer/Config.antt =====
-- The settings of microservices/viewer_service/viewer_service.py, what it uses of cryptography and
-- base64, and the exceptions that end a request.
use intruder_watch.Base.{ℕ, ◌≡◌, true, Option, ◌&&◌, if◌then◌else◌, Bool, ◌*◌}
use intruder_watch.Base.Result.{Result, ok, err, type_error}
use intruder_watch.Str.{Text, is_ascii, text_eq}
use intruder_watch.Str.Equal.{Lacks}

pub record Config : Type 0 where
  pub viewer_username : Text
  pub viewer_password : Text
  pub alert_bypass_token : Option Text

-- Seven days, in seconds.
abbrev pub session_max_age : ℕ
session_max_age = 7 * 86400

-- Times are in microseconds.
abbrev pub second : ℕ
second = 1000000

-- HMAC and base64 are parameters, on texts that stand for their UTF-8 bytes.
pub record Codec : Type 0 where
  -- `hmac.new(SESSION_SECRET_BYTES, payload, sha256).hexdigest()`
  pub sign : Text → Text
  -- `urlsafe_b64encode(raw).decode()`, and `urlsafe_b64decode(token.encode()).decode()`
  pub encode : Text → Text
  pub decode : Text → Result Text
  -- `b64decode(b64_creds).decode("utf-8")`
  pub basic_decode : Text → Result Text

-- Documented behaviour: a hexadecimal digest is ASCII and holds no colon, and decoding undoes
-- encoding.
pub record CodecLaws (c : Codec) : Type 0 where
  pub sign-Lacks : (s : Text) → Lacks b':' (c.sign s)
  pub sign-is_ascii : (s : Text) → is_ascii (c.sign s) ≡ true
  pub decode-encode : (s : Text) → c.decode (c.encode s) ≡ ok s

-- `secrets.compare_digest` of two `str`: only ASCII texts can be compared.
unfoldable pub compare_digest : Text → Text → Result Bool
compare_digest s t = if is_ascii s && is_ascii t then ok (text_eq s t) else err type_error
