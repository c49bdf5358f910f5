-- ===== src/Viewer/Session.antt =====
-- `create_session_token` and `verify_session_token` of
-- microservices/viewer_service/viewer_service.py.
pub mod RoundTrip
pub mod Sound
use intruder_watch.Base.Int.{ℤ, ltb_ℤ, ◌*ℤ◌, pos}
use intruder_watch.Str.Decimal.{show, parse_int, show_ℤ}
use intruder_watch.Viewer.Config.{Codec, Config, second, session_max_age, compare_digest}
use intruder_watch.Str.{Text, split}
use intruder_watch.Base.{
  ◌==◌, not, ℕ, ◌++◌, ◌/◌, Option, List, ◌∷◌, ◌+◌, if◌then◌else◌, none, some, [],
}
use intruder_watch.Base.Result.{◌>>=◌, Result, ok, err, value_error}

-- The text that is signed.
abbrev pub signed : Text → Text → Text
signed username expires_at = username ++ b':' ∷ expires_at

-- The last second at which a token that is made now is good.
abbrev pub expiry : ℕ → ℕ
expiry now = now / second + session_max_age

module _ (codec : Codec) where
  unfoldable pub create_session_token : ℕ → Text → Text
  create_session_token now username =
      let payload = signed username (show (expiry now)) in
      codec.encode (payload ++ b':' ∷ codec.sign payload)

abbrev pub or_value_error : Option ℤ → Result ℤ
or_value_error none = err value_error
or_value_error (some z) = ok z

abbrev pub or_none : Result (Option Text) → Option Text
or_none (ok user) = user
or_none (err e) = none

module _ (cfg : Config) (codec : Codec) where
  -- What is done with the three parts: the expiry, the signature, and the name.
  unfoldable pub verify_parts : ℕ → Text → Text → Text → Result (Option Text)
  verify_parts now username expires_at_str signature = do
    expires_at ← or_value_error (parse_int expires_at_str)
    if ltb_ℤ (expires_at *ℤ pos second) (pos now) then ok none else do
      valid ← compare_digest signature (codec.sign (signed username (show_ℤ expires_at)))
      if not valid then ok none else do
        known ← compare_digest username cfg.viewer_username
        ok (if known then some username else none)

  unfoldable pub verify_raw : ℕ → List Text → Result (Option Text)
  unfolding verify_parts
  verify_raw now (username ∷ expires_at_str ∷ signature ∷ []) =
      verify_parts now username expires_at_str signature
  verify_raw now _ = ok none

  -- Every exception is no user.
  unfoldable pub verify_session_token : ℕ → Text → Option Text
  unfolding verify_raw
  verify_session_token now token =
      or_none (do raw ← codec.decode token; verify_raw now (split b':' raw))
