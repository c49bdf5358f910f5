-- ===== src/Viewer/Auth/Basic.antt =====
-- Which requests count as authenticated (microservices/viewer_service/viewer_service.py).
use intruder_watch.Viewer.Session.Sound.{verify-signed}
use intruder_watch.Str.Equal.{text_eq→≡}
use intruder_watch.Base.Result.{ok, Result-cases}
use intruder_watch.Str.{Text, split_once, strip, truthy}
use intruder_watch.Viewer.Auth.{
  check_credentials, Request, basic_user, get_authenticated_user, or_empty, verify_session_token,
  verify_if, get_session_user,
}
use intruder_watch.Base.{
  ℕ, Option, ◌≡◌, some, arith, ◌⊎◌, [], none, inl, inr, Option-cases, Bool-cases, ◌∷◌,
}
use intruder_watch.Viewer.Config.{Config, Codec, compare_digest}

module _ (cfg : Config) (codec : Codec) (now : ℕ) where
  check_credentials-some :
      (p : Text × Option Text) {user : Text}
      → check_credentials cfg codec now p ≡ ok (some user)
      → (user ≡ cfg.viewer_username) × (p ≡ (cfg.viewer_username, some cfg.viewer_password))
  unfolding check_credentials compare_digest
  check_credentials-some (u, none) h = cc
  check_credentials-some (u, some password) h =
      ground (arith, text_eq→≡ u cfg.viewer_username, text_eq→≡ password cfg.viewer_password)

  basic_user-some :
      (header : Text) {user : Text}
      → basic_user cfg codec now header ≡ some user
      → (user ≡ cfg.viewer_username)
        × ((creds : Text) × (decoded : Text) × ((split_once b' ' header).1 ≡ some creds)
            × (codec.basic_decode (strip creds) ≡ ok decoded)
            × (split_once b':' decoded ≡ (cfg.viewer_username, some cfg.viewer_password)))
  unfolding basic_user
  basic_user-some header {user} h = elim (Option-cases (split_once b' ' header).1) [
    | inl bad ↦ ground (arith, bad)
    | inr (creds, found) ↦ elim (Result-cases (codec.basic_decode (strip creds))) [
      | inl (e, bad) ↦ ground (arith, found, bad)
      | inr (decoded, good) ↦
          let (same, p) =
            check_credentials-some (split_once b':' decoded) {user = user}
              (ground (arith, found, good)) in
          (same, (creds, decoded, found, good, p))
    ]
  ]

  session_token-some :
      (token : Text) {user : Text}
      → verify_if cfg codec now token ≡ some user
      → verify_session_token cfg codec now token ≡ some user
  session_token-some [] h = cc
  session_token-some (c ∷ token) h = h

  -- A request is authenticated only as the viewer's user: by a session token that is accepted, or
  -- by a header with the user's name and password.
  pub get_authenticated_user-some :
      (r : Request) {user : Text}
      → get_authenticated_user cfg codec now r ≡ some user
      → (user ≡ cfg.viewer_username)
        × ((verify_session_token cfg codec now (or_empty r.session_token) ≡ some user)
            ⊎ ((creds : Text) × (decoded : Text) × ((split_once b' ' (or_empty r.authorization)).1
                  ≡ some creds)
                × (codec.basic_decode (strip creds) ≡ ok decoded)
                × (split_once b':' decoded ≡ (cfg.viewer_username, some cfg.viewer_password))))
  unfolding get_authenticated_user
  get_authenticated_user-some r {user} h =
      elim (Bool-cases (truthy (or_empty (get_session_user cfg codec now r)))) [
        | inl session ↦
            let token : verify_session_token cfg codec now (or_empty r.session_token) ≡ some user =
              session_token-some (or_empty r.session_token) (ground (arith, session)) in
            ((verify-signed cfg codec now (or_empty r.session_token) token).0, inl token)
        | inr basic ↦
            let (same, creds) =
              basic_user-some (or_empty r.authorization) {user = user} (ground (arith, basic)) in
            (same, inr creds)
      ]
