-- ===== src/Viewer/Pages/Login.antt =====
-- Logging in, and what the pages then show (microservices/viewer_service/viewer_service.py).
use intruder_watch.Viewer.Session.RoundTrip.{verify-create}
use intruder_watch.Base.Result.{type_error}
use intruder_watch.Viewer.Auth.{verify_if, fault}
use intruder_watch.Viewer.Session.{expiry, verify_session_token, create_session_token}
use intruder_watch.Str.Equal.{Lacks, text_eq→≡, text_eq_refl}
use intruder_watch.Str.{is_ascii, Text, truthy, codes}
use intruder_watch.Viewer.Pages.{
  serve_root, api_login, serve_login, page, json_user, redirect_to, set_session, Response, follow,
}
use intruder_watch.Viewer.Auth.{Request, reply, http_exception, or_empty, get_session_user}
use intruder_watch.Viewer.Config.{Config, Codec, CodecLaws, session_max_age, second}
use intruder_watch.Base.{
  none, some, true, false, inl, inr, refl, ℕ, ◌≡◌, arith, ◌⊎◌, ◌≤◌, Bool-cases, ◌*◌, [], ◌∷◌,
}

module _ (cfg : Config) (codec : Codec) where
  -- The root and the login page never send a request back and forth: at every moment one of the two
  -- shows its page and the other redirects to it.
  pub serve_root-serve_login :
      (now : ℕ) (r : Request)
      → ((serve_root cfg codec now r ≡ page (codes "index.html"))
          × (serve_login cfg codec now r ≡ redirect_to (codes "/") none))
        ⊎ ((serve_root cfg codec now r ≡ redirect_to (codes "/login") none)
            × (serve_login cfg codec now r ≡ page (codes "login.html")))
  unfolding serve_root serve_login
  serve_root-serve_login now r =
      elim (Bool-cases (truthy (or_empty (get_session_user cfg codec now r)))) [
        | inl user ↦ inl (rw user refl, rw user refl)
        | inr nobody ↦ inr (rw nobody refl, rw nobody refl)
      ]

  -- The right name and password, where both are ASCII, give a cookie.
  api_login-right :
      (now : ℕ)
      → is_ascii cfg.viewer_username ≡ true
      → is_ascii cfg.viewer_password ≡ true
      → api_login cfg codec now cfg.viewer_username cfg.viewer_password
        ≡ reply (record {
          status_code = 200;
          body = json_user cfg.viewer_username;
          no_store = false;
          cookie =
              some
                (set_session (create_session_token codec now cfg.viewer_username) session_max_age);
        })
  unfolding api_login
  api_login-right now hu hp =
      rw (hu, hp, text_eq_refl cfg.viewer_username, text_eq_refl cfg.viewer_password)

  verify_if-truthy :
      (now : ℕ) (token : Text)
      → truthy token ≡ true
      → verify_if cfg codec now token ≡ verify_session_token cfg codec now token
  verify_if-truthy now [] h = cc
  verify_if-truthy now (c ∷ token) h = refl

  -- A login with the right name and password is answered by a cookie with which the root shows the
  -- page for seven days: where both are ASCII, the name is not empty and holds no colon, and the
  -- token is not empty.
  pub api_login-serve_root :
      (now later : ℕ)
      → CodecLaws codec
      → is_ascii cfg.viewer_username ≡ true
      → is_ascii cfg.viewer_password ≡ true
      → truthy cfg.viewer_username ≡ true
      → Lacks b':' cfg.viewer_username
      → truthy (create_session_token codec now cfg.viewer_username) ≡ true
      → later ≤ expiry now * second
      → (response : Response) × (api_login cfg codec now cfg.viewer_username cfg.viewer_password
          ≡ reply response)
        × (serve_root cfg codec later (follow response) ≡ page (codes "index.html"))
  api_login-serve_root now later laws hu hp full lacks token fresh = (
    _,
    api_login-right now hu hp,
    unfold serve_root get_session_user in
        rw (
          verify_if-truthy later (create_session_token codec now cfg.viewer_username) token,
          verify-create cfg codec laws now later hu lacks fresh,
          full,
        ),
  )

  -- Any other name or password, where all four texts are ASCII, is answered by 401.
  pub api_login-wrong :
      (now : ℕ) (username password : Text)
      → is_ascii cfg.viewer_username ≡ true
      → is_ascii cfg.viewer_password ≡ true
      → is_ascii username ≡ true
      → is_ascii password ≡ true
      → ¬ ((username ≡ cfg.viewer_username) × (password ≡ cfg.viewer_password))
      → api_login cfg codec now username password ≡ http_exception 401
  unfolding api_login
  api_login-wrong now username password hu hp au ap wrong = ground (
    arith,
    hu,
    hp,
    au,
    ap,
    wrong,
    text_eq→≡ username cfg.viewer_username,
    text_eq→≡ password cfg.viewer_password,
  )

  -- A name that is not ASCII is no wrong name: the comparison raises, and the request ends with an
  -- exception that is no 401.
  pub api_login-not_ascii :
      (now : ℕ) (username password : Text)
      → is_ascii username ≡ false
      → api_login cfg codec now username password ≡ fault type_error
  unfolding api_login
  api_login-not_ascii now username password h = rw h
