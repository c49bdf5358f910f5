-- ===== src/Viewer/Session/RoundTrip.antt =====
-- Tokens that the viewer makes, read by the viewer
-- (microservices/viewer_service/viewer_service.py).
use intruder_watch.Base.Int.{◌*ℤ◌}
use intruder_watch.Str.Split.{split-Lacks, split-append_any, split-ne-nil}
use intruder_watch.Str.Decimal.{show, show_ℤ, parse_int-show, IsNumber-Lacks, show-IsNumber}
use intruder_watch.Str.Equal.{Lacks, text_eq_refl}
use intruder_watch.Viewer.Session.{
  signed, verify_session_token, verify_raw, create_session_token, expiry, or_none,
}
use intruder_watch.Str.{Text, split, has_char, is_ascii}
use intruder_watch.Base.{
  ℕ, ◌≡◌, true, [], List, ◌≤◌, ◌*◌, none, some, ◌<◌, arith, ◌++◌, ◌∷◌, ◌≢◌, Bool-cases, inr, ◌==◌,
  inl, append_assoc, refl, if◌then◌else◌, leb, ◌/◌, ◌+◌,
}
use intruder_watch.Viewer.Config.{Config, Codec, CodecLaws, second, compare_digest}

module _ (cfg : Config) (codec : Codec) (laws : CodecLaws codec) where
  raw_parts :
      (now : ℕ) (username : Text)
      → split b':' (
          signed username (show (expiry now))
          ++ b':' ∷ codec.sign (signed username (show (expiry now))))
        ≡ split b':' username
          ++ show (expiry now) ∷ codec.sign (signed username (show (expiry now))) ∷ []
  raw_parts now username =
      let e = show (expiry now) in
      let sig = codec.sign (signed username e) in
      rw (
        split-append_any b':' (signed username e) sig,
        split-append_any b':' username e,
        split-Lacks b':' e (IsNumber-Lacks b':' e (inr (omega arith)) (show-IsNumber (expiry now))),
        split-Lacks b':' sig (laws.sign-Lacks (signed username e)),
        append_assoc (split b':' username) (e ∷ []) (sig ∷ []),
      )

  verify_raw-parts :
      (later now : ℕ) (username : Text)
      → verify_session_token cfg codec later (create_session_token codec now username)
        ≡ or_none (
            verify_raw cfg codec later (
              split b':' username
              ++ show (expiry now) ∷ codec.sign (signed username (show (expiry now))) ∷ []))
  unfolding verify_session_token create_session_token
  verify_raw-parts later now username = rw (
    laws.decode-encode (
        signed username (show (expiry now))
        ++ b':' ∷ codec.sign (signed username (show (expiry now)))),
    raw_parts now username,
  )

  -- A token that is made for the viewer's user, whose name is ASCII and holds no colon, is read as
  -- that user for seven days.
  pub verify-create :
      (now later : ℕ)
      → is_ascii cfg.viewer_username ≡ true
      → Lacks b':' cfg.viewer_username
      → later ≤ expiry now * second
      → verify_session_token cfg codec later (create_session_token codec now cfg.viewer_username)
        ≡ some cfg.viewer_username
  verify-create now later ascii lacks fresh =
      rw
        (verify_raw-parts later now cfg.viewer_username, split-Lacks b':' cfg.viewer_username lacks)
        (unfold verify_raw ◌*ℤ◌ compare_digest show_ℤ in
          ground (
            arith,
            parse_int-show (expiry now),
            laws.sign-is_ascii (signed cfg.viewer_username (show (expiry now))),
            text_eq_refl (codec.sign (signed cfg.viewer_username (show (expiry now)))),
            text_eq_refl cfg.viewer_username,
          ))

  -- Behind that it is read as no user.
  pub verify-create_expired :
      (now later : ℕ)
      → Lacks b':' cfg.viewer_username
      → expiry now * second < later
      → verify_session_token cfg codec later (create_session_token codec now cfg.viewer_username)
        ≡ none
  verify-create_expired now later lacks late =
      rw
        (verify_raw-parts later now cfg.viewer_username, split-Lacks b':' cfg.viewer_username lacks)
        (unfold verify_raw ◌*ℤ◌ in ground (arith, parse_int-show (expiry now)))

  -- A token that is made for the viewer's user, whose name is ASCII and holds no colon, is read as
  -- that user up to 604800 seconds, which are seven days, behind the whole second in which it was
  -- made, and as no user from then on.
  pub verify-create_until :
      (now later : ℕ)
      → is_ascii cfg.viewer_username ≡ true
      → Lacks b':' cfg.viewer_username
      → verify_session_token cfg codec later (create_session_token codec now cfg.viewer_username)
        ≡ (if leb later ((now / 1000000 + 604800) * 1000000)
            then some cfg.viewer_username
            else none)
  verify-create_until now later ascii lacks =
      elim (Bool-cases (leb later ((now / 1000000 + 604800) * 1000000))) [
        | inl fresh ↦ rw fresh (verify-create now later ascii lacks (ground (arith, fresh)))
        | inr late ↦ rw late (verify-create_expired now later lacks (ground (arith, late)))
      ]

  verify_raw-more :
      (later now : ℕ) (username a b : Text) (rest : List Text)
      → or_none (
          verify_raw cfg codec later (
            a ∷ b ∷ rest
            ++ show (expiry now) ∷ codec.sign (signed username (show (expiry now))) ∷ []))
        ≡ none
  unfolding verify_raw
  verify_raw-more later now username a b [] = refl
  verify_raw-more later now username a b (c ∷ []) = refl
  verify_raw-more later now username a b (c ∷ d ∷ rest) = refl

  colon_parts :
      (username : Text)
      → has_char b':' username ≡ true
      → (a : Text) × (b : Text) × (rest : List Text) × (split b':' username ≡ a ∷ b ∷ rest)
  unfolding has_char split
  colon_parts [] h = cc
  colon_parts (c ∷ s) h = elim (Bool-cases (c == b':')) [
    | inl colon ↦ rw colon (first (split b':' s) (split-ne-nil b':' s))
    | inr other ↦
        let (a, b, rest, e) = colon_parts s (ground arith) in (c ∷ a, b, rest, rw (other, e) refl)
  ]
    where
      first :
          (ws : List Text)
          → ws ≢ []
          → (a : Text) × (b : Text) × (rest : List Text) × ([] ∷ ws ≡ a ∷ b ∷ rest)
      first [] h = absurd (h refl)
      first (w ∷ ws) h = ([], w, ws, refl)

  -- A token for a name with a colon is read as no user, however fresh it is.
  pub verify-create_colon :
      (now later : ℕ) (username : Text)
      → has_char b':' username ≡ true
      → verify_session_token cfg codec later (create_session_token codec now username) ≡ none
  verify-create_colon now later username colon =
      let (a, b, rest, e) = colon_parts username colon in
      rw (verify_raw-parts later now username, e) (verify_raw-more later now username a b rest)
