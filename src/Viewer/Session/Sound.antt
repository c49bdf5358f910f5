-- ===== src/Viewer/Session/Sound.antt =====
-- Which tokens are accepted (microservices/viewer_service/viewer_service.py).
use intruder_watch.Str.Split.{join-split}
use intruder_watch.Str.Equal.{text_eq→≡}
use intruder_watch.Base.Result.{ok, Result-cases}
use intruder_watch.Str.Decimal.{parse_int, show_ℤ}
use intruder_watch.Base.Int.{ℤ, ltb_ℤ, ◌*ℤ◌, pos}
use intruder_watch.Str.{Text, join, split}
use intruder_watch.Base.{
  ℕ, ◌≡◌, some, false, ◌++◌, ◌∷◌, [], List, sym, inl, append_assoc, arith, Option-cases, inr, ◌∙◌,
  ap,
}
use intruder_watch.Viewer.Session.{verify_session_token, signed, verify_parts, verify_raw, or_none}
use intruder_watch.Viewer.Config.{Config, Codec, second, compare_digest}

module _ (cfg : Config) (codec : Codec) (now : ℕ) where
  verify_parts-some :
      (u e sig : Text) {user : Text}
      → or_none (verify_parts cfg codec now u e sig) ≡ some user
      → (user ≡ cfg.viewer_username)
        × (user ≡ u)
        × ((z : ℤ) × (parse_int e ≡ some z)
            × (ltb_ℤ (z *ℤ pos second) (pos now) ≡ false)
            × (sig ≡ codec.sign (signed user (show_ℤ z))))
  unfolding verify_parts compare_digest
  verify_parts-some u e sig {user} h = elim (Option-cases (parse_int e)) [
    | inl bad ↦ ground (arith, bad)
    | inr (z, good) ↦ (
      ground (arith, good, text_eq→≡ u cfg.viewer_username),
      ground (arith, good),
      (
        z,
        good,
        ground (arith, good),
        ground (arith, good, text_eq→≡ sig (codec.sign (signed u (show_ℤ z)))),
      ),
    )
  ]

  verify_raw-some :
      (parts : List Text) {user : Text}
      → or_none (verify_raw cfg codec now parts) ≡ some user
      → (user ≡ cfg.viewer_username)
        × ((z : ℤ) × (e : Text) × (parse_int e ≡ some z)
            × (ltb_ℤ (z *ℤ pos second) (pos now) ≡ false)
            × (parts ≡ user ∷ e ∷ codec.sign (signed user (show_ℤ z)) ∷ []))
  unfolding verify_raw
  verify_raw-some (u ∷ e ∷ sig ∷ []) h =
      let (known, same, (z, p, fresh, s)) = verify_parts-some u e sig h in
      (known, (z, e, p, fresh, cc (same, s)))
  verify_raw-some _ h = cc

  join_three :
      (user e : Text) (z : ℤ)
      → join b':' (user ∷ e ∷ codec.sign (signed user (show_ℤ z)) ∷ [])
        ≡ signed user e ++ b':' ∷ codec.sign (signed user (show_ℤ z))
  unfolding join
  join_three user e z = sym (append_assoc user (b':' ∷ e) _)

  -- Only a token that holds the viewer's user name, an expiry that has not passed and the signature
  -- of the two is read as a user, and as no other than that one.
  pub verify-signed :
      (token : Text) {user : Text}
      → verify_session_token cfg codec now token ≡ some user
      → (user ≡ cfg.viewer_username)
        × ((expires_at : ℤ) × (text : Text) × (parse_int text ≡ some expires_at)
            × (ltb_ℤ (expires_at *ℤ pos second) (pos now) ≡ false)
            × (codec.decode token
                ≡ ok (signed user text ++ b':' ∷ codec.sign (signed user (show_ℤ expires_at)))))
  unfolding verify_session_token
  verify-signed token {user} h = elim (Result-cases (codec.decode token)) [
    | inl (e, bad) ↦ ground (arith, bad)
    | inr (raw, good) ↦
        let (known, (z, e, p, fresh, parts)) = verify_raw-some (split b':' raw) (rw good at h) in
        (
          known,
          (
            z,
            e,
            p,
            fresh,
            good ∙ ap ok (sym (join-split b':' raw) ∙ ap (join b':') parts ∙ join_three user e z),
          ),
        )
  ]
