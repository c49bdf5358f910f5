-- ===== src/Detector/Frames/Repeats.antt =====
-- Frames of a camera with the same hash (microservices/human_detector/human_detector.py).
use intruder_watch.Detector.Frames.{
  Config, Vision, State, Delivery, callback, deliver, is_duplicate,
}
use intruder_watch.Detector.Frames.Head.{head, submissions, is_frame_of, is_frame_of-head}
use intruder_watch.Detector.Frames.Camera.{camera_view, Reports}
use intruder_watch.Detector.Frames.Message.{callback-not_frame, callback-warm, callback-ready}
use intruder_watch.Base.Result.{ok, err}
use intruder_watch.Json.{Json, Python, is_true, json_eq}
use intruder_watch.Json.Key.{Key, key_eq, key_eq_refl, find, find_or}
use intruder_watch.Str.{Text, truthy, text_eq}
use intruder_watch.Str.Equal.{text_eq→≡, text_eq_refl}
use intruder_watch.Base.{
  ℕ, ◌+◌, ◌≤◌, ◌≡◌, ◌∙◌, ◌⊎◌, inl, inr, refl, arith, ap, sym, Bool, List, [], ◌∷◌, Option, some,
  Bool-cases, ltb, true, false, All, not, ◌||◌,
}
use mathlib.Core.Path.{subst}

abbrev is_str : Text → Json → Bool
is_str h (Json.str t) = text_eq t h
is_str h _ = false

-- Whether a message is no frame of the camera, or one with this hash.
unfoldable pub has_hash : Python → Key → Text → Delivery → Bool
has_hash py k h d = elim (head py d) [
  | ok (payload, camera_id, hash, key) ↦ not (key_eq key k) || is_str h hash
  | err e ↦ true
]

is_str→≡ : (h : Text) (v : Json) → is_str h v ≡ true → v ≡ Json.str h
is_str→≡ h (Json.str t) e = ap Json.str (text_eq→≡ t h e)
is_str→≡ h _ e = cc

-- No alert has come, or one, and its hash is remembered.
abbrev AtMostOne : ℕ → Text → ℕ × Option Json × ℕ → Type 0
AtMostOne n h v = (v.2 ≡ n) ⊎ ((v.2 ≡ n + 1) × (v.1 ≡ some (Json.str h)))

module _ {Frame : Type 0} (cfg : Config) (py : Python) (vision : Vision Frame) (k : Key) (n : ℕ)
    (h : Text) (full : truthy h ≡ true) where
  has_hash-head :
      {payload camera_id hash : Json} (d : Delivery)
      → has_hash py k h d ≡ true
      → head py d ≡ ok (payload, camera_id, hash, k)
      → hash ≡ Json.str h
  unfolding has_hash
  has_hash-head {hash = hash} d same e = is_str→≡ h hash (sym known ∙ same)
    where
      known : has_hash py k h d ≡ is_str h hash
      known = rw (e, has_hash, key_eq_refl k) refl

  remembered :
      (d : Delivery) (s : State)
      → find k s.last_saved_hashes ≡ some (Json.str h)
      → is_duplicate cfg py vision d k (Json.str h) s ≡ true
  unfolding is_duplicate json_eq is_true
  remembered d s e = rw (full, e, text_eq_refl h) refl

  AtMostOne-Reports :
      (v w : ℕ × Option Json × ℕ) → v.2 ≡ n → Reports (Json.str h) v w → AtMostOne n h w
  unfolding is_true
  AtMostOne-Reports v w e (inl q) = inl (ap (λ x. x.2) q ∙ e)
  AtMostOne-Reports v w e (inr (inl q)) = inl (ap (λ x. x.2) q ∙ e)
  AtMostOne-Reports v w e (inr (inr q)) =
      inr (omega (arith, ap (λ x. x.2) q, e), ap (λ x. x.1) q ∙ rw full refl)

  callback-AtMostOne :
      (d : Delivery) (s : State)
      → has_hash py k h d ≡ true
      → AtMostOne n h (camera_view py k s)
      → AtMostOne n h (camera_view py k (callback cfg py vision d s).1)
  callback-AtMostOne d s same w = elim (Bool-cases (is_frame_of py k d)) [
    | inr none_of ↦ subst (AtMostOne n h) (sym (callback-not_frame cfg py vision d k s none_of)) w
    | inl frame ↦
        let (payload, camera_id, hash, e) = is_frame_of-head py k d frame in
        let own = has_hash-head d same e in
        elim (Bool-cases (ltb (find_or k 0 s.camera_warmup) cfg.warmup_limit)) [
          | inl warm ↦ subst (AtMostOne n h) (sym (callback-warm cfg py vision d k s e warm)) w
          | inr ready ↦ elim (callback-ready cfg py vision d k s e ready) [
            | inl q ↦ subst (AtMostOne n h) (sym q) w
            | inr (fresh, reported) ↦ elim w [
              | inl none_yet ↦ AtMostOne-Reports (camera_view py k s) _ none_yet (
                  subst
                    (λ v.
                      Reports v (camera_view py k s)
                        (camera_view py k (callback cfg py vision d s).1))
                    own reported)
              | inr (once, kept) ↦ absurd (
                  cc (fresh, ap (λ v. is_duplicate cfg py vision d k v s) own, remembered d s kept))
            ]
          ]
        ]
  ]

module _ {Frame : Type 0} (cfg : Config) (py : Python) (vision : Vision Frame) (k : Key) (h : Text)
    (full : truthy h ≡ true) where
  deliver-AtMostOne :
      (n : ℕ) (ds : List Delivery) (s : State)
      → All (λ d. has_hash py k h d ≡ true) ds
      → AtMostOne n h (camera_view py k s)
      → AtMostOne n h (camera_view py k (deliver cfg py vision ds s))
  unfolding deliver
  deliver-AtMostOne n [] s same w = w
  deliver-AtMostOne n (d ∷ ds) s (first, rest) w =
      deliver-AtMostOne n ds (callback cfg py vision d s).1 rest
        (callback-AtMostOne cfg py vision k n h full d s first w)

  -- In a run of messages in which every frame of a camera has the same hash, which is not the empty
  -- text, at most one alert of that camera is submitted, whatever the messages of other cameras hold.
  pub deliver-once :
      (ds : List Delivery) (s : State)
      → All (λ d. has_hash py k h d ≡ true) ds
      → submissions py k (deliver cfg py vision ds s).events ≤ submissions py k s.events + 1
  deliver-once ds s same =
      bounded (deliver-AtMostOne (submissions py k s.events) ds s same (inl refl))
    where
      bounded : {m n : ℕ} {P : Type 0} → (m ≡ n) ⊎ ((m ≡ n + 1) × P) → m ≤ n + 1
      bounded (inl e) = omega arith
      bounded (inr (e, p)) = omega arith
