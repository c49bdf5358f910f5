-- ===== src/Detector/Frames/WarmUp.antt =====
-- How many frames of a camera are skipped before the first alert
-- (microservices/human_detector/human_detector.py).
use intruder_watch.Detector.Frames.{Config, Vision, State, Delivery, init, callback, deliver}
use intruder_watch.Detector.Frames.Head.{is_frame_of, is_frame_of-head, submissions}
use intruder_watch.Detector.Frames.Camera.{camera_view, Reports}
use intruder_watch.Detector.Frames.Message.{callback-not_frame, callback-warm, callback-ready}
use intruder_watch.Base.Counts.{one_if}
use intruder_watch.Json.{Json, Python}
use intruder_watch.Json.Key.{Key, find, find_or}
use intruder_watch.Base.{
  ℕ, ◌+◌, ◌-◌, ◌≤◌, ◌<◌, ◌≡◌, ◌⊎◌, inl, inr, refl, arith, sym, List, [], ◌∷◌, Option, Bool-cases,
  ltb, ltb→lt, ltb_false→le,
}
use mathlib.Core.Path.{subst}

-- The messages that are read as frames of a camera.
unfoldable pub arrivals : Python → Key → List Delivery → ℕ
arrivals py k [] = 0
arrivals py k (d ∷ ds) = one_if (is_frame_of py k d) + arrivals py k ds

-- Of the frames of a camera so far, those skipped and the alerts are different ones, and there is
-- no alert before the warm-up is over.
abbrev Warms : ℕ → ℕ → ℕ × Option Json × ℕ → Type 0
Warms limit a v = (v.0 + v.2 ≤ a) × ((v.2 ≡ 0) ⊎ (limit ≤ v.0))

Warms-Reports :
    (limit a : ℕ) (hash : Json) (v w : ℕ × Option Json × ℕ)
    → limit ≤ v.0
    → Reports hash v w
    → Warms limit a v
    → Warms limit (a + 1) w
Warms-Reports limit a hash v w h (inl e) (p, q) =
    subst (Warms limit (a + 1)) (sym e) (omega arith, q)
Warms-Reports limit a hash v w h (inr (inl e)) (p, q) =
    subst (Warms limit (a + 1)) (sym e) (omega arith, q)
Warms-Reports limit a hash v w h (inr (inr e)) (p, q) =
    subst (Warms limit (a + 1)) (sym e) (omega arith, inr h)

Warms-skip :
    (limit a : ℕ) (v : ℕ × Option Json × ℕ)
    → v.0 < limit
    → Warms limit a v
    → Warms limit (a + 1) (v.0 + 1, v.1, v.2)
Warms-skip limit a v h (p, inl q) = (omega arith, inl q)
Warms-skip limit a v h (p, inr q) = absurd (omega arith)

module _ {Frame : Type 0} (cfg : Config) (py : Python) (vision : Vision Frame) (k : Key) where
  abbrev HasWarmed : ℕ → State → Type 0
  HasWarmed a s = Warms cfg.warmup_limit a (camera_view py k s)

  callback-HasWarmed :
      (d : Delivery) (s : State) (a : ℕ)
      → HasWarmed a s
      → HasWarmed (a + one_if (is_frame_of py k d)) (callback cfg py vision d s).1
  callback-HasWarmed d s a w = elim (Bool-cases (is_frame_of py k d)) [
    | inr none_of ↦ rw none_of (
        subst (Warms cfg.warmup_limit (a + 0))
          (sym (callback-not_frame cfg py vision d k s none_of)) (omega (arith, w.0), w.1))
    | inl frame ↦
        let (payload, camera_id, hash, h) = is_frame_of-head py k d frame in
        rw frame (elim (Bool-cases (ltb (find_or k 0 s.camera_warmup) cfg.warmup_limit)) [
          | inl warm ↦
              subst (Warms cfg.warmup_limit (a + 1))
                (sym (callback-warm cfg py vision d k s h warm))
                (Warms-skip cfg.warmup_limit a (camera_view py k s) (ltb→lt _ _ warm) w)
          | inr ready ↦ elim (callback-ready cfg py vision d k s h ready) [
            | inl same ↦
                Warms-Reports cfg.warmup_limit a hash (camera_view py k s) _
                  (ltb_false→le _ _ ready) (inl same) w
            | inr (fresh, reported) ↦
                Warms-Reports cfg.warmup_limit a hash (camera_view py k s) _
                  (ltb_false→le _ _ ready) reported w
          ]
        ])
  ]

  deliver-HasWarmed :
      (ds : List Delivery) (s : State) (a : ℕ)
      → HasWarmed a s
      → HasWarmed (a + arrivals py k ds) (deliver cfg py vision ds s)
  unfolding deliver arrivals
  deliver-HasWarmed [] s a w = (omega (arith, w.0), w.1)
  deliver-HasWarmed (d ∷ ds) s a w =
      let rest =
        deliver-HasWarmed ds (callback cfg py vision d s).1 (a + one_if (is_frame_of py k d))
          (callback-HasWarmed d s a w) in
      (omega (arith, rest.0), rest.1)

  -- From the start on, and whatever the messages hold: a camera has no more alerts than frames
  -- beyond the warm-up's limit, and none where its frames are no more than that.
  pub deliver-submissions :
      (ds : List Delivery) (now : ℕ)
      → submissions py k (deliver cfg py vision ds (init now)).events
        ≤ arrivals py k ds - cfg.warmup_limit
  unfolding find submissions
  deliver-submissions ds now =
      let ended = deliver cfg py vision ds (init now) in
      bounded (find_or k 0 ended.camera_warmup) (submissions py k ended.events) cfg.warmup_limit
        (arrivals py k ds) (deliver-HasWarmed ds (init now) 0 (omega arith, inl refl))
    where
      bounded : (n m limit a : ℕ) → (n + m ≤ 0 + a) × ((m ≡ 0) ⊎ (limit ≤ n)) → m ≤ a - limit
      bounded n m limit a (p, inl q) = omega arith
      bounded n m limit a (p, inr q) = omega arith
