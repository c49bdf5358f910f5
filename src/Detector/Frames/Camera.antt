-- ===== src/Detector/Frames/Camera.antt =====
-- What is seen of one camera, and what a frame behind the warm-up does to it
-- (microservices/human_detector/human_detector.py).
use intruder_watch.Detector.Frames.{
  Config, Vision, Alert, Event, State, Delivery, Box, emit, submitted, humans_detected,
  frame_processed, decode_error, exception, acked, basic_ack, report, short_hash, detect_people,
  subscript, is_duplicate, examine,
}
use intruder_watch.Base.Counts.{Silent, Silent-bind, Relates, Relates-bind, Relates-Silent}
use intruder_watch.Base.Action.{Action, modify, lift, ◌>>=◌, ◌>>◌}
use mathlib.Core.Path.{subst}
use intruder_watch.Detector.Frames.Head.{is_of, submissions}
use intruder_watch.Base.Result.{Result, ok, err, Result-cases}
use intruder_watch.Json.{Json, Python, is_true}
use intruder_watch.Json.Key.{Key, key_eq, find, find_or, find-insert, key_eq_refl}
use intruder_watch.Str.{codes}
use intruder_watch.Base.{
  ℕ, ◌+◌, ◌≡◌, ◌≢◌, refl, true, false, Option, none, some, List, [], ◌∷◌, ◌⊎◌, inl, inr,
  if◌then◌else◌, arith, ap, sym, Bool-cases,
}

-- The frames skipped, the hash remembered, and the alerts submitted.
abbrev pub camera_view : Python → Key → State → ℕ × Option Json × ℕ
camera_view py k s =
    (find_or k 0 s.camera_warmup, find k s.last_saved_hashes, submissions py k s.events)

abbrev pub saved : Json → Option Json → Option Json
saved hash o = if is_true hash then some hash else o

-- What a frame with people does.
abbrev pub Reports : Json → ℕ × Option Json × ℕ → ℕ × Option Json × ℕ → Type 0
Reports hash v w =
    (w ≡ v) ⊎ ((w ≡ (v.0, saved hash v.1, v.2)) ⊎ (w ≡ (v.0, saved hash v.1, v.2 + 1)))

module _ {Frame : Type 0} (cfg : Config) (py : Python) (vision : Vision Frame) (d : Delivery)
    (k : Key) where
  abbrev view : State → ℕ × Option Json × ℕ
  view = camera_view py k

  pub emit-view : (e : Event) → ((a : Alert) → e ≢ submitted a) → Silent view (modify (emit e))
  unfolding submissions
  emit-view (submitted a) h s = absurd (h a refl)
  emit-view (humans_detected n) h s = refl
  emit-view frame_processed h s = refl
  emit-view decode_error h s = refl
  emit-view exception h s = refl
  emit-view (acked t) h s = refl

  pub basic_ack-Silent : (r : Result (Unit {0})) → Silent view (basic_ack cfg py vision d r)
  unfolding basic_ack submissions
  basic_ack-Silent (ok u) s = refl
  basic_ack-Silent (err e) s = refl

  -- The report of a frame of this camera, and of another one.
  pub report-Reports :
      (camera_id hash : Json) (bs : List Box)
      → is_of py k camera_id ≡ true
      → Relates view (Reports hash) (report cfg py vision d camera_id k hash bs)
  unfolding report submissions
  report-Reports camera_id hash [] h s = inl refl
  report-Reports camera_id hash (b ∷ bs) h s = elim (Bool-cases (is_true hash)) [
    | inl full ↦ elim (Result-cases (short_hash py hash)) [
      | inl (e, bad) ↦
          inr (inl (rw (bad, full, find-insert k k hash s.last_saved_hashes, key_eq_refl k) refl))
      | inr (t, good) ↦ inr (
          inr (
            rw (good, full, h, find-insert k k hash s.last_saved_hashes, key_eq_refl k)
              (ap (λ n. (find_or k 0 s.camera_warmup, some hash, n)) (omega arith))))
    ]
    | inr empty ↦ elim (Result-cases (short_hash py hash)) [
      | inl (e, bad) ↦ inl (rw (bad, empty) refl)
      | inr (t, good) ↦ inr (
          inr (
            rw (good, empty, h)
              (ap (λ n. (find_or k 0 s.camera_warmup, find k s.last_saved_hashes, n))
                (omega arith))))
    ]
  ]

  pub report-Silent :
      (camera_id hash : Json) (key : Key) (bs : List Box)
      → is_of py k camera_id ≡ false
      → key_eq key k ≡ false
      → Silent view (report cfg py vision d camera_id key hash bs)
  unfolding report submissions
  report-Silent camera_id hash key [] h n s = refl
  report-Silent camera_id hash key (b ∷ bs) h n s = elim (Bool-cases (is_true hash)) [
    | inl full ↦ elim (Result-cases (short_hash py hash)) [
      | inl (e, bad) ↦ rw (bad, full, find-insert key k hash s.last_saved_hashes, n) refl
      | inr (t, good) ↦ rw (good, full, h, find-insert key k hash s.last_saved_hashes, n) refl
    ]
    | inr empty ↦ elim (Result-cases (short_hash py hash)) [
      | inl (e, bad) ↦ rw (bad, empty) refl
      | inr (t, good) ↦ rw (good, empty, h) refl
    ]
  ]

  -- What comes behind the report changes nothing that is seen of the camera.
  abbrev finish : Unit {0} → Action State (Unit {0})
  finish u = modify (emit frame_processed) >> basic_ack cfg py vision d d.ack

  finish-Silent : (u : Unit {0}) → Silent view (finish u)
  finish-Silent u =
      Silent-bind view (modify (emit frame_processed)) (λ u. basic_ack cfg py vision d d.ack)
        (emit-view frame_processed (λ a e. cc)) (λ u. basic_ack-Silent d.ack)

  -- Behind the report, whichever way it relates what was seen before to what is seen then.
  module _ {ℓ} (R : ℕ × Option Json × ℕ → ℕ × Option Json × ℕ → Type ℓ)
      (same : (v : ℕ × Option Json × ℕ) → R v v) (camera_id : Json) (key : Key) (hash : Json)
      (reports : (bs : List Box)
        → Relates view R (report cfg py vision d camera_id key hash bs)) where
    silent : {A : Type 0} (m : Action State A) → Silent view m → Relates view R m
    silent m h s = subst (R (view s)) (sym (h s)) (same (view s))

    detect_people-Relates :
        (frame : Option Frame)
        → Relates view R (detect_people cfg py vision d camera_id key hash frame)
    unfolding detect_people
    detect_people-Relates none =
        silent (modify (emit decode_error) >> basic_ack cfg py vision d d.ack) (
          Silent-bind view (modify (emit decode_error)) (λ u. basic_ack cfg py vision d d.ack)
            (emit-view decode_error (λ a e. cc)) (λ u. basic_ack-Silent d.ack))
    detect_people-Relates (some frame) =
        let reported = λ (bs : List Box). report cfg py vision d camera_id key hash bs in
        Relates-bind view R (lift (vision.detect frame)) (λ bs. reported bs >>= finish) same
          (λ s. refl) (λ bs. Relates-Silent view R (reported bs) finish (reports bs) finish-Silent)

    -- A frame that is no duplicate.
    abbrev looked_at : Json → Action State (Unit {0})
    looked_at payload = lift (subscript payload (codes "image")) >>= λ image.
        lift (vision.decode image) >>= detect_people cfg py vision d camera_id key hash

    looked_at-Relates : (payload : Json) → Relates view R (looked_at payload)
    looked_at-Relates payload =
        Relates-bind view R (lift (subscript payload (codes "image")))
          (λ image. lift (vision.decode image) >>= detect_people cfg py vision d camera_id key hash)
          same (λ s. refl)
          (λ image.
            Relates-bind view R (lift (vision.decode image))
              (detect_people cfg py vision d camera_id key hash) same (λ s. refl)
              detect_people-Relates)

    pub examine-Relates :
        (payload : Json) (s : State)
        → (view (examine cfg py vision d payload camera_id key hash s).1 ≡ view s)
          ⊎ ((is_duplicate cfg py vision d key hash s ≡ false)
              × R (view s) (view (examine cfg py vision d payload camera_id key hash s).1))
    unfolding examine is_duplicate
    examine-Relates payload s = elim (Bool-cases (is_duplicate cfg py vision d key hash s)) [
      | inl duplicate ↦ inl (
          rw duplicate (
            Silent-bind view (lift (short_hash py hash)) (λ t. basic_ack cfg py vision d d.ack)
              (λ s. refl) (λ t. basic_ack-Silent d.ack)
              (record s { frame_counter = s.frame_counter + 1 })))
      | inr fresh ↦ inr (
        fresh,
        rw fresh (looked_at-Relates payload (record s { frame_counter = s.frame_counter + 1 })),
      )
    ]
