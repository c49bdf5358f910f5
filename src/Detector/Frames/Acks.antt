-- ===== src/Detector/Frames/Acks.antt =====
-- How often a frame is acknowledged (microservices/human_detector/human_detector.py).
use intruder_watch.Base.Counts.{Adds, Silent, Adds-bind}
use intruder_watch.Detector.Frames.{
  Config, Vision, Event, State, Delivery, Box, emit, frame_processed, decode_error, acked,
  basic_ack, report, detect_people, is_duplicate, examine, warm_up, read_frame, callback,
  short_hash, subscript,
}
use intruder_watch.Base.Action.{Action, modify, lift, ◌>>=◌, ◌>>◌}
use intruder_watch.Base.Result.{Result, ok, err, Result-cases}
use intruder_watch.Base.{
  ℕ, suc, List, [], ◌∷◌, ◌+◌, ◌≡◌, Bool, true, false, Option, none, some, if◌then◌else◌, inl, inr,
  arith, refl, Bool-cases, ltb,
}
use intruder_watch.Json.{Json, Python, get}
use intruder_watch.Json.Key.{Key, insert, key_of, find_or}
use intruder_watch.Str.{codes}

abbrev pub acks : List Event → ℕ
acks [] = 0
acks (acked t ∷ es) = suc (acks es)
acks (_ ∷ es) = acks es

-- An action that acknowledges nothing, and one that acknowledges once exactly if it returns.
abbrev pub acked_in : State → ℕ
acked_in s = acks s.events

module _ {Frame : Type 0} (cfg : Config) (py : Python) (vision : Vision Frame) (d : Delivery) where
  basic_ack-Acks : (r : Result (Unit {0})) → Adds acked_in (basic_ack cfg py vision d r)
  unfolding basic_ack
  basic_ack-Acks (ok u) s = omega arith
  basic_ack-Acks (err e) s = omega arith

  report-Silent :
      (camera_id : Json) (key : Key) (hash : Json) (bs : List Box)
      → Silent acked_in (report cfg py vision d camera_id key hash bs)
  unfolding report
  report-Silent camera_id key hash [] s = refl
  report-Silent camera_id key hash (b ∷ bs) s = ground arith

  -- The rest of the callback behind a detection, and behind the boxes of the frame.
  abbrev finish : Unit {0} → Action State (Unit {0})
  finish u = modify (emit frame_processed) >> basic_ack cfg py vision d d.ack

  abbrev acknowledge : Unit {0} → Action State (Unit {0})
  acknowledge u = basic_ack cfg py vision d d.ack

  acknowledge-Acks : (u : Unit {0}) → Adds acked_in (acknowledge u)
  acknowledge-Acks u = basic_ack-Acks d.ack

  finish-Acks : (u : Unit {0}) → Adds acked_in (finish u)
  finish-Acks u =
      Adds-bind acked_in (modify (emit frame_processed)) acknowledge (λ s. refl) acknowledge-Acks

  detect_people-Acks :
      (camera_id : Json) (key : Key) (hash : Json) (frame : Option Frame)
      → Adds acked_in (detect_people cfg py vision d camera_id key hash frame)
  unfolding detect_people
  detect_people-Acks camera_id key hash none =
      Adds-bind acked_in (modify (emit decode_error)) acknowledge (λ s. refl) acknowledge-Acks
  detect_people-Acks camera_id key hash (some frame) =
      let reported = λ (bs : List Box). report cfg py vision d camera_id key hash bs in
      Adds-bind acked_in (lift (vision.detect frame)) (λ bs. reported bs >>= finish) (λ s. refl)
        λ bs.
          Adds-bind acked_in (reported bs) finish (report-Silent camera_id key hash bs) finish-Acks

  -- Behind the image of a payload, and behind the test for a duplicate.
  abbrev seen : Json → Key → Json → Json → Action State (Unit {0})
  seen camera_id key hash image =
      lift (vision.decode image) >>= detect_people cfg py vision d camera_id key hash

  abbrev branch : Json → Json → Key → Json → Bool → Action State (Unit {0})
  branch payload camera_id key hash duplicate =
      if duplicate
      then (lift (short_hash py hash) >> basic_ack cfg py vision d d.ack)
      else (lift (subscript payload (codes "image")) >>= seen camera_id key hash)

  seen-Acks :
      (camera_id : Json) (key : Key) (hash image : Json)
      → Adds acked_in (seen camera_id key hash image)
  seen-Acks camera_id key hash image =
      Adds-bind acked_in (lift (vision.decode image))
        (detect_people cfg py vision d camera_id key hash) (λ s. refl)
        (detect_people-Acks camera_id key hash)

  branch-Acks :
      (payload camera_id : Json) (key : Key) (hash : Json) (b : Bool)
      → Adds acked_in (branch payload camera_id key hash b)
  branch-Acks payload camera_id key hash true =
      Adds-bind acked_in (lift (short_hash py hash)) (λ t. basic_ack cfg py vision d d.ack)
        (λ s. refl) (λ t. basic_ack-Acks d.ack)
  branch-Acks payload camera_id key hash false =
      Adds-bind acked_in (lift (subscript payload (codes "image"))) (seen camera_id key hash)
        (λ s. refl) (seen-Acks camera_id key hash)

  examine-Acks :
      (payload camera_id : Json) (key : Key) (hash : Json)
      → Adds acked_in (examine cfg py vision d payload camera_id key hash)
  unfolding examine
  examine-Acks payload camera_id key hash s =
      branch-Acks payload camera_id key hash
        (is_duplicate cfg py vision d key hash (record s { frame_counter = s.frame_counter + 1 }))
        (record s { frame_counter = s.frame_counter + 1 })

  warm_up-Acks : (key : Key) (n : ℕ) → Adds acked_in (warm_up cfg py vision d key n)
  unfolding warm_up
  warm_up-Acks key n s =
      basic_ack-Acks d.ack (record s { camera_warmup = insert key (n + 1) s.camera_warmup })

  -- Behind the payload, its hash and the key of the camera.
  abbrev keyed : Json → Json → Json → Key → Action State (Unit {0})
  keyed payload camera_id hash key s =
      let current_count = find_or key 0 s.camera_warmup in
      (if ltb current_count cfg.warmup_limit
          then warm_up cfg py vision d key current_count
          else examine cfg py vision d payload camera_id key hash)
        s

  abbrev hashed : Json → Json → Json → Action State (Unit {0})
  hashed payload camera_id hash = lift (key_of py camera_id) >>= keyed payload camera_id hash

  abbrev cameraed : Json → Json → Action State (Unit {0})
  cameraed payload camera_id =
      lift (get payload (codes "hash") (Json.str [])) >>= hashed payload camera_id

  abbrev loaded : Json → Action State (Unit {0})
  loaded payload =
      lift (get payload (codes "camera") (Json.str (codes "unknown"))) >>= cameraed payload

  keyed-Acks :
      (payload camera_id hash : Json) (key : Key) → Adds acked_in (keyed payload camera_id hash key)
  keyed-Acks payload camera_id hash key s =
      elim (Bool-cases (ltb (find_or key 0 s.camera_warmup) cfg.warmup_limit)) [
        | inl warm ↦ rw warm (warm_up-Acks key (find_or key 0 s.camera_warmup) s)
        | inr ready ↦ rw ready (examine-Acks payload camera_id key hash s)
      ]

  read_frame-Acks : Adds acked_in (read_frame cfg py vision d)
  unfolding read_frame
  read_frame-Acks =
      Adds-bind acked_in (lift (py.loads d.body)) loaded (λ s. refl)
        λ payload.
          Adds-bind acked_in (lift (get payload (codes "camera") (Json.str (codes "unknown"))))
            (cameraed payload) (λ s. refl)
            λ camera_id.
              Adds-bind acked_in (lift (get payload (codes "hash") (Json.str [])))
                (hashed payload camera_id) (λ s. refl)
                λ hash.
                  Adds-bind acked_in (lift (key_of py camera_id)) (keyed payload camera_id hash)
                    (λ s. refl) (keyed-Acks payload camera_id hash)

  -- Whatever a message holds and whatever its processing ends with, the callback returns, and the
  -- message is acknowledged exactly once, where the broker takes an acknowledgement at least in the
  -- `except` clause.
  pub callback-acks :
      (s : State)
      → d.ack_again ≡ ok tt
      → let (r, s') = callback cfg py vision d s in
        (r ≡ ok tt) × (acks s'.events ≡ acks s.events + 1)
  unfolding callback basic_ack
  callback-acks s h =
      let start = record s { last_frame_time = d.now } in
      let counted = read_frame-Acks start in
      elim (Result-cases (read_frame cfg py vision d start).0) [
        | inl (e, bad) ↦ ground (arith, bad, counted, h)
        | inr (u, good) ↦ ground (arith, good, counted)
      ]
