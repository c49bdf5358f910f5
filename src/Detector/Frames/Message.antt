-- ===== src/Detector/Frames/Message.antt =====
-- What one message of frame_queue does to the state of one camera
-- (microservices/human_detector/human_detector.py).
use intruder_watch.Detector.Frames.{
  Config, Vision, State, Delivery, emit, exception, basic_ack, is_duplicate, examine, read_frame,
  callback, warm_up,
}
use intruder_watch.Base.Counts.{Silent, catch-Silent, Silent-bind}
use intruder_watch.Base.Action.{Action, modify, catch, pure, ◌>>◌}
use intruder_watch.Detector.Frames.Head.{
  is_frame_of, not_frame_of, head, head-key, is_of-key, submissions,
}
use intruder_watch.Base.Result.{Error, Result, ok, err, Result-cases}
use intruder_watch.Json.{Json, Python, get}
use intruder_watch.Json.Key.{
  Key, key_of, key_eq, find, find_or, insert, find_or-insert, key_eq_refl,
}
use intruder_watch.Str.{codes}
use intruder_watch.Base.{
  ℕ, ◌+◌, ◌≡◌, ◌∙◌, refl, true, false, Option, [], ◌⊎◌, inl, inr, ltb, if◌then◌else◌, Bool-cases,
}
use intruder_watch.Detector.Frames.Camera.{
  camera_view, Reports, emit-view, basic_ack-Silent, report-Reports, report-Silent, examine-Relates,
}

module _ {Frame : Type 0} (cfg : Config) (py : Python) (vision : Vision Frame) (d : Delivery)
    (k : Key) where
  abbrev view : State → ℕ × Option Json × ℕ
  view = camera_view py k

  -- Behind what is read from the message.
  abbrev keyed : Json → Json → Json → Key → Action State (Unit {0})
  keyed payload camera_id hash key s =
      let current_count = find_or key 0 s.camera_warmup in
      (if ltb current_count cfg.warmup_limit
          then warm_up cfg py vision d key current_count
          else examine cfg py vision d payload camera_id key hash)
        s

  read_frame-head :
      (s : State)
      → read_frame cfg py vision d s ≡ elim (head py d) as (λ r. Result (Unit {0}) × State) [
        | ok (payload, camera_id, hash, key) ↦ keyed payload camera_id hash key s
        | err e ↦ (err e, s)
      ]
  unfolding read_frame head
  read_frame-head s = elim (Result-cases (py.loads d.body)) [
    | inl (e, bad) ↦ rw bad refl
    | inr (payload, loaded) ↦
        elim (Result-cases (get payload (codes "camera") (Json.str (codes "unknown")))) [
          | inl (e, bad) ↦ rw (loaded, bad) refl
          | inr (camera_id, known) ↦
              elim (Result-cases (get payload (codes "hash") (Json.str []))) [
                | inl (e, bad) ↦ rw (loaded, known, bad) refl
                | inr (hash, hashed) ↦ elim (Result-cases (key_of py camera_id)) [
                  | inl (e, bad) ↦ rw (loaded, known, hashed, bad) refl
                  | inr (key, good) ↦ rw (loaded, known, hashed, good) refl
                ]
              ]
        ]
  ]

  -- The callback sees of the camera what its `try` leaves.
  callback-view :
      (s : State)
      → view (callback cfg py vision d s).1
        ≡ view (read_frame cfg py vision d (record s { last_frame_time = d.now })).1
  unfolding callback
  callback-view s =
      catch-Silent view (read_frame cfg py vision d)
        (λ e.
          modify (emit exception)
          >> catch (basic_ack cfg py vision d d.ack_again) (λ ack_err. pure tt))
        (λ e.
          Silent-bind view (modify (emit exception))
            (λ u. catch (basic_ack cfg py vision d d.ack_again) (λ ack_err. pure tt))
            (emit-view cfg py vision d k exception (λ a e. cc))
            (λ u s.
              catch-Silent view (basic_ack cfg py vision d d.ack_again) (λ ack_err. pure tt)
                (λ e s. refl) s
              ∙ basic_ack-Silent cfg py vision d k d.ack_again s))
        (record s { last_frame_time = d.now })

  -- A message that cannot be read, or that is of another camera.
  callback-unread :
      {e : Error} (s : State) → head py d ≡ err e → view (callback cfg py vision d s).1 ≡ view s
  callback-unread s h =
      rw (callback-view s, read_frame-head (record s { last_frame_time = d.now }), h) refl

  callback-keyed :
      {payload camera_id hash : Json} {key : Key} (s : State)
      → head py d ≡ ok (payload, camera_id, hash, key)
      → view (callback cfg py vision d s).1
        ≡ view (keyed payload camera_id hash key (record s { last_frame_time = d.now })).1
  callback-keyed s h =
      rw (callback-view s, read_frame-head (record s { last_frame_time = d.now }), h) refl

  warm_up-Silent :
      (key : Key) (n : ℕ) → key_eq key k ≡ false → Silent view (warm_up cfg py vision d key n)
  unfolding warm_up
  warm_up-Silent key n h s =
      basic_ack-Silent cfg py vision d k d.ack
        (record s { camera_warmup = insert key (n + 1) s.camera_warmup })
      ∙ rw (find_or-insert key k (n + 1) 0 s.camera_warmup, h) refl

  keyed-Silent :
      (payload camera_id hash : Json) (key : Key)
      → key_of py camera_id ≡ ok key
      → key_eq key k ≡ false
      → Silent view (keyed payload camera_id hash key)
  keyed-Silent payload camera_id hash key h n s =
      let other = is_of-key py k key camera_id h ∙ n in
      elim (Bool-cases (ltb (find_or key 0 s.camera_warmup) cfg.warmup_limit)) [
        | inl warm ↦ rw warm (warm_up-Silent key (find_or key 0 s.camera_warmup) n s)
        | inr ready ↦
            rw ready
              (elim (examine-Relates cfg py vision d k (λ v w. w ≡ v) (λ v. refl) camera_id key hash
                (λ bs. report-Silent cfg py vision d k camera_id hash key bs other n) payload s) [
                  | inl e ↦ e
                  | inr (fresh, e) ↦ e
                ])
      ]

  callback-other :
      {payload camera_id hash : Json} {key : Key} (s : State)
      → head py d ≡ ok (payload, camera_id, hash, key)
      → key_eq key k ≡ false
      → view (callback cfg py vision d s).1 ≡ view s
  callback-other {payload} {camera_id} {hash} {key} s h n =
      callback-keyed s h
      ∙ keyed-Silent payload camera_id hash key (head-key py d h) n
          (record s { last_frame_time = d.now })

  pub callback-not_frame :
      (s : State) → is_frame_of py k d ≡ false → view (callback cfg py vision d s).1 ≡ view s
  callback-not_frame s h = elim (not_frame_of py k d h) [
    | inl (e, bad) ↦ callback-unread s bad
    | inr (payload, camera_id, hash, key, good, other) ↦ callback-other s good other
  ]

  module _ {payload camera_id hash : Json} (s : State)
      (h : head py d ≡ ok (payload, camera_id, hash, k)) where
    -- A frame of the camera in its warm-up, and behind it.
    pub callback-warm :
        ltb (find_or k 0 s.camera_warmup) cfg.warmup_limit ≡ true
        → view (callback cfg py vision d s).1
          ≡ (find_or k 0 s.camera_warmup + 1, find k s.last_saved_hashes, submissions py k s.events)
    unfolding warm_up
    callback-warm warm =
        let n = find_or k 0 s.camera_warmup in
        rw
          (
            callback-keyed s h,
            warm,
            basic_ack-Silent cfg py vision d k d.ack (record s {
              last_frame_time = d.now;
              camera_warmup = insert k (n + 1) s.camera_warmup;
            }),
            find_or-insert k k (n + 1) 0 s.camera_warmup,
            key_eq_refl k,
          )
          refl

    pub callback-ready :
        ltb (find_or k 0 s.camera_warmup) cfg.warmup_limit ≡ false
        → (view (callback cfg py vision d s).1 ≡ view s)
          ⊎ ((is_duplicate cfg py vision d k hash s ≡ false)
              × Reports hash (view s) (view (callback cfg py vision d s).1))
    unfolding is_duplicate
    callback-ready ready =
        let own = is_of-key py k k camera_id (head-key py d h) ∙ key_eq_refl k in
        rw (callback-keyed s h, ready)
          (examine-Relates cfg py vision d k (Reports hash) (λ v. inl refl) camera_id k hash
            (λ bs. report-Reports cfg py vision d k camera_id hash bs own) payload
            (record s { last_frame_time = d.now }))
