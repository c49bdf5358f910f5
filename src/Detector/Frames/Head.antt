-- ===== src/Detector/Frames/Head.antt =====
-- What the callback of frame_queue reads out of a message before it looks at its state, and the
-- alerts of one camera (microservices/human_detector/human_detector.py).
use intruder_watch.Detector.Frames.{Event, submitted, Delivery}
use intruder_watch.Base.Result.{Error, Result, ok, err, ◌>>=◌, Result-cases}
use intruder_watch.Json.{Json, Python, get}
use intruder_watch.Json.Key.{Key, key_of, key_eq, key_eq→≡}
use intruder_watch.Str.{codes}
use intruder_watch.Base.{
  ℕ, suc, ◌≡◌, refl, Bool, true, false, ap, sym, ◌∙◌, ◌⊎◌, List, [], ◌∷◌, if◌then◌else◌, inl, inr,
  arith,
}

-- The payload, the camera, the hash and the key of the camera.
unfoldable pub head : Python → Delivery → Result (Json × Json × Json × Key)
head py d = py.loads d.body >>= λ payload.
    get payload (codes "camera") (Json.str (codes "unknown")) >>= λ camera_id.
    get payload (codes "hash") (Json.str []) >>= λ expected_hash.
    key_of py camera_id >>= λ key. ok (payload, camera_id, expected_hash, key)

unfoldable pub is_of : Python → Key → Json → Bool
is_of py k camera_id = elim (key_of py camera_id) [ ok key ↦ key_eq key k | err e ↦ false ]

pub is_of-key :
    (py : Python) (k key : Key) (camera_id : Json)
    → key_of py camera_id ≡ ok key
    → is_of py k camera_id ≡ key_eq key k
unfolding is_of
is_of-key py k key camera_id h = rw (h, is_of) refl

-- How many alerts of a camera were submitted.
unfoldable pub submissions : Python → Key → List Event → ℕ
submissions py k [] = 0
submissions py k (submitted alert ∷ es) =
    let rest = submissions py k es in if is_of py k alert.camera then suc rest else rest
submissions py k (_ ∷ es) = submissions py k es

pub head-key :
    (py : Python) (d : Delivery) {payload camera_id hash : Json} {key : Key}
    → head py d ≡ ok (payload, camera_id, hash, key)
    → key_of py camera_id ≡ ok key
unfolding head
head-key py d {payload} {camera_id} {hash} {key} h = elim (Result-cases (py.loads d.body)) [
  | inl (e, bad) ↦ ground (arith, bad, h)
  | inr (p, loaded) ↦ elim (Result-cases (get p (codes "camera") (Json.str (codes "unknown")))) [
    | inl (e, bad) ↦ ground (arith, loaded, bad, h)
    | inr (c, known) ↦ elim (Result-cases (get p (codes "hash") (Json.str []))) [
      | inl (e, bad) ↦ ground (arith, loaded, known, bad, h)
      | inr (x, hashed) ↦ elim (Result-cases (key_of py c)) [
        | inl (e, bad) ↦ ground (arith, loaded, known, hashed, bad, h)
        | inr (y, good) ↦ ground (arith, loaded, known, hashed, good, h)
      ]
    ]
  ]
]

-- Whether a message is read as a frame of a camera.
unfoldable pub is_frame_of : Python → Key → Delivery → Bool
is_frame_of py k d = elim (head py d) [
  | ok (payload, camera_id, hash, key) ↦ key_eq key k
  | err e ↦ false
]

module _ (py : Python) (k : Key) (d : Delivery) where
  is_frame_of-err : {e : Error} → head py d ≡ err e → is_frame_of py k d ≡ false
  unfolding is_frame_of
  is_frame_of-err h = rw (h, is_frame_of) refl

  is_frame_of-ok :
      {payload camera_id hash : Json} {key : Key}
      → head py d ≡ ok (payload, camera_id, hash, key)
      → is_frame_of py k d ≡ key_eq key k
  unfolding is_frame_of
  is_frame_of-ok h = rw (h, is_frame_of) refl

  -- What a frame of the camera is read as.
  pub is_frame_of-head :
      is_frame_of py k d ≡ true
      → (payload : Json) × (camera_id : Json) × (hash : Json) × (head py d
          ≡ ok (payload, camera_id, hash, k))
  is_frame_of-head h = elim (Result-cases (head py d)) [
    | inl (e, bad) ↦ cc (is_frame_of-err bad)
    | inr ((payload, camera_id, hash, key), good) ↦ (
      payload,
      camera_id,
      hash,
      good
          ∙ ap (λ j. ok (payload, camera_id, hash, j))
              (key_eq→≡ key k (sym (is_frame_of-ok good) ∙ h)),
    )
  ]

  -- A message that is none.
  pub not_frame_of :
      is_frame_of py k d ≡ false
      → ((e : Error) × (head py d ≡ err e))
        ⊎ ((payload : Json) × (camera_id : Json) × (hash : Json) × (key : Key) × (head py d
              ≡ ok (payload, camera_id, hash, key))
            × (key_eq key k ≡ false))
  not_frame_of h = elim (Result-cases (head py d)) [
    | inl bad ↦ inl bad
    | inr ((payload, camera_id, hash, key), good) ↦
        inr (payload, camera_id, hash, key, good, sym (is_frame_of-ok good) ∙ h)
  ]
