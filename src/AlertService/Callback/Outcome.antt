-- ===== src/AlertService/Callback/Outcome.antt =====
-- What one callback does, by whether the message is an alert whose camera can be looked up.
use intruder_watch.Base.{◌≡◌, ◌⊎◌, inl, inr, List, [], ◌∷◌, arith, refl, ◌∙◌, ap}
use intruder_watch.Base.Result.{Error, ok, err, Result-cases, Result}
use intruder_watch.Base.Action.{seq-ok, seq-err}
use intruder_watch.Json.{Python}
use intruder_watch.Json.Key.{Key, key_of}
use intruder_watch.AlertService.Config.{Config, Alert}
use intruder_watch.AlertService.Payload.{read_alert, recover}
use intruder_watch.AlertService.Callback.{
  State, emit, notify, call, Delivery, callback, consume, alerts_total, ack,
}

-- The alert and the key of its camera, or the exception that leaves the callback.
unfoldable pub accepted : Python → Delivery → Result (Alert × Key)
accepted py d = elim (recover (read_alert py d.body)) [
  | ok alert ↦ elim (key_of py alert.camera_id) [ ok key ↦ ok (alert, key) | err e ↦ err e ]
  | err e ↦ err e
]

-- The state that an accepted alert leaves in front of the acknowledgement, and behind it.
unfoldable pub noticed : Config → Delivery → Alert → Key → State → State
noticed cfg d alert key s =
    call cfg d.now alert (notify cfg d.now key alert (emit (alerts_total alert.camera_id) s))

unfoldable pub after : Config → Delivery → Alert → Key → State → State
after cfg d alert key s = emit (ack d.tag) (noticed cfg d alert key s)

module _ (cfg : Config) (py : Python) (d : Delivery) (s : State) where
  accepted-read :
      {alert : Alert} {key : Key}
      → accepted py d ≡ ok (alert, key)
      → (recover (read_alert py d.body) ≡ ok alert) × (key_of py alert.camera_id ≡ ok key)
  unfolding accepted
  accepted-read h = elim (Result-cases (recover (read_alert py d.body))) [
    | inl (e, bad) ↦ ground (arith, bad)
    | inr (a, read) ↦ elim (Result-cases (key_of py a.camera_id)) [
      | inl (e, bad) ↦ ground arith
      | inr (k, found) ↦ ground arith
    ]
  ]

  pub callback-accepted :
      {alert : Alert} {key : Key}
      → accepted py d ≡ ok (alert, key)
      → d.acked ≡ ok tt
      → callback cfg py d s ≡ (ok tt, after cfg d alert key s)
  unfolding callback after noticed
  callback-accepted h fine = let (read, found) = accepted-read h in rw (read, found, fine) refl

  -- The acknowledgement raises: what comes before it is done.
  pub callback-unacked :
      {alert : Alert} {key : Key} {e : Error}
      → accepted py d ≡ ok (alert, key)
      → d.acked ≡ err e
      → callback cfg py d s ≡ (err e, noticed cfg d alert key s)
  unfolding callback noticed
  callback-unacked h lost = let (read, found) = accepted-read h in rw (read, found, lost) refl

  -- Nothing but the counter of alerts has changed.
  pub callback-refused :
      {e : Error}
      → accepted py d ≡ err e
      → (callback cfg py d s ≡ (err e, s))
        ⊎ ((a : Alert) × (callback cfg py d s ≡ (err e, emit (alerts_total a.camera_id) s)))
  unfolding callback accepted
  callback-refused h = elim (Result-cases (recover (read_alert py d.body))) [
    | inl (e, bad) ↦ inl (ground arith)
    | inr (a, read) ↦ inr (
      a,
      elim (Result-cases (key_of py a.camera_id)) [
        | inl (e, bad) ↦ ground arith
        | inr (k, found) ↦ ground arith
      ],
    )
  ]

-- What comes behind a call, if that returns.
abbrev pub if_ok : {A : Type 0} → Result (Unit {0}) → List A → List A
if_ok (ok u) xs = xs
if_ok (err e) xs = []

-- The deliveries that the loop handles to the end: those before the first that raises.
unfoldable pub handled : Python → List Delivery → List Delivery
handled py [] = []
handled py (d ∷ ds) =
    let rest = handled py ds in
    elim (accepted py d) [ ok (alert, key) ↦ if_ok d.acked (d ∷ rest) | err e ↦ [] ]

-- Those whose alert it comes to: the same, and one more where it is the acknowledgement that raises.
unfoldable pub alerted : Python → List Delivery → List Delivery
alerted py [] = []
alerted py (d ∷ ds) =
    let rest = alerted py ds in
    elim (accepted py d) [ ok (alert, key) ↦ d ∷ if_ok d.acked rest | err e ↦ [] ]

module _ (py : Python) (d : Delivery) (ds : List Delivery) where
  pub handled-accepted :
      {alert : Alert} {key : Key}
      → accepted py d ≡ ok (alert, key)
      → handled py (d ∷ ds) ≡ if_ok d.acked (d ∷ handled py ds)
  unfolding handled
  handled-accepted h = rw (h, handled)

  pub alerted-accepted :
      {alert : Alert} {key : Key}
      → accepted py d ≡ ok (alert, key)
      → alerted py (d ∷ ds) ≡ d ∷ if_ok d.acked (alerted py ds)
  unfolding alerted
  alerted-accepted h = rw (h, alerted)

  pub alerted-acked :
      {alert : Alert} {key : Key}
      → accepted py d ≡ ok (alert, key)
      → d.acked ≡ ok tt
      → alerted py (d ∷ ds) ≡ d ∷ alerted py ds
  alerted-acked h fine = alerted-accepted h ∙ ap (λ r. d ∷ if_ok r (alerted py ds)) fine

  pub alerted-unacked :
      {alert : Alert} {key : Key} {e : Error}
      → accepted py d ≡ ok (alert, key)
      → d.acked ≡ err e
      → alerted py (d ∷ ds) ≡ d ∷ []
  alerted-unacked h lost = alerted-accepted h ∙ ap (λ r. d ∷ if_ok r (alerted py ds)) lost

  pub alerted-refused : {e : Error} → accepted py d ≡ err e → alerted py (d ∷ ds) ≡ []
  unfolding alerted
  alerted-refused h = rw (h, alerted)

  pub handled-acked :
      {alert : Alert} {key : Key}
      → accepted py d ≡ ok (alert, key)
      → d.acked ≡ ok tt
      → handled py (d ∷ ds) ≡ d ∷ handled py ds
  handled-acked h fine = handled-accepted h ∙ ap (λ r. if_ok r (d ∷ handled py ds)) fine

  pub handled-unacked :
      {alert : Alert} {key : Key} {e : Error}
      → accepted py d ≡ ok (alert, key)
      → d.acked ≡ err e
      → handled py (d ∷ ds) ≡ []
  handled-unacked h lost = handled-accepted h ∙ ap (λ r. if_ok r (d ∷ handled py ds)) lost

  pub handled-refused : {e : Error} → accepted py d ≡ err e → handled py (d ∷ ds) ≡ []
  unfolding handled
  handled-refused h = rw (h, handled)

-- The loop goes on behind an accepted alert that is acknowledged, and stops at any other message.
module _ (cfg : Config) (py : Python) (d : Delivery) (ds : List Delivery) (s : State) where
  pub consume-accepted :
      {alert : Alert} {key : Key}
      → accepted py d ≡ ok (alert, key)
      → d.acked ≡ ok tt
      → consume cfg py (d ∷ ds) s ≡ consume cfg py ds (after cfg d alert key s)
  unfolding consume
  consume-accepted h a =
      seq-ok (callback cfg py d) s (consume cfg py ds) (callback-accepted cfg py d s h a)

  pub consume-unacked :
      {alert : Alert} {key : Key} {e : Error}
      → accepted py d ≡ ok (alert, key)
      → d.acked ≡ err e
      → consume cfg py (d ∷ ds) s ≡ (err e, noticed cfg d alert key s)
  unfolding consume
  consume-unacked h a =
      seq-err (callback cfg py d) s (consume cfg py ds) (callback-unacked cfg py d s h a)

  pub consume-refused :
      {e : Error}
      → accepted py d ≡ err e
      → (consume cfg py (d ∷ ds) s ≡ (err e, s))
        ⊎ ((a : Alert) × (consume cfg py (d ∷ ds) s ≡ (err e, emit (alerts_total a.camera_id) s)))
  unfolding consume
  consume-refused h = elim (callback-refused cfg py d s h) [
    | inl q ↦ inl (seq-err (callback cfg py d) s (consume cfg py ds) q)
    | inr (a, q) ↦ inr (a, seq-err (callback cfg py d) s (consume cfg py ds) q)
  ]
