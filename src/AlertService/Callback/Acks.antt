-- ===== src/AlertService/Callback/Acks.antt =====
-- Which messages the loop acknowledges, and how alerts are counted
-- (`callback` and `start_consuming` of microservices/alert_service/alert_service.py).
use mathlib.Core.List.{reverse, reverse_aux}
use intruder_watch.Base.{
  ℕ, suc, ◌+◌, ◌*◌, ◌≡◌, ◌≢◌, refl, List, [], ◌∷◌, arith, if◌then◌else◌, inl, inr, map, length, ap,
}
use intruder_watch.Base.Result.{ok, err, Result-cases, attribute_error, ◌>>=◌}
use intruder_watch.Base.Action.{seq-err}
use intruder_watch.Json.{Json, Fields, Python, get}
use intruder_watch.Json.Key.{Key}
use intruder_watch.AlertService.Config.{Config, Alert}
use intruder_watch.AlertService.Payload.{read_alert, recover, is_malformed}
use intruder_watch.AlertService.Callback.{
  Event, State, init, notify, call, Delivery, callback, consume, call_thread, photo_thread,
  alerts_suppressed, ack,
}
use intruder_watch.AlertService.Callback.Outcome.{
  accepted, after, noticed, consume-accepted, consume-unacked, consume-refused, handled,
  handled-acked, handled-unacked, handled-refused, alerted, alerted-acked, alerted-unacked,
  alerted-refused,
}

-- The acknowledged tags, the newest first.
unfoldable pub acks : List Event → List ℕ
acks [] = []
acks (ack t ∷ es) = t ∷ acks es
acks (_ ∷ es) = acks es

acks-noticed :
    (cfg : Config) (d : Delivery) (alert : Alert) (key : Key) (s : State)
    → acks (noticed cfg d alert key s).events ≡ acks s.events
unfolding noticed notify call acks
acks-noticed cfg d alert key s = ground arith

acks-after :
    (cfg : Config) (d : Delivery) (alert : Alert) (key : Key) (s : State)
    → acks (after cfg d alert key s).events ≡ d.tag ∷ acks s.events
unfolding after acks
acks-after cfg d alert key s = ap (◌∷◌ d.tag) (acks-noticed cfg d alert key s)

-- The suppressions and the threads started, together.
unfoldable pub outcomes : List Event → ℕ
outcomes [] = 0
outcomes (alerts_suppressed c ∷ es) = suc (outcomes es)
outcomes (photo_thread t k a ∷ es) = suc (outcomes es)
outcomes (call_thread t ∷ es) = suc (outcomes es)
outcomes (_ ∷ es) = outcomes es

-- What an alert counts for.
abbrev pub each : Config → ℕ
each cfg = if cfg.enable_call_alerts then 2 else 1

outcomes-noticed :
    (cfg : Config) (d : Delivery) (alert : Alert) (key : Key) (s : State)
    → outcomes (noticed cfg d alert key s).events ≡ outcomes s.events + each cfg
unfolding noticed notify call outcomes
outcomes-noticed cfg d alert key s = ground arith

outcomes-after :
    (cfg : Config) (d : Delivery) (alert : Alert) (key : Key) (s : State)
    → outcomes (after cfg d alert key s).events ≡ outcomes s.events + each cfg
unfolding after outcomes
outcomes-after cfg d alert key s = outcomes-noticed cfg d alert key s

read_alert-not_object :
    (py : Python) (body : List ℕ) (v : Json)
    → py.loads body ≡ ok v
    → ((fs : Fields) → v ≢ Json.obj fs)
    → read_alert py body ≡ err attribute_error
unfolding read_alert get
read_alert-not_object py body (Json.obj fs) h no_object = absurd (no_object fs refl)
read_alert-not_object py body _ h no_object = rw (h, ◌>>=◌)

module _ (cfg : Config) (py : Python) where
  acks-consume_from :
      (ds : List Delivery) (s : State)
      → acks (consume cfg py ds s).1.events
        ≡ reverse_aux (map (λ d. d.tag) (handled py ds)) (acks s.events)
  acks-consume_from [] s = unfold consume handled in refl
  acks-consume_from (d ∷ ds) s = elim (Result-cases (accepted py d)) [
    | inl (e, bad) ↦ elim (consume-refused cfg py d ds s bad) [
      | inl q ↦ rw (q, handled-refused py d ds bad)
      | inr (a, q) ↦ rw (q, handled-refused py d ds bad) (unfold acks in refl)
    ]
    | inr ((alert, key), good) ↦ elim (Result-cases d.acked) [
      | inl (e, lost) ↦
          rw (consume-unacked cfg py d ds s good lost, handled-unacked py d ds good lost)
            (acks-noticed cfg d alert key s)
      | inr (u, fine) ↦ rw (
        consume-accepted cfg py d ds s good fine,
        handled-acked py d ds good fine,
        acks-consume_from ds (after cfg d alert key s),
        acks-after cfg d alert key s,
      )
    ]
  ]

  -- Every message that is handled to the end is acknowledged once, in the order of arrival; a
  -- message whose callback raises, be it in the acknowledgement, is not, and neither is any behind it.
  pub acks-consume :
      (ds : List Delivery)
      → acks (consume cfg py ds init).1.events ≡ reverse (map (λ d. d.tag) (handled py ds))
  unfolding acks
  acks-consume ds = acks-consume_from ds init

  outcomes-consume_from :
      (ds : List Delivery) (s : State)
      → outcomes (consume cfg py ds s).1.events
        ≡ outcomes s.events + length (alerted py ds) * each cfg
  outcomes-consume_from [] s = unfold consume alerted in omega arith
  outcomes-consume_from (d ∷ ds) s = elim (Result-cases (accepted py d)) [
    | inl (e, bad) ↦ elim (consume-refused cfg py d ds s bad) [
      | inl q ↦ rw (q, alerted-refused py d ds bad) (omega arith)
      | inr (a, q) ↦ rw (q, alerted-refused py d ds bad) (unfold outcomes in omega arith)
    ]
    | inr ((alert, key), good) ↦ elim (Result-cases d.acked) [
      | inl (e, lost) ↦
          rw (consume-unacked cfg py d ds s good lost, alerted-unacked py d ds good lost)
            (omega (arith, outcomes-noticed cfg d alert key s))
      | inr (u, fine) ↦
          rw (consume-accepted cfg py d ds s good fine, alerted-acked py d ds good fine)
            (omega (
              arith,
              outcomes-consume_from ds (after cfg d alert key s),
              outcomes-after cfg d alert key s,
            ))
    ]
  ]

  -- Every alert that the loop comes to leads to one thread or one suppression for the photo, and
  -- to one more for the calls where these are switched on.
  pub outcomes-consume :
      (ds : List Delivery)
      → outcomes (consume cfg py ds init).1.events ≡ length (alerted py ds) * each cfg
  outcomes-consume ds = unfold outcomes in omega (arith, outcomes-consume_from ds init)

  -- A body that is valid JSON but no object is no malformed payload to the `except` clause: the
  -- callback raises, the loop ends with its state unchanged, and the message is not acknowledged.
  pub consume-not_object :
      (d : Delivery) (ds : List Delivery) (s : State) (v : Json)
      → py.loads d.body ≡ ok v
      → ((fs : Fields) → v ≢ Json.obj fs)
      → consume cfg py (d ∷ ds) s ≡ (err attribute_error, s)
  unfolding consume
  consume-not_object d ds s v h no_object = seq-err (callback cfg py d) s (consume cfg py ds) (
      unfold callback recover is_malformed in
      ground (arith, read_alert-not_object py d.body v h no_object))
