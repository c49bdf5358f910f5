-- ===== src/AlertService/Callback/Cooldown.antt =====
-- The cooldown of the photo notification, `last_ntfy_times` of `callback`
-- (microservices/alert_service/alert_service.py), against a rate limiter for each camera.
use intruder_watch.Base.Int.{pos}
use mathlib.Core.List.{reverse, reverse_aux}
use intruder_watch.Base.{ℕ, ◌≡◌, refl, ◌&&◌, List, [], ◌∷◌, arith, if◌then◌else◌, inl, inr, ◌∙◌, ap}
use intruder_watch.Base.Result.{Error, ok, err, Result-cases}
use intruder_watch.Json.{Python}
use intruder_watch.Json.Key.{Key, key_eq, key_eq_iff, find, find_or, find-insert}
use intruder_watch.AlertService.Config.{Config, Alert}
use intruder_watch.AlertService.Callback.Outcome.{
  accepted, after, noticed, if_ok, consume-unacked, consume-accepted, consume-refused,
}
use intruder_watch.AlertService.Callback.Limiter.{
  limit, times_if, reverse_aux-times_if, limit-times_if, is_late, expired-is_late, IsSpaced,
  reverse_aux-limit-IsSpaced,
}
use intruder_watch.AlertService.Callback.{
  Event, State, init, notify, call, Delivery, consume, photo_thread,
}

-- The alerts that the loop comes to, with the time of each, up to the first message that raises.
module _ (py : Python) where
  -- The times at which a camera's alerts come in.
  unfoldable pub arrivals : Key → List Delivery → List ℕ
  arrivals k [] = []
  arrivals k (d ∷ ds) =
      let rest = arrivals k ds in
      elim (accepted py d) [
        | ok (alert, key) ↦ times_if (key_eq key k) d.now (if_ok d.acked rest)
        | err e ↦ []
      ]

-- The starts of a camera's photo threads, the newest first.
unfoldable pub photo_times : Key → List Event → List ℕ
photo_times k [] = []
photo_times k (photo_thread t j alert ∷ es) =
    let rest = photo_times k es in if key_eq j k then t ∷ rest else rest
photo_times k (_ ∷ es) = photo_times k es

-- The last time at which a camera's photo thread was started, as the service remembers it.
abbrev last_photo : Key → State → ℕ
last_photo k s = find_or k 0 s.last_ntfy_times

module _ (cfg : Config) (d : Delivery) (alert : Alert) (key k : Key) (s : State) where
  photo_times-noticed : photo_times k (noticed cfg d alert key s).events ≡ (
      if key_eq key k && is_late cfg.ntfy_cooldown (last_photo k s) d.now
      then d.now ∷ photo_times k s.events
      else photo_times k s.events)
  unfolding noticed notify call photo_times
  photo_times-noticed = ground (
    arith,
    key_eq_iff key k,
    expired-is_late cfg.ntfy_cooldown (find_or key 0 s.last_ntfy_times) d.now,
  )

  photo_times-after : photo_times k (after cfg d alert key s).events ≡ (
      if key_eq key k && is_late cfg.ntfy_cooldown (last_photo k s) d.now
      then d.now ∷ photo_times k s.events
      else photo_times k s.events)
  unfolding after photo_times
  photo_times-after = photo_times-noticed

  last_photo-after : last_photo k (after cfg d alert key s) ≡ (
      if key_eq key k && is_late cfg.ntfy_cooldown (last_photo k s) d.now
      then d.now
      else last_photo k s)
  unfolding after noticed notify call
  last_photo-after = ground (
    arith,
    key_eq_iff key k,
    find-insert key k d.now s.last_ntfy_times,
    expired-is_late cfg.ntfy_cooldown (find_or key 0 s.last_ntfy_times) d.now,
  )

module _ (py : Python) (k : Key) (d : Delivery) (ds : List Delivery) where
  arrivals-accepted :
      {alert : Alert} {key : Key}
      → accepted py d ≡ ok (alert, key)
      → arrivals py k (d ∷ ds) ≡ times_if (key_eq key k) d.now (if_ok d.acked (arrivals py k ds))
  unfolding arrivals
  arrivals-accepted h = rw (h, arrivals)

  arrivals-acked :
      {alert : Alert} {key : Key}
      → accepted py d ≡ ok (alert, key)
      → d.acked ≡ ok tt
      → arrivals py k (d ∷ ds) ≡ times_if (key_eq key k) d.now (arrivals py k ds)
  arrivals-acked {key = key} h fine =
      arrivals-accepted h
      ∙ ap (λ r. times_if (key_eq key k) d.now (if_ok r (arrivals py k ds))) fine

  arrivals-unacked :
      {alert : Alert} {key : Key} {e : Error}
      → accepted py d ≡ ok (alert, key)
      → d.acked ≡ err e
      → arrivals py k (d ∷ ds) ≡ times_if (key_eq key k) d.now []
  arrivals-unacked {key = key} h lost =
      arrivals-accepted h
      ∙ ap (λ r. times_if (key_eq key k) d.now (if_ok r (arrivals py k ds))) lost

  arrivals-refused : {e : Error} → accepted py d ≡ err e → arrivals py k (d ∷ ds) ≡ []
  unfolding arrivals
  arrivals-refused h = rw (h, arrivals)

module _ (cfg : Config) (py : Python) (k : Key) where
  -- From any state: what the limiter lets through comes on top of what was there.
  photo_times-consume_from :
      (ds : List Delivery) (s : State)
      → photo_times k (consume cfg py ds s).1.events
        ≡ reverse_aux
            (limit cfg.ntfy_cooldown (last_photo k s) (arrivals py k ds))
            (photo_times k s.events)
  photo_times-consume_from [] s = unfold consume arrivals limit in refl
  photo_times-consume_from (d ∷ ds) s = elim (Result-cases (accepted py d)) [
    | inl (e, bad) ↦ elim (consume-refused cfg py d ds s bad) [
      | inl q ↦ rw (q, arrivals-refused py k d ds bad) (unfold limit in refl)
      | inr (a, q) ↦ rw (q, arrivals-refused py k d ds bad) (unfold photo_times limit in refl)
    ]
    | inr ((alert, key), good) ↦
        let passes = key_eq key k && is_late cfg.ntfy_cooldown (last_photo k s) d.now in
        elim (Result-cases d.acked) [
          | inl (e, lost) ↦
              rw
                (
                  consume-unacked cfg py d ds s good lost,
                  arrivals-unacked py k d ds good lost,
                  limit-times_if,
                )
                (photo_times-noticed cfg d alert key k s
                  ∙ (unfold limit in reverse_aux-times_if passes d.now [] (photo_times k s.events)))
          | inr (u, fine) ↦
              rw
                (
                  consume-accepted cfg py d ds s good fine,
                  arrivals-acked py k d ds good fine,
                  photo_times-consume_from ds (after cfg d alert key s),
                  limit-times_if,
                  last_photo-after cfg d alert key k s,
                  photo_times-after cfg d alert key k s,
                )
                (reverse_aux-times_if passes d.now
                  (limit cfg.ntfy_cooldown (if passes then d.now else last_photo k s)
                    (arrivals py k ds))
                  (photo_times k s.events))
        ]
  ]

  -- The photo threads that are started for a camera are those that a limiter with the camera's
  -- cooldown lets through, whatever the other cameras send.
  pub photo_times-consume :
      (ds : List Delivery)
      → photo_times k (consume cfg py ds init).1.events
        ≡ reverse (limit cfg.ntfy_cooldown 0 (arrivals py k ds))
  unfolding photo_times find
  photo_times-consume ds = photo_times-consume_from ds init

-- With a cooldown that is not negative, two photo threads for one camera are started more than the
-- cooldown apart, in the order of the clock, whatever messages come in and however the clock runs.
pub photo_times-IsSpaced :
    (cfg : Config) (py : Python) (k : Key) (ds : List Delivery) (c : ℕ)
    → cfg.ntfy_cooldown ≡ pos c
    → IsSpaced c (photo_times k (consume cfg py ds init).1.events)
photo_times-IsSpaced cfg py k ds c e =
    rw (photo_times-consume cfg py k ds, e)
      (reverse_aux-limit-IsSpaced c 0 (arrivals py k ds) [] tt tt)
