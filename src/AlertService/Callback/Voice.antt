-- ===== src/AlertService/Callback/Voice.antt =====
-- The cooldown of the voice calls, `last_call_time` of `callback`
-- (microservices/alert_service/alert_service.py), against one rate limiter for all cameras.
use mathlib.Core.List.{reverse, reverse_aux}
use intruder_watch.Base.{
  ℕ, ◌≡◌, refl, ◌&&◌, List, [], ◌∷◌, arith, if◌then◌else◌, inl, inr, map, ◌∙◌,
}
use intruder_watch.Base.Result.{ok, err, Result-cases}
use intruder_watch.Json.{Python}
use intruder_watch.Json.Key.{Key}
use intruder_watch.AlertService.Config.{Config, Alert}
use intruder_watch.AlertService.Callback.{
  State, init, notify, call, Delivery, consume, Event, call_thread,
}
use intruder_watch.AlertService.Callback.Limiter.{
  limit, times_if, reverse_aux-times_if, limit-times_if, is_late, expired-is_late,
}
use intruder_watch.AlertService.Callback.Outcome.{
  accepted, after, noticed, consume-accepted, consume-unacked, consume-refused, alerted,
  alerted-acked, alerted-unacked, alerted-refused,
}

-- The starts of the threads that place calls, the newest first.
unfoldable pub call_times : List Event → List ℕ
call_times [] = []
call_times (call_thread t ∷ es) = t ∷ call_times es
call_times (_ ∷ es) = call_times es

-- The times of the alerts that may place a call: none where the calls are switched off.
unfoldable pub call_arrivals : Config → Python → List Delivery → List ℕ
call_arrivals cfg py ds = if cfg.enable_call_alerts then map (λ d. d.now) (alerted py ds) else []

module _ (cfg : Config) (d : Delivery) (alert : Alert) (key : Key) (s : State) where
  call_times-noticed : call_times (noticed cfg d alert key s).events ≡ (
      if cfg.enable_call_alerts && is_late cfg.alert_cooldown s.last_call_time d.now
      then d.now ∷ call_times s.events
      else call_times s.events)
  unfolding noticed notify call call_times
  call_times-noticed = ground (arith, expired-is_late cfg.alert_cooldown s.last_call_time d.now)

  call_times-after : call_times (after cfg d alert key s).events ≡ (
      if cfg.enable_call_alerts && is_late cfg.alert_cooldown s.last_call_time d.now
      then d.now ∷ call_times s.events
      else call_times s.events)
  unfolding after call_times
  call_times-after = call_times-noticed

  last_call_time-after : (after cfg d alert key s).last_call_time ≡ (
      if cfg.enable_call_alerts && is_late cfg.alert_cooldown s.last_call_time d.now
      then d.now
      else s.last_call_time)
  unfolding after noticed notify call
  last_call_time-after = ground (arith, expired-is_late cfg.alert_cooldown s.last_call_time d.now)

module _ (cfg : Config) (py : Python) where
  call_arrivals-acked :
      (d : Delivery) (ds : List Delivery) {alert : Alert} {key : Key}
      → accepted py d ≡ ok (alert, key)
      → d.acked ≡ ok tt
      → call_arrivals cfg py (d ∷ ds)
        ≡ times_if cfg.enable_call_alerts d.now (call_arrivals cfg py ds)
  unfolding call_arrivals
  call_arrivals-acked d ds h fine =
      let e : alerted py (d ∷ ds) ≡ d ∷ alerted py ds = alerted-acked py d ds h fine in
      rw e (ground arith)

  call_arrivals-unacked :
      (d : Delivery) (ds : List Delivery) {alert : Alert} {key : Key} {e : _}
      → accepted py d ≡ ok (alert, key)
      → d.acked ≡ err e
      → call_arrivals cfg py (d ∷ ds) ≡ times_if cfg.enable_call_alerts d.now []
  unfolding call_arrivals
  call_arrivals-unacked d ds h lost =
      let e : alerted py (d ∷ ds) ≡ d ∷ [] = alerted-unacked py d ds h lost in rw e (ground arith)

  call_arrivals-refused :
      (d : Delivery) (ds : List Delivery) {e : _}
      → accepted py d ≡ err e
      → call_arrivals cfg py (d ∷ ds) ≡ []
  unfolding call_arrivals
  call_arrivals-refused d ds h = rw (alerted-refused py d ds h) (ground arith)

  call_times-consume_from :
      (ds : List Delivery) (s : State)
      → call_times (consume cfg py ds s).1.events
        ≡ reverse_aux
            (limit cfg.alert_cooldown s.last_call_time (call_arrivals cfg py ds))
            (call_times s.events)
  call_times-consume_from [] s = unfold consume call_arrivals alerted limit in ground arith
  call_times-consume_from (d ∷ ds) s = elim (Result-cases (accepted py d)) [
    | inl (e, bad) ↦ elim (consume-refused cfg py d ds s bad) [
      | inl q ↦ rw (q, call_arrivals-refused d ds bad) (unfold limit in refl)
      | inr (a, q) ↦ rw (q, call_arrivals-refused d ds bad) (unfold call_times limit in refl)
    ]
    | inr ((alert, key), good) ↦
        let passes = cfg.enable_call_alerts && is_late cfg.alert_cooldown s.last_call_time d.now in
        elim (Result-cases d.acked) [
          | inl (e, lost) ↦
              rw
                (
                  consume-unacked cfg py d ds s good lost,
                  call_arrivals-unacked d ds good lost,
                  limit-times_if,
                )
                (call_times-noticed cfg d alert key s
                  ∙ (unfold limit in reverse_aux-times_if passes d.now [] (call_times s.events)))
          | inr (u, fine) ↦
              rw
                (
                  consume-accepted cfg py d ds s good fine,
                  call_arrivals-acked d ds good fine,
                  call_times-consume_from ds (after cfg d alert key s),
                  limit-times_if,
                  last_call_time-after cfg d alert key s,
                  call_times-after cfg d alert key s,
                )
                (reverse_aux-times_if passes d.now
                  (limit cfg.alert_cooldown (if passes then d.now else s.last_call_time)
                    (call_arrivals cfg py ds))
                  (call_times s.events))
        ]
  ]

  -- The threads that place voice calls are those that one limiter lets through, over the alerts of
  -- all cameras; none where the calls are switched off.
  pub call_times-consume :
      (ds : List Delivery)
      → call_times (consume cfg py ds init).1.events
        ≡ reverse (limit cfg.alert_cooldown 0 (call_arrivals cfg py ds))
  unfolding call_times
  call_times-consume ds = call_times-consume_from ds init
