-- ===== src/Monolith/Alerts.antt =====
-- When the monolith calls, whom, and when it writes a frame (monolith/detect.py), against the
-- limiter that the alert service's cooldowns are held against.
use mathlib.Core.List.{reverse_aux, reverse}
use mathlib.Core.Path.{subst}
use intruder_watch.Monolith.{Config, Vision, Round, State, init, is_due, step, capture_stream}
use intruder_watch.Monolith.Reacts.{
  alert_times, writes, calls, dialed, is_sighting, sightings, step-ok,
}
use intruder_watch.AlertService.Callback.Limiter.{
  limit, is_late, times_if, limit-times_if, reverse_aux-times_if, IsSpaced,
  reverse_aux-limit-IsSpaced,
}
use intruder_watch.Base.Int.{pos}
use intruder_watch.Base.Counts.{one_if}
use intruder_watch.Base.{
  ℕ, ◌+◌, ◌≡◌, refl, ◌&&◌, Bool, true, false, List, [], ◌∷◌, if◌then◌else◌, length, arith, ap, sym,
  ◌∙◌,
}
use intruder_watch.Base.Action.{bind-returns}
use intruder_watch.Base.Result.{ok}
use intruder_watch.Str.{Text, split}

module _ {Frame : Type 0} (cfg : Config) (vision : Vision Frame) where
  abbrev numbers : List Text
  numbers = split b':' cfg.to_phone_numbers

  length-times_if :
      (b : Bool) (t : ℕ) (ts : List ℕ) → length (times_if b t ts) ≡ one_if b + length ts
  length-times_if true t ts = omega arith
  length-times_if false t ts = omega arith

  -- From any state: what the limiter lets through comes on top of what was there.
  capture_stream-alerts_from :
      (rs : List (Round Frame)) (s t : State Frame)
      → capture_stream cfg vision rs s ≡ (ok tt, t)
      → (alert_times t.events
          ≡ reverse_aux
              (limit (pos cfg.alert_cooldown) s.last_alert_time (sightings cfg vision rs))
              (alert_times s.events))
        × (writes t.events ≡ writes s.events + length (sightings cfg vision rs))
  unfolding capture_stream
  capture_stream-alerts_from [] s t h =
      unfold limit in
      (ap (λ p. alert_times p.1.events) (sym h), ap (λ p. writes p.1.events) (sym h) ∙ omega arith)
  capture_stream-alerts_from (r ∷ rs) s t h =
      let (u, s1, h1, k1) =
        bind-returns (step cfg vision r) (λ u. capture_stream cfg vision rs) s h in
      let (l, a, n, c) = step-ok cfg vision r s s1 h1 in
      let (more, count) = capture_stream-alerts_from rs s1 t k1 in
      let e : is_due cfg r s ≡ is_late (pos cfg.alert_cooldown) s.last_alert_time r.now =
        unfold is_due is_late in refl in
      let passes =
        is_sighting cfg vision r && is_late (pos cfg.alert_cooldown) s.last_alert_time r.now in
      (
        rw (more, l, a, e, limit-times_if)
            (reverse_aux-times_if passes r.now
              (limit (pos cfg.alert_cooldown) (if passes then r.now else s.last_alert_time)
                (sightings cfg vision rs))
              (alert_times s.events)),
        omega (arith, length-times_if (is_sighting cfg vision r) r.now (sightings cfg vision rs)),
      )

  dialed_if :
      (b : Bool) (t : ℕ) (ts : List ℕ) (made : List Text)
      → made ≡ dialed numbers ts
      → (if b then reverse_aux numbers made else made) ≡ dialed numbers (if b then t ∷ ts else ts)
  dialed_if true t ts made h = ap (reverse_aux numbers) h
  dialed_if false t ts made h = h

  -- Every alert stands behind one round of calls.
  capture_stream-dialed :
      (rs : List (Round Frame)) (s t : State Frame)
      → calls s.events ≡ dialed numbers (alert_times s.events)
      → capture_stream cfg vision rs s ≡ (ok tt, t)
      → calls t.events ≡ dialed numbers (alert_times t.events)
  unfolding capture_stream
  capture_stream-dialed [] s t d h =
      subst (λ (x : State Frame). calls x.events ≡ dialed numbers (alert_times x.events))
        (ap (λ p. p.1) h) d
  capture_stream-dialed (r ∷ rs) s t d h =
      let (u, s1, h1, k1) =
        bind-returns (step cfg vision r) (λ u. capture_stream cfg vision rs) s h in
      let (l, a, n, c) = step-ok cfg vision r s s1 h1 in
      let passes = is_sighting cfg vision r && is_due cfg r s in
      capture_stream-dialed rs s1 t
        (c
          ∙ dialed_if passes r.now (alert_times s.events) (calls s.events) d
          ∙ ap (dialed numbers) (sym a))
        k1

  -- Where no round raises: the times of the alerts are those that a limiter with the cooldown lets
  -- through of the times at which somebody was seen, they lie more than the cooldown apart, for each
  -- of them all numbers are called, in their order, and no others, and `imwrite` is called each time
  -- that somebody was seen.
  pub capture_stream-alerts :
      (rs : List (Round Frame)) (t : State Frame)
      → capture_stream cfg vision rs init ≡ (ok tt, t)
      → (alert_times t.events
          ≡ reverse (limit (pos cfg.alert_cooldown) 0 (sightings cfg vision rs)))
        × IsSpaced cfg.alert_cooldown (alert_times t.events)
        × (calls t.events ≡ dialed (split b':' cfg.to_phone_numbers) (alert_times t.events))
        × (writes t.events ≡ length (sightings cfg vision rs))
  capture_stream-alerts rs t h =
      let (a, n) = capture_stream-alerts_from rs init t h in
      (
        a,
        rw a (reverse_aux-limit-IsSpaced cfg.alert_cooldown 0 (sightings cfg vision rs) [] tt tt),
        capture_stream-dialed rs init t refl h,
        n ∙ omega arith,
      )
