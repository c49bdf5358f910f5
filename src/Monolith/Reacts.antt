-- ===== src/Monolith/Reacts.antt =====
-- What one round of the monolith (monolith/detect.py) that returns does: when and whom it calls, and
-- whether it writes a frame.
use mathlib.Core.Path.{subst}
use mathlib.Core.List.{reverse_aux}
use intruder_watch.AlertService.Callback.Limiter.{times_if}
use intruder_watch.Monolith.{
  Config, Vision, Round, Event, called, alerted, named, written, State, emit, is_active, call_each,
  is_due, file_name, alert, save, react, watch, step, detect_human_mobilenet_ssd,
}
use intruder_watch.Base.Action.{modify, lift, when, ◌>>=◌, ◌>>◌, bind-returns}
use intruder_watch.Base.Result.{Result, ok, err}
use intruder_watch.Base.Counts.{one_if}
use intruder_watch.Base.{
  ℕ, suc, ◌+◌, ◌≡◌, ◌&&◌, Bool, true, false, Option, none, some, List, [], ◌∷◌, if◌then◌else◌,
  Bool-cases, inl, inr, arith, ap, sym, ◌∙◌,
}
use intruder_watch.Str.{Text, split}

-- The times of the alerts, the newest first, and the number of calls of `imwrite`.
abbrev pub alert_times : {Frame : Type 0} → List (Event Frame) → List ℕ
alert_times [] = []
alert_times (alerted t ∷ es) = t ∷ alert_times es
alert_times (_ ∷ es) = alert_times es

abbrev pub writes : {Frame : Type 0} → List (Event Frame) → ℕ
writes [] = 0
writes (written f frame success ∷ es) = suc (writes es)
writes (_ ∷ es) = writes es

-- The numbers that were called, the newest first.
abbrev pub calls : {Frame : Type 0} → List (Event Frame) → List Text
calls [] = []
calls (called number ∷ es) = number ∷ calls es
calls (_ ∷ es) = calls es

-- All numbers in their order, once for each of some alerts, the newest first.
abbrev pub dialed : List Text → List ℕ → List Text
dialed numbers [] = []
dialed numbers (t ∷ ts) = reverse_aux numbers (dialed numbers ts)

module _ {Frame : Type 0} (cfg : Config) (vision : Vision Frame) where
  abbrev pub is_seen : Result (Bool × Frame) → Bool
  is_seen (ok (detected, frame)) = detected
  is_seen (err e) = false

  abbrev pub seen_in : Option Frame → Bool
  seen_in none = false
  seen_in (some frame) = is_seen (detect_human_mobilenet_ssd vision frame)

  -- Whether somebody is in the frame of an active round.
  abbrev pub is_sighting : Round Frame → Bool
  is_sighting r = is_active r.hour cfg.start_time cfg.end_time && seen_in r.frame

  abbrev pub sightings : List (Round Frame) → List ℕ
  sightings [] = []
  sightings (r ∷ rs) = times_if (is_sighting r) r.now (sightings rs)

  abbrev numbers : List Text
  numbers = split b':' cfg.to_phone_numbers

  abbrev Marks : Type 0
  Marks = ℕ × List ℕ × ℕ × List Text

  abbrev pub view : State Frame → Marks
  view s = (s.last_alert_time, alert_times s.events, writes s.events, calls s.events)

  -- Where no call raises, each number is called.
  call_each-ok :
      (r : Round Frame) (ns : List Text) (s t : State Frame)
      → call_each r ns s ≡ (ok tt, t)
      → view t ≡ (
        s.last_alert_time,
        alert_times s.events,
        writes s.events,
        reverse_aux ns (calls s.events),
      )
  unfolding call_each
  call_each-ok r [] s t h = ap (λ p. view p.1) (sym h)
  call_each-ok r (n ∷ ns) s t h =
      let rest = λ (u : Unit {0}). modify (emit (called n)) >> call_each r ns in
      let (u, s1, h1, k1) = bind-returns (lift (r.call n)) rest s h in
      call_each-ok r ns (emit (called n) s1) t k1
      ∙ ap (λ p. (p.0, p.1, p.2, reverse_aux ns (n ∷ p.3))) (ap (λ p. view p.1) (sym h1))

  alert-ok :
      (r : Round Frame) (s t : State Frame)
      → alert cfg r s ≡ (ok tt, t)
      → view t ≡ (
        r.now,
        r.now ∷ alert_times s.events,
        writes s.events,
        reverse_aux numbers (calls s.events),
      )
  unfolding alert
  alert-ok r s t h =
      let noted = λ (u : Unit {0}). modify (λ (s : State Frame). record s {
        filename = some (file_name cfg r);
        events = named (file_name cfg r) ∷ s.events;
      }) in
      let later = λ (u : Unit {0}).
        modify (λ (s : State Frame). record s {
          last_alert_time = r.now;
          events = alerted r.now ∷ s.events;
        })
        >> (lift r.makedirs >>= noted) in
      let (u, s1, h1, k1) = bind-returns (call_each r numbers) later s h in
      let made = call_each-ok r numbers s s1 h1 in
      let marked = record s1 { last_alert_time = r.now; events = alerted r.now ∷ s1.events } in
      let (v, s2, h2, k2) = bind-returns (lift r.makedirs) noted marked k1 in
      ap (λ p. view p.1) (sym k2)
      ∙ ap (λ p. view p.1) (sym h2)
      ∙ ap (λ (p : Marks). (r.now, r.now ∷ p.1, p.2, p.3)) made

  save-ok :
      (r : Round Frame) (frame : Frame) (f : Option Text) (s t : State Frame)
      → save r frame f s ≡ (ok tt, t)
      → view t ≡ (s.last_alert_time, alert_times s.events, suc (writes s.events), calls s.events)
  unfolding save
  save-ok r frame none s t h = cc
  save-ok r frame (some f) s t h =
      let (u, s1, h1, k1) =
        bind-returns (lift r.imwrite) (λ success. modify (emit (written f frame success))) s h in
      ap (λ p. view p.1) (sym k1) ∙ ap (λ p. view (emit (written f frame u) p.1)) (sym h1)

  -- What a round that returns has done to the view, by whether somebody was seen.
  abbrev pub Reacts : Round Frame → Bool → State Frame → State Frame → Type 0
  Reacts r seen s t =
      (t.last_alert_time ≡ (if seen && is_due cfg r s then r.now else s.last_alert_time))
      × (alert_times t.events
          ≡ (if seen && is_due cfg r s then r.now ∷ alert_times s.events else alert_times s.events))
      × (writes t.events ≡ writes s.events + one_if seen)
      × (calls t.events ≡ (
          if seen && is_due cfg r s then reverse_aux numbers (calls s.events) else calls s.events))

  react-ok :
      (r : Round Frame) (seen : Bool) (frame : Frame) (s t : State Frame)
      → react cfg r (seen, frame) s ≡ (ok tt, t)
      → Reacts r seen s t
  unfolding react
  react-ok r false frame s t h =
      let e : view t ≡ view s = ap (λ p. view p.1) (sym h) in
      (ap (λ p. p.0) e, ap (λ p. p.1) e, ap (λ p. p.2) e ∙ omega arith, ap (λ p. p.3) e)
  react-ok r true frame s t h =
      let write = λ (u : Unit {0}) (t : State Frame). save r frame t.filename t in
      let (u, s1, h1, k1) = bind-returns (when (is_due cfg r s) (alert cfg r)) write s h in
      let e = save-ok r frame s1.filename s1 t k1 in
      let e0 : t.last_alert_time ≡ s1.last_alert_time = ap (λ p. p.0) e in
      let e1 : alert_times t.events ≡ alert_times s1.events = ap (λ p. p.1) e in
      let e2 : writes t.events ≡ suc (writes s1.events) = ap (λ p. p.2) e in
      let e3 : calls t.events ≡ calls s1.events = ap (λ p. p.3) e in
      elim (Bool-cases (is_due cfg r s)) [
        | inl due ↦
            let k = alert-ok r s s1 (rw due at h1) in
            let k2 : writes s1.events ≡ writes s.events = ap (λ p. p.2) k in
            rw due (e0 ∙ ap (λ p. p.0) k, e1 ∙ ap (λ p. p.1) k, omega arith, e3 ∙ ap (λ p. p.3) k)
        | inr early ↦
            let k : view s1 ≡ view s = ap (λ p. view p.1) (sym (rw early at h1)) in
            let k2 : writes s1.events ≡ writes s.events = ap (λ p. p.2) k in
            rw early (e0 ∙ ap (λ p. p.0) k, e1 ∙ ap (λ p. p.1) k, omega arith, e3 ∙ ap (λ p. p.3) k)
      ]

  unseen : (r : Round Frame) (s t : State Frame) → view t ≡ view s → Reacts r false s t
  unseen r s t e =
      (ap (λ p. p.0) e, ap (λ p. p.1) e, ap (λ p. p.2) e ∙ omega arith, ap (λ p. p.3) e)

  watch-ok :
      (r : Round Frame) (f : Option Frame) (s t : State Frame)
      → watch cfg vision r f s ≡ (ok tt, t)
      → Reacts r (seen_in f) s t
  unfolding watch
  watch-ok r none s t h = unseen r s t (ap (λ p. view p.1) (sym h))
  watch-ok r (some frame) s t h =
      let (p, s1, h1, k1) =
        bind-returns (lift (detect_human_mobilenet_ssd vision frame)) (react cfg r) s h in
      let k : react cfg r p s ≡ (ok tt, t) =
        subst (λ x. react cfg r p x ≡ (ok tt, t)) (sym (ap (λ x. x.1) h1)) k1 in
      subst (λ b. Reacts r b s t) (sym (ap (λ x. is_seen x.0) h1)) (react-ok r p.0 p.1 s t k)

  pub step-ok :
      (r : Round Frame) (s t : State Frame)
      → step cfg vision r s ≡ (ok tt, t)
      → Reacts r (is_sighting r) s t
  unfolding step
  step-ok r s t h = elim (Bool-cases (is_active r.hour cfg.start_time cfg.end_time)) [
    | inl active ↦ rw active (watch-ok r r.frame s t (rw active at h))
    | inr idle ↦ rw idle (unseen r s t (ap (λ p. view p.1) (sym (rw idle at h))))
  ]
