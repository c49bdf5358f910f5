-- ===== src/Monolith/Files.antt =====
-- Under which names frames are handed to `imwrite` (monolith/detect.py).
use intruder_watch.Base.Result.{Result-cases}
use intruder_watch.Monolith.{
  Config, Vision, Round, Event, called, alerted, named, written, State, emit, call_each, file_name,
  alert, save, react, watch, step, capture_stream, detect_human_mobilenet_ssd, init, is_active,
  is_due,
}
use intruder_watch.Base.Action.{Action, modify, lift, ◌>>=◌, ◌>>◌, when, pure}
use intruder_watch.Base.Keeps.{Keeps, Keeps-bind, Keeps-if}
use intruder_watch.Base.{
  ◌≡◌, refl, Option, none, some, List, [], ◌∷◌, sym, ◌∙◌, inl, inr, Bool, ◌&&◌,
}
use intruder_watch.Str.{Text, split}

-- The name that the last alert gave.
abbrev pub last_name : {Frame : Type 0} → List (Event Frame) → Option Text
last_name [] = none
last_name (named f ∷ es) = some f
last_name (_ ∷ es) = last_name es

-- Each frame was handed to `imwrite` under the name that the last alert before it gave.
abbrev pub IsFiled : {Frame : Type 0} → List (Event Frame) → Type 0
IsFiled [] = Unit
IsFiled (written f frame success ∷ es) = (last_name es ≡ some f) × IsFiled es
IsFiled (_ ∷ es) = IsFiled es

abbrev pub Files : {Frame : Type 0} → State Frame → Type 0
Files s = (s.filename ≡ last_name s.events) × IsFiled s.events

module _ {Frame : Type 0} (cfg : Config) (vision : Vision Frame) (r : Round Frame) where
  call_each-Files : (numbers : List Text) → Keeps Files (call_each r numbers)
  unfolding call_each
  call_each-Files [] s h = h
  call_each-Files (number ∷ numbers) s h =
      Keeps-bind Files (lift (r.call number))
        (λ u. modify (emit (called number)) >> call_each r numbers) (λ s h. h)
        (λ u s h. call_each-Files numbers (emit (called number) s) h) s h

  abbrev note : Unit {0} → Action (State Frame) (Unit {0})
  note u = modify (λ s. record s {
    filename = some (file_name cfg r);
    events = named (file_name cfg r) ∷ s.events;
  })

  alert-Files : Keeps Files (alert cfg r)
  unfolding alert
  alert-Files =
      Keeps-bind Files (call_each r (split b':' cfg.to_phone_numbers))
        (λ u.
          modify (λ s. record s { last_alert_time = r.now; events = alerted r.now ∷ s.events })
          >> (lift r.makedirs >>= note))
        (call_each-Files (split b':' cfg.to_phone_numbers))
        (λ u s h.
          Keeps-bind Files (lift r.makedirs) note (λ s h. h) (λ u s h. (refl, h.1))
            (record s { last_alert_time = r.now; events = alerted r.now ∷ s.events }) h)

  save-Files :
      (frame : Frame) (f : Option Text) (s : State Frame)
      → s.filename ≡ f
      → Files s
      → Files (save r frame f s).1
  unfolding save
  save-Files frame none s e h = h
  save-Files frame (some f) s e (a, b) = elim (Result-cases r.imwrite) [
    | inl (x, bad) ↦ rw bad (a, b)
    | inr (u, good) ↦ rw good (a, (sym a ∙ e, b))
  ]

  react-Files : (p : Bool × Frame) → Keeps Files (react cfg r p)
  unfolding react
  react-Files (detected, frame) s h =
      Keeps-bind Files (when (detected && is_due cfg r s) (alert cfg r))
        (λ u. when detected (λ t. save r frame t.filename t))
        (Keeps-if Files (detected && is_due cfg r s) (alert cfg r) (pure tt) alert-Files (λ s h. h))
        (λ u.
          Keeps-if Files detected (λ t. save r frame t.filename t) (pure tt)
            (λ t. save-Files frame t.filename t refl) (λ s h. h))
        s h

  watch-Files : (frame : Option Frame) → Keeps Files (watch cfg vision r frame)
  unfolding watch
  watch-Files none s h = h
  watch-Files (some frame) s h =
      Keeps-bind Files (lift (detect_human_mobilenet_ssd vision frame)) (react cfg r) (λ s h. h)
        react-Files s h

  step-Files : Keeps Files (step cfg vision r)
  unfolding step
  step-Files =
      Keeps-if Files (is_active r.hour cfg.start_time cfg.end_time) (watch cfg vision r r.frame)
        (pure tt) (watch-Files r.frame) (λ s h. h)

module _ {Frame : Type 0} (cfg : Config) (vision : Vision Frame) where
  capture_stream-Files : (rs : List (Round Frame)) → Keeps Files (capture_stream cfg vision rs)
  unfolding capture_stream
  capture_stream-Files [] s h = h
  capture_stream-Files (r ∷ rs) s h =
      Keeps-bind Files (step cfg vision r) (λ u. capture_stream cfg vision rs)
        (step-Files cfg vision r) (λ u s h. capture_stream-Files rs s h) s h

  -- Whatever the rounds meet, each frame is written under the name that the last alert before it
  -- gave: all frames between two alerts go to one file, and only the last of them stays.
  pub capture_stream-IsFiled :
      (rs : List (Round Frame)) → IsFiled (capture_stream cfg vision rs init).1.events
  capture_stream-IsFiled rs = (capture_stream-Files rs init (refl, tt)).1
