-- ===== src/Detector/Start/Life.antt =====
-- How the detector starts and ends (microservices/human_detector/human_detector.py).
use intruder_watch.Detector.Frames.{Config, Vision, deliver}
use intruder_watch.Detector.Start.{
  Outside, Service, last_of, instance_num, init_delay, prepare, start_consuming, set_ready,
  consume_frames, wsgi_app,
}
use intruder_watch.Base.Action.{
  Action, seq-ok, seq-err, catch-pure, lift, modify, pure, catch, ◌>>◌,
}
use mathlib.Core.Path.{subst}
use intruder_watch.Base.Counts.{Silent, Silent-bind}
use intruder_watch.Base.Result.{Error, Result, ok, err, Result-cases}
use intruder_watch.Base.Int.{ℤ, pos, ◌-ℤ◌, ◌*ℤ◌}
use intruder_watch.Json.{Python}
use intruder_watch.Str.{Text, split, codes, text_eq}
use intruder_watch.Str.Decimal.{show, parse_int-show, show-IsNumber, IsNumber-Lacks}
use intruder_watch.Str.Split.{split-append_any, split-Lacks}
use intruder_watch.Base.{
  ℕ, ◌+◌, ◌*◌, ◌≡◌, ◌∙◌, sym, ap, ◌⊎◌, inl, inr, refl, true, false, some, List, [], ◌∷◌, ◌++◌,
  arith,
}

module _ {Frame : Type 0} (cfg : Config) (py : Python) (vision : Vision Frame) (name : Text)
    (o : Outside) where
  prepare-Silent : Silent (λ s. s) (prepare cfg py vision name o)
  unfolding prepare
  prepare-Silent =
      Silent-bind (λ s. s) (lift (o.sleep (init_delay o.random name)))
        (λ u. lift o.load >> (lift o.connect >> lift o.basic_qos)) (λ s. refl)
        (λ u.
          Silent-bind (λ s. s) (lift o.load) (λ u. lift o.connect >> lift o.basic_qos) (λ s. refl)
            (λ u.
              Silent-bind (λ s. s) (lift o.connect) (λ u. lift o.basic_qos) (λ s. refl)
                (λ u s. refl)))

  -- What comes behind the preparation.
  abbrev ready_service : Action Service (Unit {0})
  ready_service =
      modify (set_ready true)
      >> (lift o.makedirs
          >> (catch (start_consuming cfg py vision name o) (λ e. pure tt)
              >> modify (set_ready false)))

  abbrev HasEnded : Service → Result (Unit {0}) × Service → Type 0
  HasEnded s (r, t) =
      ((r ≡ ok tt)
        × (t.frames ≡ deliver cfg py vision o.messages s.frames)
        × (wsgi_app (codes "/healthz") t ≡ some 503))
      ⊎ ((e : Error) × (r ≡ err e) × (t.frames ≡ s.frames))

  abbrev consuming : Action Service (Unit {0})
  consuming = catch (start_consuming cfg py vision name o) (λ e. pure tt)

  served :
      {u : Unit {0}} (s : Service)
      → o.makedirs ≡ ok u
      → ready_service s
        ≡ (ok tt, record { is_ready = false; frames = deliver cfg py vision o.messages s.frames })
  unfolding start_consuming
  served s made =
      let up = set_ready true s in
      seq-ok (lift o.makedirs) up (consuming >> modify (set_ready false)) (ap (λ r. (r, up)) made)
      ∙ seq-ok consuming up (modify (set_ready false))
          (catch-pure (start_consuming cfg py vision name o) up)

  ready_service-HasEnded : (s : Service) → HasEnded s (ready_service s)
  unfolding wsgi_app text_eq
  ready_service-HasEnded s = elim (Result-cases o.makedirs) [
    | inl (e, bad) ↦ rw bad (inr (e, refl, refl))
    | inr (u, made) ↦ subst (HasEnded s) (sym (served s made)) (inl (refl, refl, refl))
  ]

  consume_frames-HasEnded : (s : Service) → HasEnded s (consume_frames cfg py vision name o s)
  unfolding consume_frames
  consume_frames-HasEnded s = elim (Result-cases (prepare cfg py vision name o s).0) [
    | inl (e, bad) ↦
        subst (HasEnded s)
          (sym (
            seq-err (prepare cfg py vision name o) s ready_service
              (ap (λ r. (r, (prepare cfg py vision name o s).1)) bad)))
          (inr (e, refl, ap (λ t. t.frames) (prepare-Silent s)))
    | inr (u, good) ↦
        subst (HasEnded s)
          (sym (
            seq-ok (prepare cfg py vision name o) s ready_service (
              ap (λ r. (r, (prepare cfg py vision name o s).1)) good
              ∙ ap (λ t. (ok u, t)) (prepare-Silent s))))
          (ready_service-HasEnded s)
  ]

  -- Either the detector comes to its loop, processes the messages and returns, and answers
  -- `/healthz` by 503 again, whatever ended the loop; or it raises before it, and no message was
  -- processed.
  pub consume_frames-ends :
      (s : Service)
      → let (r, t) = consume_frames cfg py vision name o s in
        ((r ≡ ok tt)
          × (t.frames ≡ deliver cfg py vision o.messages s.frames)
          × (wsgi_app (codes "/healthz") t ≡ some 503))
        ⊎ ((e : Error) × (r ≡ err e) × (t.frames ≡ s.frames))
  consume_frames-ends s = consume_frames-HasEnded s

last_of-append : (ws : List Text) (w : Text) → last_of (ws ++ w ∷ []) ≡ w
last_of-append [] w = refl
last_of-append (v ∷ []) w = refl
last_of-append (v ∷ u ∷ ws) w = last_of-append (u ∷ ws) w

instance_num-numbered :
    (random : ℤ) (base : Text) (n : ℕ) → instance_num random (base ++ b'_' ∷ show n) ≡ pos n
unfolding instance_num
instance_num-numbered random base n =
    rw
      (
        split-append_any b'_' base (show n),
        split-Lacks b'_' (show n)
            (IsNumber-Lacks b'_' (show n) (inr (omega arith)) (show-IsNumber n)),
        last_of-append (split b'_' base) (show n),
        parse_int-show n,
        instance_num,
      )
      refl

-- An instance whose name ends in an underscore and its number, from 1 on, waits three seconds for
-- each number before its own.
pub init_delay-numbered :
    (random : ℤ) (base : Text) (n : ℕ)
    → init_delay random (base ++ b'_' ∷ show (n + 1)) ≡ pos (n * 3)
unfolding init_delay ◌-ℤ◌ ◌*ℤ◌
init_delay-numbered random base n = rw (instance_num-numbered random base (n + 1)) (ground arith)
