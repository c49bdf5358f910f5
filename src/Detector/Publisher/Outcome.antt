-- ===== src/Detector/Publisher/Outcome.antt =====
-- Which alerts are published, and that every task is done
-- (microservices/human_detector/human_detector.py).
use mathlib.Core.Path.{subst}
use intruder_watch.Base.Result.{ok, err, Error}
use intruder_watch.Base.{
  [], true, false, suc, List, ℕ, ◌≡◌, arith, ◌+◌, ◌⊎◌, inl, inr, refl, Bool-cases, zero, sym,
}
use intruder_watch.Detector.Publisher.{
  Rabbit, Event, State, emit, reset_channel, ensure_channel, try_publish, publish_attempts,
  publish_with_retry, process, made_dirs, wrote_image, connected, published, closed_channel,
  closed_connection, slept, task_done, close_if, recover, drop_channel, drop_connection, forget,
  save_and_publish,
}
use intruder_watch.Base.{
  ℕ, [], ◌∷◌, List, suc, zero, ◌≡◌, ◌+◌, ◌≤◌, ◌⊎◌, true, false, arith, inl, inr, refl, Bool, ltb,
  not, ◌||◌, ◌&&◌, ap, ◌∙◌,
}
use intruder_watch.Base.Result.{Error, Result, ok, err, Result-cases}
use intruder_watch.Base.Action.{
  ◌>>◌, seq-ok, catch, pure, catch-err, when, modify, catch-ok, seq-pure, catch-pure,
}

-- How often an alert was published, and how many tasks were done.
abbrev pub publications : List Event → ℕ
publications [] = 0
publications (published ∷ es) = suc (publications es)
publications (_ ∷ es) = publications es

abbrev pub dones : List Event → ℕ
dones [] = 0
dones (task_done ∷ es) = suc (dones es)
dones (_ ∷ es) = dones es

close_if-events :
    (b : Bool) (answer : Result (Unit {0})) (e : Event) (s : State)
    → ((es : List Event) → (publications (e ∷ es) ≡ publications es) × (dones (e ∷ es) ≡ dones es))
    → (es : List Event) × (close_if b answer e s ≡ (ok tt, record s { events = es }))
      × (publications es ≡ publications s.events)
      × (dones es ≡ dones s.events)
unfolding close_if
close_if-events false answer e s h = (s.events, refl, refl, refl)
close_if-events true (ok u) e s h = (e ∷ s.events, refl, (h s.events).0, (h s.events).1)
close_if-events true (err x) e s h = (s.events, refl, refl, refl)

-- What the attempts that are left come to.
abbrev pub Outcome : Result Bool × State → ℕ → ℕ → Type 0
Outcome (r, s') p d =
    (((r ≡ ok true) × (s'.channel ≡ true) × (publications s'.events ≡ p + 1))
      ⊎ ((r ≡ ok false) × (publications s'.events ≡ p)))
    × (dones s'.events ≡ d)

-- No task is done, and at most one alert is published.
abbrev pub Counts : State → State → Type 0
Counts s s' =
    (dones s'.events ≡ dones s.events)
    × (publications s.events ≤ publications s'.events)
    × (publications s'.events ≤ publications s.events + 1)

module _ (rabbit : Rabbit) where
  recover-events :
      (retries attempt : ℕ) (s : State)
      → (es : List Event) × (recover rabbit retries attempt s
          ≡ (ok tt, record { connection = false; channel = false; events = es }))
        × (publications es ≡ publications s.events)
        × (dones es ≡ dones s.events)
  unfolding recover reset_channel drop_channel drop_connection
  recover-events retries attempt s =
      let (es, e, p, d) =
        close_if-events (s.channel && not (rabbit.channel_is_closed attempt))
          (rabbit.close_channel attempt) closed_channel s (λ es. (refl, refl)) in
      let (es', e', p', d') =
        close_if-events (s.connection && not (rabbit.connection_is_closed attempt))
          (rabbit.close_connection attempt) closed_connection (record s { events = es })
          (λ es. (refl, refl)) in
      let reset : reset_channel rabbit attempt s
          ≡ (ok tt, record { connection = false; channel = false; events = es' }) =
        seq-ok (drop_channel rabbit attempt) s (drop_connection rabbit attempt >> forget rabbit) e
        ∙ seq-ok (drop_connection rabbit attempt) (record s { events = es }) (forget rabbit) e' in
      let wait = when (ltb attempt retries) (modify (emit slept)) in
      elim (Bool-cases (ltb attempt retries)) [
        | inl more ↦ (
          slept ∷ es',
          seq-ok (reset_channel rabbit attempt) s wait reset ∙ rw more refl,
          p' ∙ p,
          d' ∙ d,
        )
        | inr last ↦
            (es', seq-ok (reset_channel rabbit attempt) s wait reset ∙ rw last refl, p' ∙ p, d' ∙ d)
      ]

  missing : ℕ → State → Bool
  missing attempt s =
      not s.connection
      || rabbit.connection_is_closed attempt
      || not s.channel
      || rabbit.channel_is_closed attempt

  try_publish-cases :
      (attempt : ℕ) (s : State)
      → ((es : List Event) × (try_publish rabbit attempt s
            ≡ (ok true, record { connection = true; channel = true; events = es }))
          × (publications es ≡ publications s.events + 1)
          × (dones es ≡ dones s.events))
        ⊎ ((e : Error) × (s' : State) × (try_publish rabbit attempt s ≡ (err e, s'))
            × (publications s'.events ≡ publications s.events)
            × (dones s'.events ≡ dones s.events))
  unfolding try_publish ensure_channel missing
  try_publish-cases attempt s = elim (Bool-cases (missing attempt s)) [
    | inl m ↦ elim (Result-cases (rabbit.connect_rabbitmq attempt)) [
      | inl (e, bad) ↦ inr (e, s, ground arith, refl, refl)
      | inr (_, good) ↦ elim (Result-cases (rabbit.basic_publish attempt)) [
        | inl (e, bad) ↦ inr (
          e,
          record { connection = true; channel = true; events = connected ∷ s.events },
          ground arith,
          refl,
          refl,
        )
        | inr (_, sent) ↦ inl (published ∷ connected ∷ s.events, ground arith, omega arith, refl)
      ]
    ]
    | inr m ↦ elim (Result-cases (rabbit.basic_publish attempt)) [
      | inl (e, bad) ↦ inr (e, s, ground arith, refl, refl)
      | inr (_, sent) ↦ inl (published ∷ s.events, ground arith, omega arith, refl)
    ]
  ]

  publish_attempts-Outcome :
      (retries left attempt : ℕ) (s : State)
      → Outcome
          (publish_attempts rabbit retries left attempt s)
          (publications s.events)
          (dones s.events)
  unfolding publish_attempts
  publish_attempts-Outcome retries zero attempt s = (inr (refl, refl), refl)
  publish_attempts-Outcome retries (suc left) attempt s =
      let retry = publish_attempts rabbit retries left (attempt + 1) in
      let handler = λ (e : Error). recover rabbit retries attempt >> retry in
      elim (try_publish-cases attempt s) [
        | inl (es, e, p, d) ↦
            subst (λ x. Outcome x (publications s.events) (dones s.events))
              (sym (catch-ok (try_publish rabbit attempt) handler s e)) (inl (refl, refl, p), d)
        | inr (x, s', e, p, d) ↦
            let (es, again, p', d') = recover-events retries attempt s' in
            let (r, ds) =
              publish_attempts-Outcome retries left (attempt + 1)
                (record { connection = false; channel = false; events = es }) in
            subst (λ x. Outcome x (publications s.events) (dones s.events))
              (sym (
                catch-err (try_publish rabbit attempt) handler s e
                ∙ seq-ok (recover rabbit retries attempt) s' retry again))
              (
                elim r [
                  | inl (a, b, c) ↦ inl (a, b, c ∙ ap (λ n. n + 1) (p' ∙ p))
                  | inr (a, c) ↦ inr (a, c ∙ p' ∙ p)
                ],
                ds ∙ d' ∙ d,
              )
      ]

  -- The publisher never raises where the alert can be written as JSON. It returns True exactly if
  -- it published the alert once and then holds a channel, and False exactly if it did not publish it.
  pub publish_with_retry-Outcome :
      (body : List ℕ) (retries : ℕ) (s : State)
      → Outcome
          (publish_with_retry rabbit (ok body) retries s)
          (publications s.events)
          (dones s.events)
  unfolding publish_with_retry
  publish_with_retry-Outcome body retries s = publish_attempts-Outcome retries retries 1 s

  publish_with_retry-Counts :
      (body : List ℕ) (s : State) → Counts s (publish_with_retry rabbit (ok body) 3 s).1
  publish_with_retry-Counts body s =
      let (r, d) = publish_with_retry-Outcome body 3 s in
      elim r [
        | inl (a, b, c) ↦ (d, omega arith, omega arith)
        | inr (a, c) ↦ (d, omega arith, omega arith)
      ]

  save_and_publish-Counts :
      (makedirs : Result (Unit {0})) (imwrite : Result Bool) (body : Result (List ℕ)) (s : State)
      → Counts s (save_and_publish rabbit makedirs imwrite body s).1
  unfolding save_and_publish
  save_and_publish-Counts (err e) imwrite body s = (refl, omega arith, omega arith)
  save_and_publish-Counts (ok u) (err e) body s = (refl, omega arith, omega arith)
  save_and_publish-Counts (ok u) (ok true) (err e) s =
      unfold publish_with_retry in (refl, omega arith, omega arith)
  save_and_publish-Counts (ok u) (ok false) (err e) s =
      unfold publish_with_retry in (refl, omega arith, omega arith)
  save_and_publish-Counts (ok u) (ok true) (ok body) s =
      let before = emit wrote_image (emit made_dirs s) in
      subst (Counts s) (sym (seq-pure (publish_with_retry rabbit (ok body) 3) before))
        (publish_with_retry-Counts body before)
  save_and_publish-Counts (ok u) (ok false) (ok body) s =
      let before = emit made_dirs s in
      subst (Counts s) (sym (seq-pure (publish_with_retry rabbit (ok body) 3) before))
        (publish_with_retry-Counts body before)

  -- Whatever the calls of the worker end with, a round returns, marks exactly one task as done, and
  -- publishes the alert at most once.
  pub process-dones :
      (makedirs : Result (Unit {0})) (imwrite : Result Bool) (body : Result (List ℕ)) (s : State)
      → let (r, s') = process rabbit makedirs imwrite body s in
        (r ≡ ok tt)
        × (dones s'.events ≡ dones s.events + 1)
        × (publications s'.events ≤ publications s.events + 1)
  unfolding process
  process-dones makedirs imwrite body s =
      let m = save_and_publish rabbit makedirs imwrite body in
      let (d, lo, hi) = save_and_publish-Counts makedirs imwrite body s in
      let e = seq-ok (catch m (λ x. pure tt)) s (modify (emit task_done)) (catch-pure m s) in
      subst
        (λ x.
          (x.0 ≡ ok tt)
          × (dones x.1.events ≡ dones s.events + 1)
          × (publications x.1.events ≤ publications s.events + 1))
        (sym e) (refl, omega arith, hi)
