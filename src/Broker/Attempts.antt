-- ===== src/Broker/Attempts.antt =====
-- How often `connect_rabbitmq` tries and sleeps (microservices/shared/rabbitmq_client.py).
use intruder_watch.Broker.{
  Event, Attempt, attempts, tried, refused, slept, connected, connect_rabbitmq,
}
use intruder_watch.Base.Result.{ok, err, connection_error}
use intruder_watch.Base.{
  [], zero, suc, List, ℕ, ◌∷◌, ◌≡◌, ◌+◌, ◌≤◌, ◌<◌, ◌-◌, arith, ltb, refl, true, false, ap, ◌∙◌,
}

abbrev pub tries : List Event → ℕ
tries [] = 0
tries (tried n ∷ es) = suc (tries es)
tries (slept n ∷ es) = tries es

abbrev pub sleeps : List Event → ℕ
sleeps [] = 0
sleeps (tried n ∷ es) = sleeps es
sleeps (slept n ∷ es) = suc (sleeps es)

-- The attempts from this number on, as many as given, are refused.
abbrev pub RefusedFrom : (ℕ → Attempt) → ℕ → ℕ → Type 0
RefusedFrom outcome first zero = Unit
RefusedFrom outcome first (suc n) = (outcome first ≡ refused) × RefusedFrom outcome (first + 1) n

module _ (outcome : ℕ → Attempt) (retries delay : ℕ) where
  attempts-connected :
      (before rounds first : ℕ) (es : List Event)
      → before < rounds
      → RefusedFrom outcome first before
      → outcome (first + before) ≡ connected
      → first + before ≤ retries
      → let (r, es') = attempts outcome retries delay rounds first es in
        (r ≡ ok (first + before))
        × (tries es' ≡ tries es + before + 1)
        × (sleeps es' ≡ sleeps es + before)
  unfolding attempts
  attempts-connected before zero first es h refusals c k = absurd (omega arith)
  attempts-connected zero (suc rounds) first es h refusals c k =
      let here : outcome first ≡ connected = ap outcome (omega arith) ∙ c in
      rw here (ap ok (omega arith), omega arith, omega arith)
  attempts-connected (suc before) (suc rounds) first es h (r, refusals) c k =
      let e : first + 1 + before ≡ first + suc before = omega arith in
      let more : ltb first retries ≡ true = ground arith in
      let (result, t, sl) =
        attempts-connected before rounds (first + 1) (slept delay ∷ tried first ∷ es) (omega arith)
          refusals (ap outcome e ∙ c) (omega arith) in
      rw (r, more) (result ∙ ap ok e, t ∙ omega arith, sl ∙ omega arith)

  attempts-refused :
      (left first : ℕ) (es : List Event)
      → RefusedFrom outcome first left
      → first + left ≡ retries + 1
      → let (r, es') = attempts outcome retries delay left first es in
        (r ≡ err connection_error)
        × (tries es' ≡ tries es + left)
        × (sleeps es' ≡ sleeps es + (left - 1))
  unfolding attempts
  attempts-refused zero first es refusals h = (refl, omega arith, omega arith)
  attempts-refused (suc zero) first es (r, refusals) h =
      let last : ltb first retries ≡ false = ground arith in
      rw (r, last) (refl, omega arith, omega arith)
  attempts-refused (suc (suc left)) first es (r, refusals) h =
      let more : ltb first retries ≡ true = ground arith in
      let (result, t, sl) =
        attempts-refused (suc left) (first + 1) (slept delay ∷ tried first ∷ es) refusals
          (omega arith) in
      rw (r, more) (result, t ∙ omega arith, sl ∙ omega arith)

  -- Where a number of attempts are refused and the next one connects, all of them within the
  -- retries, that next one is the last that is tried, behind one sleep for each refusal.
  pub connect_rabbitmq-connected :
      (before : ℕ)
      → before < retries
      → RefusedFrom outcome 1 before
      → outcome (1 + before) ≡ connected
      → let (r, es) = connect_rabbitmq outcome retries delay [] in
        (r ≡ ok (1 + before)) × (tries es ≡ before + 1) × (sleeps es ≡ before)
  unfolding connect_rabbitmq
  connect_rabbitmq-connected before h refusals c =
      let (result, t, sl) = attempts-connected before retries 1 [] h refusals c (omega arith) in
      (result, t ∙ omega arith, sl ∙ omega arith)

  -- Where every attempt within the retries is refused, the last refusal is raised, behind as many
  -- attempts as there are retries, with one sleep between each two.
  pub connect_rabbitmq-refused :
      RefusedFrom outcome 1 retries
      → let (r, es) = connect_rabbitmq outcome retries delay [] in
        (r ≡ err connection_error) × (tries es ≡ retries) × (sleeps es ≡ retries - 1)
  unfolding connect_rabbitmq
  connect_rabbitmq-refused refusals =
      let (result, t, sl) = attempts-refused retries 1 [] refusals (omega arith) in
      (result, t ∙ omega arith, sl ∙ omega arith)
