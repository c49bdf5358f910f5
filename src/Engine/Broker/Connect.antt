-- ===== src/Engine/Broker/Connect.antt =====
-- What `Connect` leaves open (microservices/frame_capturer/broker.go).
use intruder_watch.Engine.Broker.{
  Answers, Broker, is_good, failed_attempt, keep, sleep, attempts, connect,
}
use intruder_watch.Base.Counts.{one_if}
use intruder_watch.Base.{
  ℕ, zero, suc, ◌+◌, ◌≡◌, refl, Bool, false, ◌||◌, inl, inr, Bool-cases, arith, if◌then◌else◌,
}

module _ (answers : ℕ → Answers) where
  -- How many attempts fail before the first that succeeds, of those that are left.
  abbrev pub failures : ℕ → ℕ → ℕ
  failures zero attempt = 0
  failures (suc left) attempt =
      let rest = failures left (attempt + 1) in if is_good (answers attempt) then 0 else rest + 1

  abbrev pub any_good : ℕ → ℕ → Bool
  any_good zero attempt = false
  any_good (suc left) attempt =
      let rest = any_good left (attempt + 1) in is_good (answers attempt) || rest

  abbrev pub IsClean : Broker → Bool × Broker → ℕ → ℕ → Type 0
  IsClean b (good, c) left attempt =
      (good ≡ any_good left attempt)
      × (c.sleeps ≡ b.sleeps + failures left attempt)
      × (c.conns_opened + b.conns_closed ≡ b.conns_opened + c.conns_closed + one_if good)
      × (c.chs_opened + b.chs_closed ≡ b.chs_opened + c.chs_closed + one_if good)

  failed_attempt-lem :
      (a : Answers) (b : Broker)
      → let c = failed_attempt a b in
        (c.conns_opened + b.conns_closed ≡ b.conns_opened + c.conns_closed)
        × (c.chs_opened + b.chs_closed ≡ b.chs_opened + c.chs_closed)
        × (c.sleeps ≡ b.sleeps)
  unfolding failed_attempt
  failed_attempt-lem a b = elim (Bool-cases a.dial) [
    | inr e ↦ rw e (omega arith, omega arith, refl)
    | inl e ↦ elim (Bool-cases a.channel) [
      | inl f ↦ rw (e, f) (omega arith, omega arith, refl)
      | inr f ↦ rw (e, f) (omega arith, omega arith, refl)
    ]
  ]

  attempts-IsClean :
      (left attempt : ℕ) (b : Broker) → IsClean b (attempts answers left attempt b) left attempt
  unfolding attempts keep
  attempts-IsClean zero attempt b = (refl, omega arith, omega arith, omega arith)
  attempts-IsClean (suc left) attempt b =
      let (x, y, z) = failed_attempt-lem (answers attempt) b in
      let (good, slept, conns, chs) =
        attempts-IsClean left (attempt + 1) (sleep (failed_attempt (answers attempt) b)) in
      elim (Bool-cases (is_good (answers attempt))) [
        | inl e ↦ simp e (refl, omega arith, omega arith, omega arith)
        | inr e ↦ simp e (good, omega arith, omega arith, omega arith)
      ]

  -- `Connect` succeeds exactly if one of the 15 attempts does, sleeps once for each attempt that fails
  -- before it, and closes every connection and every channel that it opens, but for the ones that it
  -- keeps when it succeeds.
  pub connect-IsClean : (b : Broker) → IsClean b (connect answers b) 15 1
  unfolding connect
  connect-IsClean b = attempts-IsClean 15 1 b
