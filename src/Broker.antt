-- ===== src/Broker.antt =====
-- `connect_rabbitmq` of microservices/shared/rabbitmq_client.py: a connection that is tried again.
-- What an attempt ends with (to connect, to open a channel, and to declare the queues) is a
-- parameter.
pub mod Attempts
mod Tests
use intruder_watch.Base.Action.{Action, raise, modify, ◌>>◌, pure, when}
use intruder_watch.Base.Result.{Error, connection_error}
use intruder_watch.Base.{zero, suc, ℕ, List, ◌+◌, ◌∷◌, ltb}

pub data Attempt : Type 0 where
  connected : Attempt
  -- `AMQPConnectionError` or `ConnectionRefusedError`
  refused : Attempt
  -- any other exception
  fails : Error → Attempt

-- The attempts, by their number, and the seconds slept, the newest first.
pub data Event : Type 0 where
  tried : ℕ → Event
  slept : ℕ → Event

module _ (outcome : ℕ → Attempt) (retries delay : ℕ) where
  -- The rounds of the loop that are left, from the attempt with this number on.
  unfoldable pub attempts : ℕ → ℕ → Action (List Event) ℕ
  attempts zero attempt = raise connection_error
  attempts (suc left) attempt =
      let retry = attempts left (attempt + 1) in
      modify (λ es. tried attempt ∷ es) >> elim (outcome attempt) [
        | connected ↦ pure attempt
        | refused ↦ when (ltb attempt retries) (modify (λ es. slept delay ∷ es)) >> retry
        | fails e ↦ raise e
      ]

  -- The number of the attempt that connects.
  unfoldable pub connect_rabbitmq : Action (List Event) ℕ
  unfolding attempts
  connect_rabbitmq = attempts retries 1
