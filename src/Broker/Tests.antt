-- ===== src/Broker/Tests.antt =====
-- Connections that are tried again, at concrete outcomes.
-- Two refusals, then a connection.
use intruder_watch.Broker.Attempts.{tries, sleeps, connect_rabbitmq-connected}
use intruder_watch.Broker.{connect_rabbitmq, Attempt, attempts, refused, tried, fails, connected}
use intruder_watch.Base.Result.{ok, err, type_error}
use intruder_watch.Base.{[], refl, if◌then◌else◌, ℕ, ◌≡◌, ltb, ◌∷◌, arith}

abbrev third_time : ℕ → Attempt
third_time n = if ltb n 3 then refused else connected

abbrev never : ℕ → Attempt
never n = refused

connect_rabbitmq-connected_example :
    let (r, es) = connect_rabbitmq third_time 10 5 [] in
    (r ≡ ok 3) × (tries es ≡ 3) × (sleeps es ≡ 2)
connect_rabbitmq-connected_example =
    connect_rabbitmq-connected third_time 10 5 2 (omega arith) (refl, (refl, tt)) refl

a_failure_is_raised :
    connect_rabbitmq (λ n. fails type_error) 3 5 [] ≡ (err type_error, tried 1 ∷ [])
unfolding connect_rabbitmq attempts
a_failure_is_raised = refl
