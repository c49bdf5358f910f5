-- ===== src/Detector/Publisher.antt =====
-- What the worker of the AlertDispatcher does with a detection: it saves the image and publishes
-- the alert (microservices/human_detector/human_detector.py). The answers of RabbitMQ, of OpenCV
-- and of the file system are parameters.
pub mod Outcome
use intruder_watch.Base.Result.{Result, err}
use intruder_watch.Base.{ℕ, true, false, zero, suc}
use intruder_watch.Base.Action.{Action, gets, modify, lift, pure, when, catch, ◌>>=◌, ◌>>◌}
use intruder_watch.Base.{zero, suc, not, ◌&&◌, ◌||◌, ltb, List, [], ◌∷◌, ◌+◌, true, false, Bool}

-- What the calls of an attempt end with, by the number of the attempt. `is_closed` is read before
-- the connection and the channel are used, and again when they are reset.
pub record Rabbit : Type 0 where
  pub connection_is_closed : ℕ → Bool
  pub channel_is_closed : ℕ → Bool
  pub connect_rabbitmq : ℕ → Result (Unit {0})
  pub basic_publish : ℕ → Result (Unit {0})
  pub close_channel : ℕ → Result (Unit {0})
  pub close_connection : ℕ → Result (Unit {0})

pub data Event : Type 0 where
  made_dirs : Event
  wrote_image : Event
  connected : Event
  published : Event
  closed_channel : Event
  closed_connection : Event
  slept : Event
  task_done : Event

-- Whether the connection and the channel are not None, and the events, the newest first.
pub record State : Type 0 where
  pub connection : Bool
  pub channel : Bool
  pub events : List Event

abbrev pub emit : Event → State → State
emit e s = record s { events = e ∷ s.events }

-- `try: if ...: close() except Exception: ...`
unfoldable pub close_if : Bool → Result (Unit {0}) → Event → Action State (Unit {0})
close_if false answer e = pure tt
close_if true answer e = catch (lift answer >> modify (emit e)) (λ err. pure tt)

module _ (rabbit : Rabbit) where
  -- `if self.channel and not self.channel.is_closed: self.channel.close()`, and the same of the
  -- connection.
  unfoldable pub drop_channel : ℕ → Action State (Unit {0})
  drop_channel attempt s =
      close_if (s.channel && not (rabbit.channel_is_closed attempt)) (rabbit.close_channel attempt)
        closed_channel s

  unfoldable pub drop_connection : ℕ → Action State (Unit {0})
  drop_connection attempt s =
      close_if (s.connection && not (rabbit.connection_is_closed attempt))
        (rabbit.close_connection attempt) closed_connection s

  abbrev pub forget : Action State (Unit {0})
  forget = modify (λ s. record s { channel = false; connection = false })

  unfoldable pub reset_channel : ℕ → Action State (Unit {0})
  reset_channel attempt = drop_channel attempt >> (drop_connection attempt >> forget)

  unfoldable pub ensure_channel : ℕ → Action State (Unit {0})
  ensure_channel attempt = do
    missing ← gets (λ s.
        not s.connection
        || rabbit.connection_is_closed attempt
        || not s.channel
        || rabbit.channel_is_closed attempt)
    when missing (
        lift (rabbit.connect_rabbitmq attempt)
        >> modify
            (λ s. record s { connection = true; channel = true; events = connected ∷ s.events }))

  unfoldable pub try_publish : ℕ → Action State Bool
  try_publish attempt = do
    ensure_channel attempt
    lift (rabbit.basic_publish attempt)
    modify (emit published)
    pure true

  -- The `except` clause.
  unfoldable pub recover : ℕ → ℕ → Action State (Unit {0})
  recover retries attempt =
      reset_channel attempt >> when (ltb attempt retries) (modify (emit slept))

  -- The attempts that are left, from the one with this number on.
  unfoldable pub publish_attempts : ℕ → ℕ → ℕ → Action State Bool
  publish_attempts retries zero attempt = pure false
  publish_attempts retries (suc left) attempt =
      let retry = publish_attempts retries left (attempt + 1) in
      catch (try_publish attempt) λ e. recover retries attempt >> retry

  -- The first parameter is what `json.dumps` of the payload ends with.
  unfoldable pub publish_with_retry : Result (List ℕ) → ℕ → Action State Bool
  publish_with_retry body retries = lift body >> publish_attempts retries retries 1

  -- The `try` of `_worker`.
  unfoldable pub save_and_publish :
      Result (Unit {0}) → Result Bool → Result (List ℕ) → Action State (Unit {0})
  save_and_publish makedirs imwrite body = do
    lift makedirs
    modify (emit made_dirs)
    success ← lift imwrite
    when success (modify (emit wrote_image))
    publish_with_retry body 3
    pure tt

  -- A round of `_worker` behind `queue.get`, with what `makedirs`, `imwrite` and `json.dumps` end
  -- with. An exception is logged, and the task is done in any case.
  unfoldable pub process :
      Result (Unit {0}) → Result Bool → Result (List ℕ) → Action State (Unit {0})
  process makedirs imwrite body =
      catch (save_and_publish makedirs imwrite body) (λ e. pure tt) >> modify (emit task_done)
