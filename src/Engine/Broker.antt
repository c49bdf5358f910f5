-- ===== src/Engine/Broker.antt =====
-- `Broker` of microservices/frame_capturer/broker.go. What the AMQP library answers is a parameter.
-- The connections and channels that are opened and closed are counted.
pub mod Connect
use intruder_watch.Base.{ℕ, zero, suc, ◌+◌, Bool, true, false, ◌&&◌, if◌then◌else◌}

-- Whether the dial, the channel and the declaration of the queue succeed in an attempt.
pub record Answers : Type 0 where
  pub dial : Bool
  pub channel : Bool
  pub declare : Bool

pub record Broker : Type 0 where
  pub conn : Bool
  pub ch : Bool
  pub conns_opened : ℕ
  pub conns_closed : ℕ
  pub chs_opened : ℕ
  pub chs_closed : ℕ
  pub sleeps : ℕ

abbrev pub new_broker : Broker
new_broker = record {
  conn = false;
  ch = false;
  conns_opened = 0;
  conns_closed = 0;
  chs_opened = 0;
  chs_closed = 0;
  sleeps = 0;
}

abbrev pub is_good : Answers → Bool
is_good a = a.dial && a.channel && a.declare

-- What an attempt that fails opens and closes again.
unfoldable pub failed_attempt : Answers → Broker → Broker
failed_attempt a b =
    if a.dial
    then if a.channel
      then record b {
        conns_opened = b.conns_opened + 1;
        chs_opened = b.chs_opened + 1;
        chs_closed = b.chs_closed + 1;
        conns_closed = b.conns_closed + 1;
      }
      else record b { conns_opened = b.conns_opened + 1; conns_closed = b.conns_closed + 1 }
    else b

unfoldable pub keep : Broker → Broker
keep b = record b {
  conn = true;
  ch = true;
  conns_opened = b.conns_opened + 1;
  chs_opened = b.chs_opened + 1;
}

abbrev pub sleep : Broker → Broker
sleep b = record b { sleeps = b.sleeps + 1 }

module _ (answers : ℕ → Answers) where
  -- The attempts that are left, from the one with this number on.
  unfoldable pub attempts : ℕ → ℕ → Broker → Bool × Broker
  attempts zero attempt b = (false, b)
  attempts (suc left) attempt b =
      let rest = attempts left (attempt + 1) (sleep (failed_attempt (answers attempt) b)) in
      if is_good (answers attempt) then (true, keep b) else rest

  -- `Connect`, and whether it returns no error: 15 attempts, with a sleep behind each that fails.
  unfoldable pub connect : Broker → Bool × Broker
  connect b = attempts 15 1 b

-- `Publish`, where the library accepts the message or not.
unfoldable pub publish : Bool → Broker → Bool
publish accepted b = b.ch && accepted

-- `Close`
unfoldable pub close : Broker → Broker
close b =
    let c = if b.ch then record b { ch = false; chs_closed = b.chs_closed + 1 } else b in
    if c.conn then record c { conn = false; conns_closed = c.conns_closed + 1 } else c
