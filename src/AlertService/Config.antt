-- ===== src/AlertService/Config.antt =====
-- The module constants of microservices/alert_service/alert_service.py that come from the
-- environment, and the alert that a message of `alert_queue` holds.
use intruder_watch.Base.{ℕ, Bool, Option}
use intruder_watch.Base.Int.{ℤ}
use intruder_watch.Json.{Json}
use intruder_watch.Str.{Text}

pub record Config : Type 0 where
  -- in whole seconds
  pub alert_cooldown : ℤ
  pub ntfy_cooldown : ℤ
  pub enable_call_alerts : Bool
  pub alert_recipients : Text
  pub ntfy_internal_url : Text
  pub viewer_public_url : Text
  pub image_access_code : Option Text

pub record Alert : Type 0 where
  pub camera_id : Json
  pub timestamp : Json
  pub filename : Json
  pub human_count : ℤ
  pub max_confidence : ℕ

-- Times are in microseconds.
abbrev pub second : ℕ
second = 1000000
