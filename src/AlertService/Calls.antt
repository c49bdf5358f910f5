-- ===== src/AlertService/Calls.antt =====
-- The voice calls of microservices/alert_service/alert_service.py: `_dispatch_calls`,
-- `send_call_alert`, and `mask_phone`. The Twilio client is a parameter: what a call answers.
pub mod Order
pub mod Mask
use mathlib.Core.Option
use intruder_watch.Base.{
  ℕ, suc, ◌+◌, ◌-◌, ◌||◌, not, Option, none, some, List, [], ◌∷◌, ◌++◌, ltb, if◌then◌else◌, length,
  map, replicate,
}
use intruder_watch.Base.Result.{Result, Error}
use intruder_watch.Base.Action.{Action, pure, lift, modify, catch, when, ◌>>=◌, ◌>>◌}
use intruder_watch.Str.{Text, codes, text_eq, truthy, split, strip, take_last}
use intruder_watch.Str.Decimal.{show}
use intruder_watch.AlertService.Config.{Config}

-- A call that is tried, and the two counters with the destination as their label.
pub data Event : Type 0 where
  called : Text → Event
  sent : Text → Event
  failed : Text → Error → Event

-- `[num.strip() for num in nums if num.strip()]`
abbrev pub stripped : List Text → List Text
stripped [] = []
stripped (num ∷ nums) =
    let rest = stripped nums in if truthy (strip num) then strip num ∷ rest else rest

-- The list that `send_call_alert` makes of ALERT_RECIPIENTS.
unfoldable pub recipient_list : Text → List Text
recipient_list recipients = stripped (split b':' recipients)

-- `xs.index(x)`; `none` is the `ValueError`.
unfoldable pub index : Text → List Text → Option ℕ
index x [] = none
index x (y ∷ ys) = if text_eq y x then some 0 else Option.map suc (index x ys)

abbrev id_at : Option ℕ → Text
id_at none = codes "configured_phone"
id_at (some i) = codes "phone_" ++ show (i + 1)

-- The label of a recipient.
unfoldable pub phone_id : Config → Text → Text
unfolding recipient_list index
phone_id cfg recipient = id_at (index recipient (recipient_list cfg.alert_recipients))

module _ (cfg : Config) (create : Text → Result (Unit {0})) where
  unfoldable pub send_call_alert : Text → Action (List Event) Unit
  send_call_alert recipient =
      catch
        (do
          modify (λ es. called recipient ∷ es)
          lift (create recipient)
          modify (λ es. sent (phone_id cfg recipient) ∷ es))
        (λ e. modify (λ es. failed (phone_id cfg recipient) e ∷ es))

  -- The loop of `_dispatch_calls` over the parts of its argument.
  unfoldable pub call_each : List Text → Action (List Event) Unit
  unfolding send_call_alert
  call_each [] = pure tt
  call_each (r ∷ rs) = do when (truthy (strip r)) (send_call_alert (strip r)); call_each rs

  unfoldable pub dispatch_calls : Text → Action (List Event) Unit
  unfolding call_each
  dispatch_calls recipients = call_each (split b':' recipients)

-- `mask_phone`; `none` is None.
unfoldable pub mask_phone : Option Text → Text
mask_phone none = codes "****"
mask_phone (some phone) =
    if not (truthy phone) || ltb (length phone) 4
    then codes "****"
    else replicate (length phone - 4) b'*' ++ take_last 4 phone
