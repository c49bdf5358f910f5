-- ===== src/Monolith.antt =====
-- The program in one process, monolith/detect.py: the hours in which it is active, the detection of
-- people, and the loop that calls by phone and saves frames. What OpenCV, Twilio and the file
-- system answer in a round is given with the round; logging is left out.
pub mod Hours
pub mod Reacts
pub mod Alerts
pub mod Files
mod Tests
use intruder_watch.Base.{
  ℕ, ◌+◌, ◌*◌, ◌==◌, ◌&&◌, ◌||◌, ◌++◌, true, false, Bool, Option, none, some, List, [], ◌∷◌, ltb,
  leb, if◌then◌else◌,
}
use intruder_watch.Base.Result.{Result, ok, err, other_error}
use intruder_watch.Base.Action.{Action, gets, modify, lift, pure, when, ◌>>=◌, ◌>>◌}
use intruder_watch.Str.{Text, codes, split}

-- Hours of the day, and the cooldown in seconds.
pub record Config : Type 0 where
  pub alert_cooldown : ℕ
  pub start_time : ℕ
  pub end_time : ℕ
  pub to_phone_numbers : Text
  pub channel : Text

-- Times are in microseconds.
abbrev pub second : ℕ
second = 1000000

-- One row of what the network returns: the confidence as a float, and the class as an integer.
pub record Row : Type 0 where
  pub confidence : ℕ
  pub idx : ℕ

pub record Vision (Frame : Type 0) : Type 0 where
  pub forward : Frame → Result (List Row)
  -- `confidence > 0.8`
  pub is_confident : ℕ → Bool
  -- `rectangle` at the box of a row
  pub rectangle : Row → Frame → Frame

-- What a round meets. No frame is `ret` being false.
pub record Round (Frame : Type 0) : Type 0 where
  pub hour : ℕ
  pub now : ℕ
  pub date : Text
  pub time_of_day : Text
  pub frame : Option Frame
  pub call : Text → Result (Unit {0})
  pub makedirs : Result (Unit {0})
  -- `imwrite` tells by false that it has written nothing; the loop does not look at it.
  pub imwrite : Result Bool

-- `called` is a call of Twilio that returns, and `written` one of `imwrite`, with what it returns;
-- `alerted` is the assignment to `last_alert_time`, and `named` the one to `filename`.
pub data Event (Frame : Type 0) : Type 0 where
  called : Text → Event Frame
  alerted : ℕ → Event Frame
  named : Text → Event Frame
  written : Text → Frame → Bool → Event Frame
  reopened : Event Frame

-- `filename` is bound by the first alert.
pub record State (Frame : Type 0) : Type 0 where
  pub last_alert_time : ℕ
  pub filename : Option Text
  pub events : List (Event Frame)

abbrev pub init : {Frame : Type 0} → State Frame
init = record { last_alert_time = 0; filename = none; events = [] }

unfoldable pub is_active : ℕ → ℕ → ℕ → Bool
is_active current_hour start_time end_time =
    if leb start_time end_time
    then leb start_time current_hour && ltb current_hour end_time
    else leb start_time current_hour || ltb current_hour end_time

module _ {Frame : Type 0} where
  abbrev pub emit : Event Frame → State Frame → State Frame
  emit e s = record s { events = e ∷ s.events }

  -- The `for` over the rows: whether a person was found, and the frame with the boxes drawn.
  unfoldable pub detect_rows : Vision Frame → List Row → Bool → Frame → Bool × Frame
  detect_rows vision [] human_detected frame = (human_detected, frame)
  detect_rows vision (row ∷ rows) human_detected frame =
      let person = vision.is_confident row.confidence && row.idx == 15 in
      detect_rows vision rows (human_detected || person)
        (if person then vision.rectangle row frame else frame)

  unfoldable pub detect_human_mobilenet_ssd : Vision Frame → Frame → Result (Bool × Frame)
  unfolding detect_rows
  detect_human_mobilenet_ssd vision frame = elim (vision.forward frame) [
    | ok detections ↦ ok (detect_rows vision detections false frame)
    | err e ↦ err e
  ]

  -- The `for` over the numbers.
  unfoldable pub call_each : Round Frame → List Text → Action (State Frame) (Unit {0})
  call_each r [] = pure tt
  call_each r (number ∷ numbers) = do
    lift (r.call number)
    modify (emit (called number))
    call_each r numbers

  -- `current_time - last_alert_time > alert_cooldown`
  unfoldable pub is_due : Config → Round Frame → State Frame → Bool
  is_due cfg r s = ltb (s.last_alert_time + cfg.alert_cooldown * second) r.now

  -- `captures/<date>/detection_<channel>_<date> <time>.jpg`
  unfoldable pub file_name : Config → Round Frame → Text
  file_name cfg r =
      codes "captures/"
      ++ (r.date
          ++ (codes "/detection_"
              ++ (cfg.channel
                  ++ (codes "_" ++ (r.date ++ (codes " " ++ (r.time_of_day ++ codes ".jpg")))))))

  unfoldable pub alert : Config → Round Frame → Action (State Frame) (Unit {0})
  alert cfg r = do
    call_each r (split b':' cfg.to_phone_numbers)
    modify (λ s. record s { last_alert_time = r.now; events = alerted r.now ∷ s.events })
    lift r.makedirs
    modify (λ s. record s {
      filename = some (file_name cfg r);
      events = named (file_name cfg r) ∷ s.events;
    })

  -- `imwrite(filename, frame)`: the name is an unbound variable where no alert was before.
  unfoldable pub save : Round Frame → Frame → Option Text → Action (State Frame) (Unit {0})
  save r frame none = lift (err other_error)
  save r frame (some filename) = do
    success ← lift r.imwrite
    modify (emit (written filename frame success))

  -- What is done with a frame, once it is known whether somebody is in it.
  unfoldable pub react : Config → Round Frame → Bool × Frame → Action (State Frame) (Unit {0})
  react cfg r (detected, processed_frame) s =
      (when (detected && is_due cfg r s) (alert cfg r)
          >> when detected (λ t. save r processed_frame t.filename t))
        s

  unfoldable pub watch :
      Config → Vision Frame → Round Frame → Option Frame → Action (State Frame) (Unit {0})
  watch cfg vision r none = modify (emit reopened)
  watch cfg vision r (some frame) = lift (detect_human_mobilenet_ssd vision frame) >>= react cfg r

  unfoldable pub step : Config → Vision Frame → Round Frame → Action (State Frame) (Unit {0})
  step cfg vision r =
      if is_active r.hour cfg.start_time cfg.end_time then watch cfg vision r r.frame else pure tt

  -- The loop, as far as the rounds go. An exception leaves it.
  unfoldable pub capture_stream :
      Config → Vision Frame → List (Round Frame) → Action (State Frame) (Unit {0})
  capture_stream cfg vision [] = pure tt
  capture_stream cfg vision (r ∷ rs) = step cfg vision r >> capture_stream cfg vision rs
