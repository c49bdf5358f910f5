-- ===== src/Monolith/Tests.antt =====
-- The monolith at concrete rounds: a frame is a number, and somebody is in the odd ones.
use intruder_watch.Base.Int.{pos}
use intruder_watch.Monolith.{
  Config, Vision, Round, State, init, is_active, call_each, is_due, file_name, alert, save, react,
  watch, step, capture_stream, detect_human_mobilenet_ssd, detect_rows,
}
use intruder_watch.Monolith.Reacts.{alert_times, calls, dialed, writes, sightings}
use intruder_watch.Monolith.Alerts.{capture_stream-alerts}
use intruder_watch.AlertService.Callback.Limiter.{limit, IsSpaced}
use mathlib.Core.List.{reverse}
use intruder_watch.Base.{
  ℕ, ◌%◌, ◌*◌, ◌≡◌, refl, Option, some, none, List, [], ◌∷◌, length, ◌==◌, true,
}
use intruder_watch.Base.Result.{ok}
use intruder_watch.Str.{codes, split}

abbrev config : Config
config = record {
  alert_cooldown = 90;
  start_time = 22;
  end_time = 6;
  to_phone_numbers = codes "+15550100:+15550101";
  channel = codes "1";
}

abbrev vision : Vision ℕ
vision = record {
  forward = λ f. ok (record { confidence = f; idx = 15 } ∷ []);
  is_confident = λ c. c % 2 == 1;
  rectangle = λ row f. f;
}

abbrev frame_at : ℕ → ℕ → Option ℕ → Round ℕ
frame_at hour seconds frame = record {
  hour = hour;
  now = seconds * 1000000;
  date = codes "2026-10-03";
  time_of_day = codes "02:15:30";
  frame = frame;
  call = λ number. ok tt;
  makedirs = ok tt;
  imwrite = ok true;
}

abbrev night : List (Round ℕ)
night =
    frame_at 21 900 (some 1)
    ∷ frame_at 23 1000 (some 3)
    ∷ frame_at 23 1050 (some 5)
    ∷ frame_at 0 1060 none
    ∷ frame_at 1 1070 (some 4)
    ∷ frame_at 5 1091 (some 7)
    ∷ []

abbrev last : State ℕ
last = (capture_stream config vision night init).1

night_returns : capture_stream config vision night init ≡ (ok tt, last)
unfolding capture_stream step is_active watch detect_human_mobilenet_ssd detect_rows react is_due
    alert call_each save file_name split
night_returns = refl

two_alerts :
    (alert_times last.events ≡ 1091000000 ∷ 1000000000 ∷ [])
    × (calls last.events
        ≡ codes "+15550101" ∷ codes "+15550100" ∷ codes "+15550101" ∷ codes "+15550100" ∷ [])
    × (writes last.events ≡ 3)
unfolding capture_stream step is_active watch detect_human_mobilenet_ssd detect_rows react is_due
    alert call_each save file_name split
two_alerts = (refl, refl, refl)

capture_stream-alerts_example :
    (alert_times last.events ≡ reverse (limit (pos 90) 0 (sightings config vision night)))
    × IsSpaced 90 (alert_times last.events)
    × (calls last.events
        ≡ dialed (split b':' (codes "+15550100:+15550101")) (alert_times last.events))
    × (writes last.events ≡ length (sightings config vision night))
capture_stream-alerts_example = capture_stream-alerts config vision night last night_returns
