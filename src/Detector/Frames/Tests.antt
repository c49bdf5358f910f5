-- ===== src/Detector/Frames/Tests.antt =====
-- The callback of the frames at a payload that has neither hash nor image, and a run of frames of
-- one camera.
use intruder_watch.Detector.Frames.{
  Config, Vision, Delivery, init, callback, deliver, read_frame, warm_up, examine, is_duplicate,
  subscript, detect_people, report, short_hash, basic_ack,
}
use intruder_watch.Detector.Frames.Head.{head, is_of, submissions}
use intruder_watch.Detector.Frames.WarmUp.{arrivals, deliver-submissions}
use intruder_watch.Detector.Frames.Repeats.{has_hash, deliver-once}
use intruder_watch.Json.{Json, Python, obj, str, field, end, get, lookup, is_true, json_eq}
use intruder_watch.Json.Key.{Key, text, key_of, key_eq, find, insert}
use intruder_watch.Detector.Frames.Acks.{acks, callback-acks}
use intruder_watch.Stub.{python}
use intruder_watch.Base.Result.{ok, err, connection_error}
use intruder_watch.Base.{ℕ, List, [], ◌∷◌, ◌≡◌, ◌≤◌, ◌+◌, ◌-◌, All, false, true, none, some, refl}
use intruder_watch.Str.{codes, text_eq}

abbrev vision : Vision ℕ
vision = record { decode = λ v. ok none; detect = λ f. ok []; greater = λ x y. false }

abbrev config : ℕ → Config
config n = record { warmup_limit = n; instance = codes "a1b2c3" }

-- The first acknowledgement would fail.
abbrev delivery : Delivery
delivery = record {
  now = 5;
  date = codes "2026-10-03";
  time_of_day = codes "02:15:30.000001";
  tag = 7;
  body = 1 ∷ [];
  ack = err connection_error;
  ack_again = ok tt;
}

callback-acks_example :
    let (r, s') = callback (config 30) python vision delivery (init 0) in
    (r ≡ ok tt) × (acks s'.events ≡ 1)
callback-acks_example = callback-acks (config 30) python vision delivery (init 0) refl

-- A camera whose payloads have a hash and an image, in which one person is found.
abbrev frame_payload : Json
frame_payload = obj (
    field (codes "camera") (str (codes "7")) (
      field (codes "hash") (str (codes "c0ffee")) (field (codes "image") (str (codes "Zm9v")) end)))

abbrev camera_python : Python
camera_python = record python { loads = λ body. ok frame_payload }

abbrev finder : Vision ℕ
finder = record {
  decode = λ v. ok (some 0);
  detect = λ f. ok (record { corners = []; confidence = 9 } ∷ []);
  greater = λ x y. false;
}

abbrev three : List Delivery
three = delivery ∷ delivery ∷ delivery ∷ []

abbrev seen : Key
seen = text (codes "7")

one_alert :
    submissions camera_python seen (deliver (config 1) camera_python finder three (init 0)).events
    ≡ 1
unfolding deliver callback read_frame get lookup key_of find insert warm_up examine is_duplicate
    subscript detect_people report short_hash is_true json_eq submissions is_of key_eq text_eq
    basic_ack
one_alert = refl

deliver-submissions_example :
    submissions camera_python seen (deliver (config 1) camera_python finder three (init 0)).events
    ≤ arrivals camera_python seen three - 1
deliver-submissions_example = deliver-submissions (config 1) camera_python finder seen three 0

same_hash : All (λ d. has_hash camera_python seen (codes "c0ffee") d ≡ true) three
unfolding has_hash head get lookup key_of key_eq text_eq
same_hash = (refl, (refl, (refl, tt)))

deliver-once_example :
    submissions camera_python seen (deliver (config 1) camera_python finder three (init 0)).events
    ≤ submissions camera_python seen [] + 1
deliver-once_example =
    deliver-once (config 1) camera_python finder seen (codes "c0ffee") refl three (init 0) same_hash
