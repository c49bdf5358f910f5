-- ===== src/FramePath/Tests.antt =====
-- The same frame of camera 7 comes in three times.
use intruder_watch.FramePath.Ingested.{deliver-payload_json}
use intruder_watch.Engine.Config as Engine
use intruder_watch.Engine.Pipeline.{FrameItem, Codecs, payload_of, payload_json}
use intruder_watch.Detector.Frames.{Config, Vision, Delivery, init, deliver}
use intruder_watch.Detector.Frames.Head.{submissions}
use intruder_watch.Stub.{python}
use intruder_watch.Base.Result.{ok}
use intruder_watch.Json.{Python}
use intruder_watch.Json.Key.{number}
use intruder_watch.Base.Int.{pos}
use intruder_watch.Str.{codes}
use intruder_watch.Base.{ℕ, ◌≤◌, ◌+◌, refl, false, some, List, [], ◌∷◌, true}

abbrev finder : Vision ℕ
finder = record {
  decode = λ v. ok (some 0);
  detect = λ f. ok (record { corners = []; confidence = 9 } ∷ []);
  greater = λ x y. false;
}

abbrev config : Config
config = record { warmup_limit = 1; instance = codes "a1b2c3" }

abbrev delivery : Delivery
delivery = record {
  now = 5;
  date = codes "2026-10-03";
  time_of_day = codes "02:15:30.000001";
  tag = 7;
  body = 1 ∷ [];
  ack = ok tt;
  ack_again = ok tt;
}

abbrev three : List Delivery
three = delivery ∷ delivery ∷ delivery ∷ []

abbrev codecs : Codecs
codecs = record {
  encode_jpeg = λ y cb cr. some y;
  sha256_hex = λ jpeg. codes "c0ffee";
  base64 = λ jpeg. jpeg;
  marshal = λ payload. some payload.image;
}

abbrev engine : Engine.Config
engine = record {
  channel = pos 7;
  frame_width = 4;
  frame_height = 4;
  fps = pos 3;
  start_seconds = pos 0;
  end_seconds = pos 86399;
  block_size = pos 2;
  motion_threshold = 8;
  min_active_blocks = pos 3;
  lighting_shift_ratio = 75;
  exclude_zones = [];
  post_roll_duration = pos 1500000000;
}

abbrev item : FrameItem
item = record {
  id = 0;
  bytes = [];
  timestamp = 9;
  sequence = 4;
  motion_box = some (record { left = 0; top = 2; right = 2; bottom = 4 });
  is_post_roll = true;
}

abbrev engine_reader : Python
engine_reader = record python {
  loads = λ body. ok (payload_json (payload_of engine codecs 9 true item (codes "jpeg")));
}

deliver-payload_json_example :
    submissions engine_reader
      (number (pos 7))
      (deliver config engine_reader finder three (init 0)).events
    ≤ submissions engine_reader (number (pos 7)) [] + 1
deliver-payload_json_example =
    deliver-payload_json engine codecs config engine_reader finder (codes "jpeg") three (init 0)
      refl ((item, 9, refl), ((item, 9, refl), ((item, 9, refl), tt)))
