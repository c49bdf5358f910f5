-- ===== src/Detector/Start/Tests.antt =====
-- The start of the detector on concrete inputs.
use intruder_watch.Detector.Frames as Frames
use intruder_watch.Detector.Frames.{Config, Vision, Delivery, deliver}
use intruder_watch.Detector.Start.{
  Outside, Service, instance_num, init_delay, consume_frames, wsgi_app,
}
use intruder_watch.Detector.Start.Life.{consume_frames-ends}
use intruder_watch.Stub.{python}
use intruder_watch.Base.Result.{Result, ok, err, connection_error, value_error, Error}
use intruder_watch.Base.Int.{ℤ, pos, negsuc, ltb_ℤ, ◌-ℤ◌, ◌*ℤ◌}
use intruder_watch.Str.{codes, split, strip}
use intruder_watch.Str.Decimal.{parse_int}
use intruder_watch.Base.{ℕ, [], ◌∷◌, ◌≡◌, refl, false, none, if◌then◌else◌, some, ◌⊎◌}

abbrev vision : Vision ℕ
vision = record { decode = λ v. ok none; detect = λ f. ok []; greater = λ x y. false }

abbrev config : Config
config = record { warmup_limit = 30; instance = codes "det_2" }

abbrev message : Delivery
message = record {
  now = 5;
  date = codes "2026-10-03";
  time_of_day = codes "02:15:30.000001";
  tag = 7;
  body = 1 ∷ [];
  ack = ok tt;
  ack_again = ok tt;
}

abbrev sleep : ℤ → Result (Unit {0})
sleep z = if ltb_ℤ z (pos 0) then err value_error else ok tt

-- A message comes in, and the connection is lost.
abbrev outside : Outside
outside = record {
  random = pos 4;
  sleep = sleep;
  load = ok tt;
  connect = ok tt;
  basic_qos = ok tt;
  makedirs = ok tt;
  messages = message ∷ [];
  consuming = err connection_error;
}

abbrev initial : Service
initial = record { is_ready = false; frames = Frames.init 0 }

second_instance : init_delay (pos 4) (codes "det_2") ≡ pos 3
unfolding init_delay instance_num parse_int split strip ◌-ℤ◌ ◌*ℤ◌
second_instance = refl

unnumbered_instance : init_delay (pos 4) (codes "3fa") ≡ pos 9
unfolding init_delay instance_num parse_int split strip ◌-ℤ◌ ◌*ℤ◌
unnumbered_instance = refl

-- `time.sleep` is called with a negative number.
instance_zero : init_delay (pos 4) (codes "det-0") ≡ negsuc 2
unfolding init_delay instance_num parse_int split strip ◌-ℤ◌ ◌*ℤ◌
instance_zero = refl

consume_frames-ends_example :
    let (r, t) = consume_frames config python vision (codes "det_2") outside initial in
    ((r ≡ ok tt)
      × (t.frames ≡ deliver config python vision (message ∷ []) (Frames.init 0))
      × (wsgi_app (codes "/healthz") t ≡ some 503))
    ⊎ ((e : Error) × (r ≡ err e) × (t.frames ≡ Frames.init 0))
consume_frames-ends_example =
    consume_frames-ends config python vision (codes "det_2") outside initial
