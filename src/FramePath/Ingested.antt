-- ===== src/FramePath/Ingested.antt =====
-- The way of a frame from the ingestion engine (microservices/frame_capturer/pipeline.go) to the
-- detector (microservices/human_detector/human_detector.py).
use intruder_watch.Engine.Config as Engine
use intruder_watch.Engine.Pipeline.{FrameItem, Codecs, payload_of, payload_json}
use intruder_watch.Detector.Frames.{Config, Vision, State, Delivery, deliver}
use intruder_watch.Detector.Frames.Head.{head, submissions}
use intruder_watch.Detector.Frames.Repeats.{has_hash, deliver-once}
use intruder_watch.Base.Result.{ok}
use intruder_watch.Json.{Python, str, int, get, lookup}
use intruder_watch.Json.Key.{number, key_of, key_eq_refl}
use intruder_watch.Str.{Text, truthy, text_eq}
use intruder_watch.Str.Equal.{text_eq_refl}
use intruder_watch.Base.{ℕ, ◌≡◌, ◌≤◌, ◌+◌, refl, true, List, [], ◌∷◌, All}

module _ (engine : Engine.Config) (codecs : Codecs) (cfg : Config) (py : Python) {Frame : Type 0}
    (vision : Vision Frame) (jpeg_bytes : Text) where
  -- The body is read as what the engine wrote for some frame with this JPEG, with whatever box.
  abbrev pub IsSent : Delivery → Type 0
  IsSent d =
      (item : FrameItem) × (now : ℕ) × (py.loads d.body
        ≡ ok (payload_json (payload_of engine codecs now true item jpeg_bytes)))

  head-payload_json :
      (d : Delivery) (item : FrameItem) (now : ℕ)
      → py.loads d.body ≡ ok (payload_json (payload_of engine codecs now true item jpeg_bytes))
      → head py d
        ≡ ok (
          payload_json (payload_of engine codecs now true item jpeg_bytes),
          int engine.channel,
          str (codecs.sha256_hex jpeg_bytes),
          number engine.channel,
        )
  unfolding head payload_json get lookup text_eq key_of
  head-payload_json d item now h = rw h refl

  has_hash-payload_json :
      (d : Delivery)
      → IsSent d
      → has_hash py (number engine.channel) (codecs.sha256_hex jpeg_bytes) d ≡ true
  unfolding has_hash
  has_hash-payload_json d (item, now, h) =
      rw
        (
          head-payload_json d item now h,
          has_hash,
          key_eq_refl (number engine.channel),
          text_eq_refl (codecs.sha256_hex jpeg_bytes),
        )
        refl

  All-has_hash :
      (ds : List Delivery)
      → All IsSent ds
      → All (λ d. has_hash py (number engine.channel) (codecs.sha256_hex jpeg_bytes) d ≡ true) ds
  All-has_hash [] h = tt
  All-has_hash (d ∷ ds) (first, rest) = (has_hash-payload_json d first, All-has_hash ds rest)

  -- However many frames with the same JPEG the engine sends, one behind the other, with or without a
  -- motion box, in the post-roll or not, the detector submits one alert of that camera at most, where
  -- the bodies are read as what was written and the hash of the JPEG is not the empty text.
  pub deliver-payload_json :
      (ds : List Delivery) (s : State)
      → truthy (codecs.sha256_hex jpeg_bytes) ≡ true
      → All IsSent ds
      → submissions py (number engine.channel) (deliver cfg py vision ds s).events
        ≤ submissions py (number engine.channel) s.events + 1
  deliver-payload_json ds s full h =
      deliver-once cfg py vision (number engine.channel) (codecs.sha256_hex jpeg_bytes) full ds s
        (All-has_hash ds h)
