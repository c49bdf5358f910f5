-- ===== src/FramePath.antt =====
-- The way of a frame from the frame capturer (microservices/frame_capturer/frame_capturer.py) to the
-- detector (microservices/human_detector/human_detector.py).
pub mod Ingested
mod Tests
use intruder_watch.Capturer.Loop as Capturer
use intruder_watch.Capturer.Payload.{frame_payload}
use intruder_watch.Detector.Frames.{Config, Vision, State, Delivery, deliver}
use intruder_watch.Detector.Frames.Head.{head, submissions}
use intruder_watch.Detector.Frames.Repeats.{has_hash, deliver-once}
use intruder_watch.Base.Result.{ok}
use intruder_watch.Json.{Json, Python, str, get, lookup}
use intruder_watch.Json.Key.{Key, text, key_of, key_eq_refl}
use intruder_watch.Str.{Text, truthy, text_eq}
use intruder_watch.Str.Equal.{text_eq_refl}
use intruder_watch.Base.{ℕ, ◌≡◌, ◌≤◌, ◌+◌, refl, true, List, [], ◌∷◌, All}

module _ {Gray Frame : Type 0} (camera : Capturer.Vision Gray) (cfg : Config) (py : Python)
    (vision : Vision Frame) (channel byte_data : Text) where
  -- The detector reads the camera, and the hash of the picture.
  head-frame_payload :
      (d : Delivery)
      → py.loads d.body ≡ ok (frame_payload camera channel byte_data)
      → head py d
        ≡ ok (
          frame_payload camera channel byte_data,
          str channel,
          str (camera.sha256 byte_data),
          text channel,
        )
  unfolding head frame_payload get lookup text_eq key_of
  head-frame_payload d h = rw h refl

  has_hash-frame_payload :
      (d : Delivery)
      → py.loads d.body ≡ ok (frame_payload camera channel byte_data)
      → has_hash py (text channel) (camera.sha256 byte_data) d ≡ true
  unfolding has_hash
  has_hash-frame_payload d h =
      rw
        (
          head-frame_payload d h,
          has_hash,
          key_eq_refl (text channel),
          text_eq_refl (camera.sha256 byte_data),
        )
        refl

  All-has_hash :
      (ds : List Delivery)
      → All (λ d. py.loads d.body ≡ ok (frame_payload camera channel byte_data)) ds
      → All (λ d. has_hash py (text channel) (camera.sha256 byte_data) d ≡ true) ds
  All-has_hash [] h = tt
  All-has_hash (d ∷ ds) (first, rest) = (has_hash-frame_payload d first, All-has_hash ds rest)

  -- However often the picture of a camera that the capturer has sent comes in again, with no other
  -- message between, the detector submits one alert of that camera at most, where the bodies are
  -- read as what was written and the hash of the picture is not the empty text.
  pub deliver-frame_payload :
      (ds : List Delivery) (s : State)
      → truthy (camera.sha256 byte_data) ≡ true
      → All (λ d. py.loads d.body ≡ ok (frame_payload camera channel byte_data)) ds
      → submissions py (text channel) (deliver cfg py vision ds s).events
        ≤ submissions py (text channel) s.events + 1
  deliver-frame_payload ds s full h =
      deliver-once cfg py vision (text channel) (camera.sha256 byte_data) full ds s
        (All-has_hash ds h)
