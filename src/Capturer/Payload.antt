-- ===== src/Capturer/Payload.antt =====
-- The message that `capture_frames` publishes for a frame
-- (microservices/frame_capturer/frame_capturer.py).
use intruder_watch.Capturer.Loop.{Vision}
use intruder_watch.Json.{Json, str, field, end, obj}
use intruder_watch.Str.{Text, codes}

unfoldable pub frame_payload : {Gray : Type 0} → Vision Gray → Text → Text → Json
frame_payload vision channel byte_data = obj (
    field (codes "camera") (str channel) (
      field (codes "hash") (str (vision.sha256 byte_data))
        (field (codes "image") (str (vision.b64encode byte_data)) end)))
