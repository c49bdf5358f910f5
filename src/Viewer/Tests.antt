-- ===== src/Viewer/Tests.antt =====
-- The viewer (microservices/viewer_service/viewer_service.py) on concrete inputs. The stub signs every
-- text alike and leaves texts as they are where base64 would encode them.
use intruder_watch.Viewer.Session.Sound.{verify-signed}
use intruder_watch.Viewer.Auth.Basic.{get_authenticated_user-some}
use intruder_watch.Base.Int.{ℤ, ◌*ℤ◌, ltb_ℤ, pos}
use intruder_watch.Str.Decimal.{parse_int, show_ℤ}
use intruder_watch.Viewer.Session.RoundTrip.{verify-create_until}
use intruder_watch.Viewer.Image.Access.{HasToken, IsPart, serve_image-reply}
use intruder_watch.Viewer.Image.{
  FileSystem, serve_image, captures_dir, validate_path_param, join_path, find_image,
}
use intruder_watch.Viewer.Auth.{Request, get_authenticated_user, reply}
use intruder_watch.Str.{
  Text, codes, contains, text_eq, is_ascii, split, starts_with, split_once, has_char, strip,
}
use intruder_watch.Viewer.Session.{verify_session_token, create_session_token, signed}
use intruder_watch.Viewer.Config.{Codec, CodecLaws, Config, compare_digest, second}
use intruder_watch.Base.Result.{ok}
use intruder_watch.Base.{
  [], none, some, true, false, refl, if◌then◌else◌, ℕ, arith, ◌*◌, ◌/◌, ◌+◌, ◌≡◌, ◌⊎◌, ◌++◌, ◌∷◌,
  leb,
}

abbrev codec : Codec
codec = record {
  sign = λ s. codes "5eed";
  encode = λ s. s;
  decode = λ s. ok s;
  basic_decode = λ s. ok s;
}

codec-CodecLaws : CodecLaws codec
codec-CodecLaws = record {
  sign-Lacks = λ s. omega arith;
  sign-is_ascii = λ s. unfold is_ascii in refl;
  decode-encode = λ s. refl;
}

abbrev config : Config
config = record {
  viewer_username = codes "admin";
  viewer_password = codes "pw";
  alert_bypass_token = some (codes "key");
}

-- A thousand seconds after the epoch.
abbrev start : ℕ
start = 1000 * second

verify-create_until_example :
    verify_session_token config codec (start + 5) (create_session_token codec start (codes "admin"))
    ≡ (if leb (start + 5) ((start / 1000000 + 604800) * 1000000)
        then some (codes "admin")
        else none)
verify-create_until_example =
    verify-create_until config codec codec-CodecLaws start (start + 5) (unfold is_ascii in refl)
      (omega arith)

abbrev token : Text
token = codes "admin:2000:5eed"

accepted : verify_session_token config codec start token ≡ some (codes "admin")
unfolding verify_session_token split parse_int compare_digest text_eq is_ascii ◌*ℤ◌ strip show_ℤ
accepted = refl

verify-signed_example :
    (codes "admin" ≡ config.viewer_username)
    × ((expires_at : ℤ) × (text : Text) × (parse_int text ≡ some expires_at)
        × (ltb_ℤ (expires_at *ℤ pos second) (pos start) ≡ false)
        × (codec.decode token
            ≡ ok (
                signed (codes "admin") text
                ++ b':' ∷ codec.sign (signed (codes "admin") (show_ℤ expires_at)))))
verify-signed_example = verify-signed config codec start token accepted

abbrev by_cookie : Request
by_cookie = record { session_token = some token; authorization = none }

abbrev by_password : Request
by_password = record { session_token = none; authorization = some (codes "Basic admin:pw") }

abbrev nobody : Request
nobody = record { session_token = none; authorization = none }

password_user : get_authenticated_user config codec start by_password ≡ some (codes "admin")
unfolding get_authenticated_user compare_digest text_eq is_ascii split_once strip starts_with
password_user = refl

get_authenticated_user-some_example :
    (codes "admin" ≡ config.viewer_username)
    × ((verify_session_token config codec start [] ≡ some (codes "admin"))
        ⊎ ((creds : Text) × (decoded : Text) × ((split_once b' ' (codes "Basic admin:pw")).1
              ≡ some creds)
            × (codec.basic_decode (strip creds) ≡ ok decoded)
            × (split_once b':' decoded ≡ (config.viewer_username, some config.viewer_password))))
get_authenticated_user-some_example =
    get_authenticated_user-some config codec start by_password password_user

abbrev disk : FileSystem
disk = record { resolve = λ p. ok p; exists = λ p. ok true; is_file = λ p. ok true }

-- A disk on which a link in the captures leads to a folder beside them.
abbrev linked : FileSystem
linked = record {
  resolve =
      λ p. ok (if text_eq p captures_dir then captures_dir else captures_dir ++ codes "_old/x");
  exists = λ p. ok true;
  is_file = λ p. ok true;
}

abbrev image_file : Text
image_file = codes "/app/captures/camera_1/2026-10-03/det.jpg"

served :
    serve_image config codec disk start
      (codes "camera_1")
      (codes "2026-10-03")
      (codes "det.jpg")
      (some (codes "key"))
      nobody
    ≡ reply image_file
unfolding serve_image validate_path_param contains has_char find_image starts_with text_eq
served = refl

serve_image-reply_example :
    (HasToken config.alert_bypass_token (some (codes "key"))
      ⊎ (get_authenticated_user config codec start nobody ≡ some config.viewer_username))
    × IsPart (codes "camera_1")
    × IsPart (codes "2026-10-03")
    × IsPart (codes "det.jpg")
    × (disk.resolve (
          join_path
            (join_path (join_path captures_dir (codes "camera_1")) (codes "2026-10-03"))
            (codes "det.jpg"))
        ≡ ok image_file)
    × (disk.exists image_file ≡ ok true)
    × (disk.is_file image_file ≡ ok true)
    × ((base : Text) × (disk.resolve captures_dir ≡ ok base) × (starts_with image_file base ≡ true))
serve_image-reply_example =
    serve_image-reply config codec disk start (codes "camera_1") (codes "2026-10-03")
      (codes "det.jpg") (some (codes "key")) nobody served
