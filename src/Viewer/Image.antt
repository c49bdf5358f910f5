-- ===== src/Viewer/Image.antt =====
-- `validate_path_param` and `serve_image` of microservices/viewer_service/viewer_service.py. The
-- file system is a parameter.
pub mod Access
pub mod Follow
pub mod Inside
use intruder_watch.Viewer.Config.{Config, Codec}
use intruder_watch.Viewer.Auth.{
  Http, reply, fault, http_exception, Request, or_empty, get_authenticated_user,
}
use intruder_watch.Str.{Text, codes, text_eq, truthy, starts_with, contains, has_char}
use intruder_watch.Base.Result.{ok, err, Result}
use intruder_watch.Base.{
  none, some, false, if◌then◌else◌, Option, Bool, not, ◌++◌, ℕ, ◌∷◌, ◌&&◌, ◌||◌,
}

-- Paths are texts with a slash before each part. `resolve` follows the symbolic links.
pub record FileSystem : Type 0 where
  pub resolve : Text → Result Text
  pub exists : Text → Result Bool
  pub is_file : Text → Result Bool

abbrev pub captures_dir : Text
captures_dir = codes "/app/captures"

-- `path / part`, where the part is not empty, is not `..` and holds no slash.
unfoldable pub join_path : Text → Text → Text
join_path path part = if text_eq part (codes ".") then path else path ++ b'/' ∷ part

abbrev pub seq : {A : Type 0} → Http (Unit {0}) → Http A → Http A
seq (reply u) k = k
seq (http_exception status) k = http_exception status
seq (fault e) k = fault e

unfoldable pub validate_path_param : Text → Http (Unit {0})
validate_path_param value =
    if not (truthy value)
    then http_exception 400
    else if contains (codes "..") value || has_char b'/' value || has_char b'\\' value
    then http_exception 400
    else reply tt

-- `ALERT_BYPASS_TOKEN and token == ALERT_BYPASS_TOKEN`
unfoldable pub bypasses : Option Text → Option Text → Bool
bypasses none token = false
bypasses (some secret) none = false
bypasses (some secret) (some token) = truthy secret && text_eq token secret

-- The handler of the `try`: an `HTTPException` goes on, and any other exception is a 400.
abbrev pub invalid : {A : Type 0} → Http A → Http A
invalid (fault e) = http_exception 400
invalid r = r

abbrev pub of_result : {A B : Type 0} → Result A → (A → Http B) → Http B
of_result (ok a) k = k a
of_result (err e) k = fault e

module _ (fs : FileSystem) where
  -- The two checks of a resolved path.
  unfoldable pub check_file : Text → Text → Http Text
  check_file image_path base_path =
      if not (starts_with image_path base_path)
      then http_exception 403
      else of_result (fs.exists image_path) λ there.
        if not there
        then http_exception 404
        else of_result (fs.is_file image_path)
            λ file. if not file then http_exception 404 else reply image_path

  -- The path security of `serve_image`: the file that is sent.
  unfoldable pub find_image : Text → Text → Text → Http Text
  unfolding check_file join_path
  find_image camera date filename = invalid (
      of_result (fs.resolve (join_path (join_path (join_path captures_dir camera) date) filename))
        λ image_path.
          of_result (fs.resolve captures_dir) λ base_path. check_file image_path base_path)

module _ (cfg : Config) (codec : Codec) (fs : FileSystem) (now : ℕ) where
  -- The bypass token, or the session cookie or Basic Auth.
  unfoldable pub is_authenticated : Option Text → Request → Bool
  unfolding bypasses
  is_authenticated token r =
      bypasses cfg.alert_bypass_token token
      || truthy (or_empty (get_authenticated_user cfg codec now r))

  unfoldable pub serve_image : Text → Text → Text → Option Text → Request → Http Text
  unfolding is_authenticated
  serve_image camera date filename token r = seq (validate_path_param camera) (
      seq (validate_path_param date) (
        seq (validate_path_param filename) (
          if not (is_authenticated token r)
          then http_exception 401
          else find_image fs camera date filename)))
