-- ===== src/Viewer/Listing.antt =====
-- The lists of cameras, dates and images of microservices/viewer_service/viewer_service.py.
pub mod Picture
pub mod Sorted
mod Tests
use intruder_watch.Viewer.Config.{Config, Codec}
use intruder_watch.Viewer.Auth.{Http, reply, fault, http_exception, Request, require_auth}
use intruder_watch.Viewer.Image.{
  FileSystem, captures_dir, join_path, validate_path_param, of_result, seq,
}
use intruder_watch.Base.Sort.{sorted}
use intruder_watch.Base.Result.{Result, ok, err}
use intruder_watch.Base.{
  ℕ, ◌+◌, ◌&&◌, ◌||◌, not, Bool, Option, none, some, List, [], ◌∷◌, map, select, leb, ◌==◌,
  if◌then◌else◌,
}
use intruder_watch.Str.{Text, codes, text_eq, starts_with}
use intruder_watch.Str.Order.{text_le}

-- What `iterdir` gives of an entry. The time of modification is a float that is not negative; its
-- bits are ordered as it is.
pub record Entry : Type 0 where
  pub name : Text
  pub is_dir : Bool
  pub is_file : Bool
  pub mtime : ℕ

-- What stands from the last dot on, if there is one.
unfoldable pub from_dot : Text → Option Text
from_dot [] = none
from_dot (c ∷ s) = elim (from_dot s) [
  | some t ↦ some t
  | none ↦ if c == b'.' then some (c ∷ s) else none
]

abbrev pub more_than_dot : Option Text → Text
more_than_dot none = []
more_than_dot (some []) = []
more_than_dot (some (c ∷ [])) = []
more_than_dot (some (c ∷ d ∷ s)) = c ∷ d ∷ s

-- `Path(name).suffix`: a dot that is the first or the last character makes none.
unfoldable pub suffix : Text → Text
unfolding from_dot
suffix [] = []
suffix (c ∷ s) = more_than_dot (from_dot s)

-- `s.lower()`, of ASCII letters: no other character's lower case is a letter of the suffixes.
abbrev pub lower : Text → Text
lower [] = []
lower (c ∷ s) = (if leb 65 c && leb c 90 then c + 32 else c) ∷ lower s

unfoldable pub is_image : Entry → Bool
unfolding suffix
is_image f =
    let ext = lower (suffix f.name) in
    f.is_file
    && (text_eq ext (codes ".png") || text_eq ext (codes ".jpg") || text_eq ext (codes ".jpeg"))

unfoldable pub is_camera : Entry → Bool
is_camera d = d.is_dir && starts_with d.name (codes "camera_")

-- `key=mtime, reverse=True` and `reverse=True`: the later stands before, and equal ones stay in
-- their order.
unfoldable pub newer : Entry → Entry → Bool
newer f g = leb g.mtime f.mtime

unfoldable pub descending : Text → Text → Bool
descending s t = text_le t s

abbrev pub name_of : Entry → Text
name_of e = e.name

-- A folder that is not there has no entries; one that is, is listed.
unfoldable pub list_folder :
    FileSystem → (Text → Result (List Entry)) → Text → (List Entry → List Text) → Http (List Text)
list_folder fs iterdir path listed = of_result (fs.exists path) λ there.
    if not there then reply [] else of_result (iterdir path) λ entries. reply (listed entries)

unfoldable pub cameras_of : List Entry → List Text
cameras_of entries = sorted text_le (map name_of (select is_camera entries))

unfoldable pub dates_of : List Entry → List Text
dates_of entries = sorted descending (map name_of (select (λ d. d.is_dir) entries))

unfoldable pub images_of : List Entry → List Text
images_of entries = map name_of (sorted newer (select is_image entries))

abbrev pub of_auth : {A : Type 0} → Http Text → Http A → Http A
of_auth (reply user) k = k
of_auth (http_exception status) k = http_exception status
of_auth (fault e) k = fault e

-- Each handler runs behind `Depends(require_auth)`.
module _ (cfg : Config) (codec : Codec) (fs : FileSystem) (iterdir : Text → Result (List Entry))
    (now : ℕ) where
  unfoldable pub get_cameras : Request → Http (List Text)
  get_cameras r =
      of_auth (require_auth cfg codec now r) (list_folder fs iterdir captures_dir cameras_of)

  unfoldable pub get_dates : Text → Request → Http (List Text)
  get_dates camera r = of_auth (require_auth cfg codec now r) (
      seq (validate_path_param camera)
        (list_folder fs iterdir (join_path captures_dir camera) dates_of))

  unfoldable pub get_images : Text → Text → Request → Http (List Text)
  get_images camera date r = of_auth (require_auth cfg codec now r) (
      seq (validate_path_param camera) (
        seq (validate_path_param date)
          (list_folder fs iterdir (join_path (join_path captures_dir camera) date) images_of)))
