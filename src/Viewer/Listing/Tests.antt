-- ===== src/Viewer/Listing/Tests.antt =====
-- Folders with some entries, listed for a request with the password.
use intruder_watch.Viewer.Config.{Config, Codec, compare_digest}
use intruder_watch.Viewer.Auth.{
  Request, reply, require_auth, get_authenticated_user, get_session_user, basic_user,
  check_credentials,
}
use intruder_watch.Viewer.Image.{FileSystem, captures_dir, join_path, validate_path_param}
use intruder_watch.Viewer.Image.Access.{IsPart}
use intruder_watch.Viewer.Listing.{
  Entry, is_image, newer, descending, name_of, suffix, get_dates, get_images, dates_of, images_of,
  list_folder,
}
use intruder_watch.Viewer.Listing.Picture.{is_picture}
use intruder_watch.Viewer.Listing.Sorted.{get_images-reply}
use intruder_watch.Base.Sort.{sorted, IsSorted}
use intruder_watch.Base.Result.{Result, ok}
use intruder_watch.Base.{
  ℕ, ◌≡◌, ◌⊎◌, refl, true, false, none, some, List, [], ◌∷◌, map, select, leb,
}
use intruder_watch.Str.{
  Text, codes, text_eq, starts_with, is_ascii, split_once, strip, has_char, contains,
}
use intruder_watch.Str.Order.{text_le}
use mathlib.Core.List.{Perm}

abbrev codec : Codec
codec = record {
  sign = λ s. codes "5eed";
  encode = λ s. s;
  decode = λ s. ok s;
  basic_decode = λ s. ok s;
}

abbrev config : Config
config = record {
  viewer_username = codes "admin";
  viewer_password = codes "pw";
  alert_bypass_token = none;
}

abbrev disk : FileSystem
disk = record { resolve = λ p. ok p; exists = λ p. ok true; is_file = λ p. ok true }

abbrev request : Request
request = record { session_token = none; authorization = some (codes "Basic admin:pw") }

abbrev entry : Text → ℕ → Entry
entry name mtime = record { name = name; is_dir = false; is_file = true; mtime = mtime }

abbrev folder : Text → Entry
folder name = record { name = name; is_dir = true; is_file = false; mtime = 0 }

abbrev image_entries : List Entry
image_entries =
    entry (codes "a.jpg") 5
    ∷ entry (codes "notes.txt") 9
    ∷ entry (codes "b.JPEG") 7
    ∷ folder (codes "c.png")
    ∷ entry (codes ".png") 8
    ∷ []

abbrev date_entries : List Entry
date_entries =
    folder (codes "2026-10-02") ∷ entry (codes "readme") 1 ∷ folder (codes "2026-10-03") ∷ []

newest_first :
    get_images config codec disk
      (λ p. ok image_entries)
      0
      (codes "camera_1")
      (codes "2026-10-03")
      request
    ≡ reply (codes "b.JPEG" ∷ codes "a.jpg" ∷ [])
unfolding get_images require_auth get_authenticated_user get_session_user basic_user
    check_credentials compare_digest is_ascii text_eq starts_with split_once strip
    validate_path_param contains has_char list_folder images_of is_image suffix sorted newer
newest_first = refl

latest_date_first :
    get_dates config codec disk (λ p. ok date_entries) 0 (codes "camera_1") request
    ≡ reply (codes "2026-10-03" ∷ codes "2026-10-02" ∷ [])
unfolding get_dates require_auth get_authenticated_user get_session_user basic_user
    check_credentials compare_digest is_ascii text_eq starts_with split_once strip
    validate_path_param contains has_char list_folder dates_of sorted descending text_le
latest_date_first = refl

get_images-reply_example :
    let path = join_path (join_path captures_dir (codes "camera_1")) (codes "2026-10-03") in
    (get_authenticated_user config codec 0 request ≡ some (codes "admin"))
    × IsPart (codes "camera_1")
    × IsPart (codes "2026-10-03")
    × (((disk.exists path ≡ ok false) × (codes "b.JPEG" ∷ codes "a.jpg" ∷ [] ≡ []))
        ⊎ ((entries files : List Entry) × (◌≡◌ {A = Result (List Entry)}
              (ok image_entries)
              (ok entries))
            × Perm files (select is_picture entries)
            × IsSorted (λ f g. leb g.mtime f.mtime) files
            × (codes "b.JPEG" ∷ codes "a.jpg" ∷ [] ≡ map name_of files)))
get_images-reply_example =
    get_images-reply config codec disk (λ p. ok image_entries) 0 (codes "camera_1")
      (codes "2026-10-03") request newest_first
