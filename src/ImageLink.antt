-- ===== src/ImageLink.antt =====
-- The way of a picture through the services: the detector saves it under a name
-- (microservices/human_detector/human_detector.py), the alert service turns the name into a link
-- (microservices/alert_service/alert_service.py), and the viewer serves the link
-- (microservices/viewer_service/viewer_service.py).
mod Tests
use intruder_watch.AlertService.Config.{Config as AlertConfig}
use intruder_watch.AlertService.Photo.{image_url, token_query}
use intruder_watch.AlertService.Photo.Link.{path, image_url-path}
use intruder_watch.Detector.Frames.{Config as DetectorConfig, Vision, Delivery, file_of, os_join}
use intruder_watch.Viewer.Config.{Config as ViewerConfig, Codec}
use intruder_watch.Viewer.Auth.{reply, Request}
use intruder_watch.Viewer.Image.{
  FileSystem, captures_dir, join_path, serve_image, bypasses, is_authenticated, find_image,
  check_file,
}
use intruder_watch.Viewer.Image.Access.{IsPart, validate_path_param-IsPart}
use intruder_watch.Viewer.Image.Follow.{Route, Follows, IsPlainPart, IsPlainToken, link_to}
use intruder_watch.Base.Result.{ok}
use intruder_watch.Json.{Json, Python, to_text}
use intruder_watch.Str.{Text, codes, text_eq, truthy, starts_with}
use intruder_watch.Str.Equal.{Lacks, text_eq_refl, text_eq→≡}
use intruder_watch.Base.{
  ℕ, ◌≡◌, ◌∙◌, ◌++◌, ◌∷◌, [], some, none, refl, true, false, arith, ap, append_assoc, inl, inr, ◌≢◌,
  Option, Bool-cases,
}

-- `os.path.join` behind a part without a slash.
os_join-Lacks :
    (c : ℕ) (s part : Text) → Lacks b'/' (c ∷ s) → os_join (c ∷ s) part ≡ c ∷ s ++ b'/' ∷ part
unfolding os_join
os_join-Lacks c [] part (h, u) = ground arith
os_join-Lacks c (x ∷ s) part (h, t) = ap (◌∷◌ c) (os_join-Lacks x s part t)

token_query-code :
    (code : Text) → truthy code ≡ true → token_query (some code) ≡ codes "?token=" ++ code
unfolding token_query
token_query-code [] h = cc
token_query-code (c ∷ code) h = refl

truthy-ne-nil : (s : Text) → s ≢ [] → truthy s ≡ true
truthy-ne-nil [] h = absurd (h refl)
truthy-ne-nil (c ∷ s) h = refl

text_eq-≢ : (s t : Text) → s ≢ t → text_eq s t ≡ false
text_eq-≢ s t h = elim (Bool-cases (text_eq s t)) [
  | inl same ↦ absurd (h (text_eq→≡ s t same))
  | inr other ↦ other
]

-- The folder of a camera, and the name of a picture in the folder of its date.
abbrev camera_folder : Text → Text
camera_folder camera = codes "camera_" ++ camera

abbrev picture_name : Text → Text → Text → Text → Text
picture_name date time_of_day hash instance =
    codes "det_"
    ++ (date ++ (b' ' ∷ time_of_day))
    ++ (b'_' ∷ hash)
    ++ (b'_' ∷ instance)
    ++ codes ".jpg"

module _ {Frame : Type 0} (cfg : DetectorConfig) (py : Python) (vision : Vision Frame)
    (d : Delivery) (camera_id : Json) (hash : Text) where
  abbrev folder : Text
  folder = camera_folder (to_text py camera_id)

  abbrev picture : Text
  picture = picture_name d.date d.time_of_day hash cfg.instance

  file_of-path :
      Lacks b'/' (to_text py camera_id)
      → file_of cfg py vision d camera_id hash ≡ path captures_dir folder d.date picture
  unfolding file_of os_join
  file_of-path h =
      rw
        (
          os_join-Lacks b'_' (to_text py camera_id) d.date (omega arith, h),
          append_assoc (to_text py camera_id) (b'/' ∷ d.date) (b'/' ∷ picture),
        )
        refl

  join_path-picture :
      text_eq d.date (codes ".") ≡ false
      → join_path (join_path (join_path captures_dir folder) d.date) picture
        ≡ path captures_dir folder d.date picture
  unfolding join_path text_eq
  join_path-picture h =
      rw (h, append_assoc (to_text py camera_id) (b'/' ∷ d.date) (b'/' ∷ picture)) refl

  abbrev IsSaved : FileSystem → Text → Type 0
  IsSaved fs p = (fs.resolve p ≡ ok p) × (fs.exists p ≡ ok true) × (fs.is_file p ≡ ok true)

  find_image-picture :
      (fs : FileSystem)
      → text_eq d.date (codes ".") ≡ false
      → fs.resolve captures_dir ≡ ok captures_dir
      → IsSaved fs (path captures_dir folder d.date picture)
      → find_image fs folder d.date picture ≡ reply (path captures_dir folder d.date picture)
  unfolding find_image check_file starts_with
  find_image-picture fs h root (here, there, file) =
      rw (join_path-picture h, here, root, there, file) refl

  -- The link of the alert for a picture that the detector saves, sent by a client and read by the
  -- framework, which carry plain characters through as `Follows` says, arrives at the viewer as
  -- parameters for which it sends that picture, without a session: if both services have the same
  -- access code, the camera, the date and the picture's name are parts of a path, they and the code
  -- are plain, and the picture lies in the captures folder with no symbolic link on the way.
  pub serve_image-file_of :
      (alert : AlertConfig) (viewer : ViewerConfig) (codec : Codec) (fs : FileSystem) (now : ℕ)
      (r : Request) (code : Text) (follow : Text → Option Route)
      → Follows alert.viewer_public_url follow
      → alert.image_access_code ≡ some code
      → viewer.alert_bypass_token ≡ some code
      → IsPlainToken code
      → IsPart folder × IsPlainPart folder
      → IsPart d.date × IsPlainPart d.date
      → IsPart picture × IsPlainPart picture
      → fs.resolve captures_dir ≡ ok captures_dir
      → IsSaved fs (file_of cfg py vision d camera_id hash)
      → (link : Text) × (image_url alert (Json.str (file_of cfg py vision d camera_id hash))
          ≡ ok (some link))
        × ((route : Route) × (follow link ≡ some route)
            × (serve_image viewer codec fs now route.camera route.date route.filename route.token r
                ≡ reply (file_of cfg py vision d camera_id hash)))
  unfolding serve_image is_authenticated bypasses
  serve_image-file_of alert viewer codec fs now r code follow through ea ev plain (pc, uc) (pd, ud)
        (pf, uf) root saved =
      let named = file_of-path pc.1.1.1.1.1.1.1.1 in
      let full = truthy-ne-nil code plain.1 in
      (
        link_to alert.viewer_public_url folder d.date picture code,
        rw
            (
              named,
              image_url-path alert captures_dir folder d.date picture pc.1 pd.1 pf.1,
              ea,
              token_query-code code full,
            )
            refl,
        (
          record { camera = folder; date = d.date; filename = picture; token = some code },
          through folder d.date picture code uc ud uf plain,
          rw
              (
                validate_path_param-IsPart folder pc,
                validate_path_param-IsPart d.date pd,
                validate_path_param-IsPart picture pf,
                ev,
                full,
                text_eq_refl code,
                named,
              )
              (find_image-picture fs (text_eq-≢ d.date (codes ".") ud.2) root (rw named at saved)),
        ),
      )
