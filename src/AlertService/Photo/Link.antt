-- ===== src/AlertService/Photo/Link.antt =====
-- The link that `send_ntfy_photo` builds from the path of an image
-- (microservices/alert_service/alert_service.py).
use native.Mathlib.Nat.{zero-add, suc-add}
use intruder_watch.Base.{
  ℕ, ◌+◌, ◌-◌, ◌≤◌, ◌≡◌, ◌≢◌, refl, List, [], ◌∷◌, ◌++◌, arith, some, length, length-append, le→leb,
}
use intruder_watch.Base.Result.{ok}
use intruder_watch.Json.{Json}
use intruder_watch.Str.{Text, codes, split}
use intruder_watch.Str.Equal.{Lacks}
use intruder_watch.Str.Split.{split-append_any, split-Lacks, split-ne-nil}
use intruder_watch.AlertService.Config.{Config}
use intruder_watch.AlertService.Photo.{get_or, from_end, token_query, image_url}

get_or-append :
    (ws vs : List Text) (i : ℕ) (d : Text) → get_or (ws ++ vs) (length ws + i) d ≡ get_or vs i d
get_or-append [] vs i d = rw zero-add refl
get_or-append (w ∷ ws) vs i d = rw suc-add (get_or-append ws vs i d)

from_end-append :
    (ws vs : List Text) (k i : ℕ) → length vs ≡ k + i → from_end k (ws ++ vs) ≡ get_or vs i []
from_end-append ws vs k i h =
    let place : length (ws ++ vs) - k ≡ length ws + i = omega (arith, length-append ws vs) in
    rw place (get_or-append ws vs i [])

-- The parts of a path that ends in a folder for the camera, one for the date and a file.
abbrev pub path : Text → Text → Text → Text → Text
path root camera date file = root ++ b'/' ∷ (camera ++ b'/' ∷ (date ++ b'/' ∷ file))

pub split-path :
    (root camera date file : Text)
    → Lacks b'/' camera
    → Lacks b'/' date
    → Lacks b'/' file
    → split b'/' (path root camera date file) ≡ split b'/' root ++ camera ∷ date ∷ file ∷ []
split-path root camera date file hc hd hf = rw (
  split-append_any b'/' root (camera ++ b'/' ∷ (date ++ b'/' ∷ file)),
  split-append_any b'/' camera (date ++ b'/' ∷ file),
  split-append_any b'/' date file,
  split-Lacks b'/' camera hc,
  split-Lacks b'/' date hd,
  split-Lacks b'/' file hf,
)

-- For a path below any folder the link names the viewer's route with the path's last three parts,
-- and the code behind it if there is one.
pub image_url-path :
    (cfg : Config) (root camera date file : Text)
    → Lacks b'/' camera
    → Lacks b'/' date
    → Lacks b'/' file
    → image_url cfg (Json.str (path root camera date file))
      ≡ ok (
          some (
            cfg.viewer_public_url
            ++ codes "/images/"
            ++ camera
            ++ codes "/"
            ++ date
            ++ codes "/"
            ++ file
            ++ token_query cfg.image_access_code))
unfolding image_url
image_url-path cfg root camera date file hc hd hf =
    let parts : List Text = camera ∷ date ∷ file ∷ [] in
    rw (
      split-path root camera date file hc hd hf,
      from_end-append (split b'/' root) parts 3 0 (omega arith),
      from_end-append (split b'/' root) parts 2 1 (omega arith),
      from_end-append (split b'/' root) parts 1 2 (omega arith),
      le→leb 4 (length (split b'/' root ++ parts))
          (four_parts (split b'/' root) (split-ne-nil b'/' root)),
    )
  where
    four_parts : (ws : List Text) → ws ≢ [] → 4 ≤ length (ws ++ camera ∷ date ∷ file ∷ [])
    four_parts [] h = absurd (h refl)
    four_parts (w ∷ ws) h = omega (arith, length-append ws (camera ∷ date ∷ file ∷ []))
