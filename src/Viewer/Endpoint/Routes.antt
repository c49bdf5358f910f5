-- ===== src/Viewer/Endpoint/Routes.antt =====
-- Which labels the routes of the viewer get (microservices/viewer_service/viewer_service.py).
use intruder_watch.Str.Split.{split-append}
use intruder_watch.Base.{◌++◌, ◌≡◌, refl, ◌∷◌}
use intruder_watch.Str.Equal.{Lacks}
use intruder_watch.Str.{Text, codes}
use intruder_watch.Viewer.Endpoint.{endpoint_label}

-- Every image counts under one label.
pub endpoint_label-images :
    (rest : Text)
    → endpoint_label (codes "/images/" ++ rest) ≡ codes "/images/{camera}/{date}/{filename}"
unfolding endpoint_label
endpoint_label-images rest = refl

abbrev pub dates_route : Text → Text
dates_route camera = codes "/api/cameras/" ++ (camera ++ codes "/dates")

abbrev pub images_route : Text → Text → Text
images_route camera date =
    codes "/api/cameras/" ++ (camera ++ b'/' ∷ (codes "dates" ++ b'/' ∷ (date ++ codes "/images")))

-- The route of a camera's dates has five parts and the route of its images seven, where the code
-- tests for four and six: each path of either route is a label of its own.
pub endpoint_label-unclassified :
    (camera date : Text)
    → Lacks b'/' camera
    → Lacks b'/' date
    → (endpoint_label (dates_route camera) ≡ dates_route camera)
      × (endpoint_label (images_route camera date) ≡ images_route camera date)
unfolding endpoint_label
endpoint_label-unclassified camera date hc hd = (
  rw (split-append b'/' camera (codes "dates") hc) refl,
  rw
      (
        split-append b'/' camera (codes "dates" ++ b'/' ∷ (date ++ codes "/images")) hc,
        split-append b'/' date (codes "images") hd,
      )
      refl,
)
