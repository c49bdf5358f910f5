-- ===== src/Viewer/Endpoint.antt =====
-- The label of a request in `monitor_requests` of microservices/viewer_service/viewer_service.py.
pub mod Routes
use intruder_watch.Base.{if◌then◌else◌, length, ◌==◌}
use intruder_watch.Str.{starts_with, split, Text, codes}

unfoldable pub endpoint_label : Text → Text
unfolding starts_with split
endpoint_label path =
    if starts_with path (codes "/images/")
    then codes "/images/{camera}/{date}/{filename}"
    else if starts_with path (codes "/api/cameras/")
    then (let parts = split b'/' path in
        if length parts == 4
        then codes "/api/cameras/{camera}/dates"
        else if length parts == 6
        then codes "/api/cameras/{camera}/dates/{date}/images"
        else path)
    else path
