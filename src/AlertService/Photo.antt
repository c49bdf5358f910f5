-- ===== src/AlertService/Photo.antt =====
-- `send_ntfy_photo` of microservices/alert_service/alert_service.py: the link to the image, the
-- text of the notification, and its post.
pub mod Link
pub mod Outcome
use intruder_watch.Base.{
  ℕ, zero, suc, ◌-◌, Bool, false, ◌&&◌, ◌||◌, Option, none, some, List, [], ◌∷◌, ◌++◌, leb,
  if◌then◌else◌, length,
}
use intruder_watch.Base.Int.{ℤ, pos, ltb_ℤ}
use intruder_watch.Base.Result.{Result, ok, err, value_error, type_error, attribute_error, Error}
use intruder_watch.Base.Action.{Action, pure, lift, modify, catch, ◌>>=◌, ◌>>◌}
use intruder_watch.Json.{Json, Items, Fields, nil, cons, end, field, Python, to_text}
use intruder_watch.Str.{Text, codes, text_eq, has_char, split}
use intruder_watch.Str.Decimal.{show_ℤ}
use intruder_watch.AlertService.Config.{Config, Alert}
use intruder_watch.AlertService.Http.{Request, Post, raise_for_status}

-- The post that is made, and the two counters, with the camera as their label.
pub data Event : Type 0 where
  posted : Request → Event
  sent : Json → Event
  failed : Json → Error → Event

abbrev pub get_or : List Text → ℕ → Text → Text
get_or [] i d = d
get_or (x ∷ xs) zero d = x
get_or (x ∷ xs) (suc i) d = get_or xs i d

-- `parts[-k]`, for a list that is long enough
abbrev pub from_end : ℕ → List Text → Text
from_end k parts = get_or parts (length parts - k) []

abbrev is_dot : Json → Bool
is_dot (Json.str s) = text_eq s (codes ".")
is_dot _ = false

abbrev dot_item : Items → Bool
dot_item nil = false
dot_item (cons v vs) = is_dot v || dot_item vs

abbrev dot_key : Fields → Bool
dot_key end = false
dot_key (field k v fs) = text_eq k (codes ".") || dot_key fs

-- `timestamp.split(".")[0] if "." in timestamp else timestamp`; the test asks a list for an item
-- and a dict for a key, which have no `split`.
unfoldable pub clean_timestamp : Json → Result Json
clean_timestamp (Json.str s) =
    ok (Json.str (if has_char b'.' s then get_or (split b'.' s) 0 [] else s))
clean_timestamp (Json.arr xs) = if dot_item xs then err attribute_error else ok (Json.arr xs)
clean_timestamp (Json.obj fs) = if dot_key fs then err attribute_error else ok (Json.obj fs)
clean_timestamp _ = err type_error

-- `f"?token={IMAGE_ACCESS_CODE}"`, if there is a code
unfoldable pub token_query : Option Text → Text
token_query none = []
token_query (some []) = []
token_query (some (c ∷ code)) = codes "?token=" ++ c ∷ code

-- The link for the phone; `none` where the path has fewer than four parts.
unfoldable pub image_url : Config → Json → Result (Option Text)
unfolding token_query
image_url cfg (Json.str filename) =
    let parts = split b'/' filename in
    ok (
      if leb 4 (length parts)
      then some (
          cfg.viewer_public_url
          ++ codes "/images/"
          ++ from_end 3 parts
          ++ codes "/"
          ++ from_end 2 parts
          ++ codes "/"
          ++ from_end 1 parts
          ++ token_query cfg.image_access_code)
      else none)
image_url cfg _ = err attribute_error

unfoldable pub has_surrogate : Text → Bool
has_surrogate [] = false
has_surrogate (c ∷ cs) = leb 0xd800 c && leb c 0xdfff || has_surrogate cs

-- `s.encode("utf-8")` raises at a surrogate.
unfoldable pub encode : Text → Result Text
unfolding has_surrogate
encode s = if has_surrogate s then err value_error else ok s

abbrev percent_text : Result ℤ → Result Text
percent_text (ok n) = ok (codes " (" ++ show_ℤ n ++ codes "% conf)")
percent_text (err e) = err e

module _ (py : Python) where
  -- `f" ({int(max_confidence * 100)}% conf)" if max_confidence > 0 else ""`
  unfoldable pub conf_text : ℕ → Result Text
  conf_text c = if py.is_positive c then percent_text (py.percent c) else ok []

  -- Title, message and tags.
  unfoldable pub wording : Alert → Text → Text → Text × Text × Text
  wording a conf clean =
      if ltb_ℤ (pos 1) a.human_count
      then (
        codes "INTRUDER: Camera "
            ++ to_text py a.camera_id
            ++ codes " ("
            ++ show_ℤ a.human_count
            ++ codes " Persons)",
        show_ℤ a.human_count ++ codes " persons detected" ++ conf ++ codes " at " ++ clean,
        codes "rotating_light,warning,camera",
      )
      else (
        codes "Intruder: Camera " ++ to_text py a.camera_id,
        codes "Person detected" ++ conf ++ codes " at " ++ clean,
        codes "rotating_light,camera",
      )

module _ (cfg : Config) (py : Python) (post : Post) where
  -- The body of the `try`, behind the early return.
  unfoldable pub post_photo : Alert → Json → Text → Action (List Event) Unit
  unfolding conf_text wording encode
  post_photo a clean url = do
    conf ← lift (conf_text py a.max_confidence)
    let words = wording py a conf (to_text py clean)
    message ← lift (encode words.1)
    let request : Request = record {
      url = cfg.ntfy_internal_url ++ codes "/intruder-alerts";
      title = words.0;
      priority = codes "5";
      tags = words.2;
      attach = some url;
      body = message;
    }
    modify (λ es. posted request ∷ es)
    status ← lift (post request)
    lift (raise_for_status status)
    modify (λ es. sent a.camera_id ∷ es)

  abbrev post_if : Alert → Json → Option Text → Action (List Event) Unit
  post_if a clean none = pure tt
  post_if a clean (some url) = post_photo a clean url

  unfoldable pub send_ntfy_photo : Alert → Action (List Event) Unit
  unfolding image_url
  send_ntfy_photo a = do
    clean ← lift (clean_timestamp a.timestamp)
    catch (do link ← lift (image_url cfg a.filename); post_if a clean link)
        (λ e. modify (λ es. failed a.camera_id e ∷ es))
