-- ===== src/ImageLink/Tests.antt =====
-- A picture of camera 7, behind its link.
use intruder_watch.Str.Split.{split_once-append, split-append, split-Lacks}
use intruder_watch.Str.Equal.{Lacks}
use intruder_watch.Base.Int.{pos}
use intruder_watch.ImageLink.{serve_image-file_of}
use intruder_watch.AlertService.Config.{Config as AlertConfig}
use intruder_watch.AlertService.Photo.{image_url}
use intruder_watch.Detector.Frames.{Config as DetectorConfig, Vision, Delivery, file_of}
use intruder_watch.Viewer.Config.{Config as ViewerConfig, Codec}
use intruder_watch.Viewer.Auth.{reply, Request}
use intruder_watch.Viewer.Image.{FileSystem, serve_image}
use intruder_watch.Viewer.Image.Access.{IsPart}
use intruder_watch.Viewer.Image.Follow.{
  link_to, Route, Follows, IsPlainPart, IsPlainToken, is_plain, is_plain_query,
}
use intruder_watch.Stub.{python}
use intruder_watch.Base.Result.{ok}
use intruder_watch.Json.{str, to_text}
use intruder_watch.Str.{Text, codes, contains, has_char, split_once, split}
use intruder_watch.Base.{
  ℕ, [], ◌++◌, ◌≡◌, false, true, some, none, refl, arith, List, Option, All, drop, ◌∷◌, length, ◌+◌,
  All-append, append_assoc, suc, ap, Bool, ◌∙◌, ◌&&◌,
}

abbrev vision : Vision ℕ
vision = record { decode = λ v. ok none; detect = λ f. ok []; greater = λ x y. false }

abbrev detector : DetectorConfig
detector = record { warmup_limit = 30; instance = codes "a1b2c3" }

abbrev alert : AlertConfig
alert = record {
  alert_cooldown = pos 90;
  ntfy_cooldown = pos 60;
  enable_call_alerts = true;
  alert_recipients = codes "+111";
  ntfy_internal_url = codes "http://ntfy";
  viewer_public_url = codes "https://watch.home";
  image_access_code = some (codes "key");
}

abbrev viewer : ViewerConfig
viewer = record {
  viewer_username = codes "admin";
  viewer_password = codes "pw";
  alert_bypass_token = some (codes "key");
}

abbrev codec : Codec
codec = record {
  sign = λ s. codes "5eed";
  encode = λ s. s;
  decode = λ s. ok s;
  basic_decode = λ s. ok s;
}

-- A disk without symbolic links.
abbrev disk : FileSystem
disk = record { resolve = λ p. ok p; exists = λ p. ok true; is_file = λ p. ok true }

abbrev nobody : Request
nobody = record { session_token = none; authorization = none }

abbrev delivery : Delivery
delivery = record {
  now = 5;
  date = codes "2026-10-03";
  time_of_day = codes "02:15:30.000001";
  tag = 7;
  body = [];
  ack = ok tt;
  ack_again = ok tt;
}

abbrev name : Text
name = codes "det_2026-10-03 02:15:30.000001_c0ffee42_a1b2c3.jpg"

abbrev saved_as : Text
saved_as = file_of detector python vision delivery (str (codes "7")) (codes "c0ffee42")

folder-IsPart : IsPart (codes "camera_" ++ to_text python (str (codes "7")))
unfolding contains to_text
folder-IsPart = (refl, omega arith, omega arith, refl)

date-IsPart : IsPart (codes "2026-10-03")
unfolding contains
date-IsPart = (refl, omega arith, omega arith, refl)

name-IsPart : IsPart name
unfolding contains
name-IsPart = (refl, omega arith, omega arith, refl)

-- A client, server and framework for links of nothing but plain characters: the parts behind the
-- base, and the token behind the first question mark.
abbrev route_of : List Text → Option Text → Option Route
route_of (camera ∷ date ∷ filename ∷ []) (some query) =
    some (record { camera = camera; date = date; filename = filename; token = some (drop 6 query) })
route_of parts query = none

unfoldable follow_plain : Text → Text → Option Route
follow_plain base link =
    let (path, query) = split_once b'?' (drop (length base + 8) link) in
    route_of (split b'/' path) query

plain-Lacks : (c : ℕ) (s : Text) → is_plain c ≡ false → All (λ x. is_plain x ≡ true) s → Lacks c s
plain-Lacks c [] h a = tt
plain-Lacks c (x ∷ s) h (p, a) = (λ e. cc (p, h, e), plain-Lacks c s h a)

drop-more : (s t : Text) (n : ℕ) → drop (length s + n) (s ++ t) ≡ drop n t
drop-more [] t n = ap (λ k. drop k t) (omega arith)
drop-more (c ∷ s) t n =
    let e : suc (length s) + n ≡ suc (length s + n) = omega arith in
    ap (λ k. drop k (c ∷ (s ++ t))) e ∙ drop-more s t n

link_to-right :
    (base camera date filename token : Text)
    → link_to base camera date filename token
      ≡ base
        ++ (codes "/images/"
            ++ (camera ++ b'/' ∷ (date ++ b'/' ∷ (filename ++ b'?' ∷ (codes "token=" ++ token)))))
link_to-right base camera date filename token =
    rw (append_assoc, append_assoc, append_assoc, append_assoc, append_assoc, append_assoc) refl

follow_plain-Follows : (base : Text) → Follows base (follow_plain base)
unfolding follow_plain
follow_plain-Follows base camera date filename token pc pd pf t =
    let query = codes "token=" ++ token in
    let slash : is_plain b'/' ≡ false = unfold has_char in refl in
    let mark : is_plain b'?' ≡ false = unfold has_char in refl in
    let path = camera ++ b'/' ∷ (date ++ b'/' ∷ filename) in
    let plain : Lacks b'?' path =
      All-append _ camera (b'/' ∷ (date ++ b'/' ∷ filename)) (plain-Lacks b'?' camera mark pc.0) (
        omega arith,
        All-append _ date (b'/' ∷ filename) (plain-Lacks b'?' date mark pd.0)
            (omega arith, plain-Lacks b'?' filename mark pf.0),
      ) in
    let e : camera ++ b'/' ∷ (date ++ b'/' ∷ (filename ++ b'?' ∷ query)) ≡ path ++ b'?' ∷ query =
      rw
        (
          append_assoc camera (b'/' ∷ (date ++ b'/' ∷ filename)) (b'?' ∷ query),
          append_assoc date (b'/' ∷ filename) (b'?' ∷ query),
        )
        refl in
    let behind_base : drop (length base + 8) (link_to base camera date filename token)
        ≡ path ++ b'?' ∷ query =
      ap (drop (length base + 8)) (link_to-right base camera date filename token)
      ∙ drop-more base
          (codes "/images/" ++ (camera ++ b'/' ∷ (date ++ b'/' ∷ (filename ++ b'?' ∷ query)))) 8
      ∙ e in
    rw
      (
        behind_base,
        split_once-append b'?' path query plain,
        split-append b'/' camera (date ++ b'/' ∷ filename) (plain-Lacks b'/' camera slash pc.0),
        split-append b'/' date filename (plain-Lacks b'/' date slash pd.0),
        split-Lacks b'/' filename (plain-Lacks b'/' filename slash pf.0),
      )
      refl

every : (ℕ → Bool) → Text → Bool
every p [] = true
every p (c ∷ s) = p c && every p s

every-All : (p : ℕ → Bool) (s : Text) → every p s ≡ true → All (λ c. p c ≡ true) s
unfolding every
every-All p [] h = tt
every-All p (c ∷ s) h =
    let rest : every p s ≡ true = ground arith in (ground arith, every-All p s rest)

folder-IsPlainPart : IsPlainPart (codes "camera_" ++ to_text python (str (codes "7")))
unfolding to_text has_char
folder-IsPlainPart =
    (every-All is_plain (codes "camera_7") (unfold every in refl), λ e. cc e, λ e. cc e, λ e. cc e)

name-IsPlainPart : IsPlainPart name
unfolding has_char
name-IsPlainPart =
    (every-All is_plain (name) (unfold every in refl), λ e. cc e, λ e. cc e, λ e. cc e)

date-IsPlainPart : IsPlainPart (codes "2026-10-03")
unfolding has_char
date-IsPlainPart = (
  every-All is_plain (codes "2026-10-03") (unfold every in refl),
  λ e. cc e,
  λ e. cc e,
  λ e. cc e,
)

key-IsPlainToken : IsPlainToken (codes "key")
unfolding has_char
key-IsPlainToken = (every-All is_plain_query (codes "key") (unfold every in refl), λ e. cc e)

serve_image-file_of_example :
    (link : Text) × (image_url alert (str saved_as) ≡ ok (some link))
    × ((route : Route) × (follow_plain alert.viewer_public_url link ≡ some route)
        × (serve_image viewer codec disk 0 route.camera route.date route.filename route.token nobody
            ≡ reply saved_as))
serve_image-file_of_example =
    serve_image-file_of detector python vision delivery (str (codes "7")) (codes "c0ffee42") alert
      viewer codec disk 0 nobody (codes "key") (follow_plain alert.viewer_public_url)
      (follow_plain-Follows alert.viewer_public_url) refl refl key-IsPlainToken
      (folder-IsPart, folder-IsPlainPart) (date-IsPart, date-IsPlainPart)
      (name-IsPart, name-IsPlainPart) refl (refl, refl, refl)
