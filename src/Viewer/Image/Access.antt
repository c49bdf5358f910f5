-- ===== src/Viewer/Image/Access.antt =====
-- Who gets an image, and which (microservices/viewer_service/viewer_service.py).
use intruder_watch.Viewer.Auth.Basic.{get_authenticated_user-some}
use intruder_watch.Str.Equal.{Lacks, Lacks→has_char, has_char→Lacks, text_eq→≡}
use intruder_watch.Viewer.Config.{Config, Codec}
use intruder_watch.Viewer.Auth.{Http, reply, http_exception, fault, Request, get_authenticated_user}
use intruder_watch.Viewer.Image.{
  validate_path_param, seq, FileSystem, check_file, invalid, find_image, join_path,
  is_authenticated, serve_image, captures_dir, bypasses,
}
use intruder_watch.Str.{Text, truthy, contains, starts_with, codes, text_eq}
use intruder_watch.Base.Result.{ok, Result-cases}
use intruder_watch.Base.{
  none, some, true, false, refl, inl, inr, if◌then◌else◌, ◌≡◌, ℕ, arith, Option, ◌∙◌, ap, not, ◌⊎◌,
  Bool-cases, Option-cases,
}

-- A part of a path that names one entry of a folder: not empty, with no slash, no backslash and no
-- two dots in a row.
abbrev pub IsPart : Text → Type 0
IsPart s = (truthy s ≡ true) × Lacks b'/' s × Lacks b'\\' s × (contains (codes "..") s ≡ false)

pub validate_path_param-reply : (s : Text) → validate_path_param s ≡ reply tt → IsPart s
unfolding validate_path_param
validate_path_param-reply s h = (
  ground arith,
  has_char→Lacks b'/' s (ground arith),
  has_char→Lacks b'\\' s (ground arith),
  ground arith,
)

pub validate_path_param-IsPart : (s : Text) → IsPart s → validate_path_param s ≡ reply tt
unfolding validate_path_param
validate_path_param-IsPart s (full, slash, back, dots) =
    rw (full, dots, Lacks→has_char b'/' s slash, Lacks→has_char b'\\' s back) refl

pub seq-reply :
    {A : Type 0} (m : Http (Unit {0})) (k : Http A) {a : A}
    → seq m k ≡ reply a
    → (m ≡ reply tt) × (k ≡ reply a)
seq-reply (reply u) k h = (refl, h)
seq-reply (http_exception status) k h = cc
seq-reply (fault e) k h = cc

module _ (fs : FileSystem) where
  check_file-reply :
      (image base : Text) {path : Text}
      → check_file fs image base ≡ reply path
      → (image ≡ path)
        × (fs.exists path ≡ ok true)
        × (fs.is_file path ≡ ok true)
        × (starts_with path base ≡ true)
  unfolding check_file
  check_file-reply image base h = elim (Result-cases (fs.exists image)) [
    | inl (e, bad) ↦ ground (arith, bad)
    | inr (there, found) ↦ elim (Result-cases (fs.is_file image)) [
      | inl (e, bad) ↦ ground (arith, found, bad)
      | inr (file, good) ↦ ground (arith, found, good)
    ]
  ]

  invalid-reply : {A : Type 0} (m : Http A) {a : A} → invalid m ≡ reply a → m ≡ reply a
  invalid-reply (reply b) h = h
  invalid-reply (http_exception status) h = h
  invalid-reply (fault e) h = cc

  find_image-reply :
      (camera date filename : Text) {path : Text}
      → find_image fs camera date filename ≡ reply path
      → (fs.resolve (join_path (join_path (join_path captures_dir camera) date) filename) ≡ ok path)
        × (fs.exists path ≡ ok true)
        × (fs.is_file path ≡ ok true)
        × ((base : Text) × (fs.resolve captures_dir ≡ ok base) × (starts_with path base ≡ true))
  unfolding find_image
  find_image-reply camera date filename {path} h =
      let target = join_path (join_path (join_path captures_dir camera) date) filename in
      elim (Result-cases (fs.resolve target)) [
        | inl (e, bad) ↦ ground (arith, bad)
        | inr (image, found) ↦ elim (Result-cases (fs.resolve captures_dir)) [
          | inl (e, bad) ↦ ground (arith, found, bad)
          | inr (base, root) ↦
              let (same, there, file, below) =
                check_file-reply image base {path = path}
                  (invalid-reply (check_file fs image base) (rw (found, root) at h)) in
              (found ∙ ap ok same, there, file, (base, root, below))
        ]
      ]

-- A request with the token of ALERT_BYPASS_TOKEN, where one is set and is not empty.
abbrev pub HasToken : Option Text → Option Text → Type 0
HasToken set token =
    (secret : Text) × (set ≡ some secret) × (token ≡ some secret) × (truthy secret ≡ true)

bypasses-HasToken : (set token : Option Text) → bypasses set token ≡ true → HasToken set token
unfolding bypasses
bypasses-HasToken none token h = cc
bypasses-HasToken (some secret) none h = cc
bypasses-HasToken (some secret) (some token) h =
    let same : text_eq token secret ≡ true = ground arith in
    (secret, refl, ap some (text_eq→≡ token secret same), ground arith)

module _ (cfg : Config) (codec : Codec) (fs : FileSystem) (now : ℕ) where
  authenticated :
      (token : Option Text) (r : Request) (k : Http Text) {path : Text}
      → (if not (is_authenticated cfg codec fs now token r) then http_exception 401 else k)
        ≡ reply path
      → (HasToken cfg.alert_bypass_token token
          ⊎ (get_authenticated_user cfg codec now r ≡ some cfg.viewer_username))
        × (k ≡ reply path)
  unfolding is_authenticated
  authenticated token r k h = elim (Bool-cases (bypasses cfg.alert_bypass_token token)) [
    | inl bypass ↦ (inl (bypasses-HasToken _ token bypass), ground (arith, bypass))
    | inr no_bypass ↦ elim (Option-cases (get_authenticated_user cfg codec now r)) [
      | inl nobody ↦ ground (arith, no_bypass, nobody)
      | inr (user, someone) ↦ (
        inr (someone ∙ ap some (get_authenticated_user-some cfg codec now r someone).0),
        ground (arith, no_bypass, someone),
      )
    ]
  ]

  -- An image is sent only to a request whose token is ALERT_BYPASS_TOKEN, if that is set and not
  -- empty, or to one of the authenticated user,
  -- and only if camera, date and file name are parts of a path. What is sent is the file that the
  -- path resolves to; it exists, is a file, and its path begins with that of the captures folder.
  pub serve_image-reply :
      (camera date filename : Text) (token : Option Text) (r : Request) {path : Text}
      → serve_image cfg codec fs now camera date filename token r ≡ reply path
      → (HasToken cfg.alert_bypass_token token
          ⊎ (get_authenticated_user cfg codec now r ≡ some cfg.viewer_username))
        × IsPart camera
        × IsPart date
        × IsPart filename
        × (fs.resolve (join_path (join_path (join_path captures_dir camera) date) filename)
            ≡ ok path)
        × (fs.exists path ≡ ok true)
        × (fs.is_file path ≡ ok true)
        × ((base : Text) × (fs.resolve captures_dir ≡ ok base) × (starts_with path base ≡ true))
  unfolding serve_image
  serve_image-reply camera date filename token r {path} h =
      let (c, h1) = seq-reply (validate_path_param camera) _ h in
      let (d, h2) = seq-reply (validate_path_param date) _ h1 in
      let (f, h3) = seq-reply (validate_path_param filename) _ h2 in
      let (who, found) = authenticated token r (find_image fs camera date filename) h3 in
      let (resolved, there, file, below) = find_image-reply fs camera date filename found in
      (
        who,
        validate_path_param-reply camera c,
        validate_path_param-reply date d,
        validate_path_param-reply filename f,
        resolved,
        there,
        file,
        below,
      )

  -- Without that token and without the user's authentication the answer is 401, whether or not there
  -- is such an image.
  pub serve_image-unauthenticated :
      (camera date filename : Text) (token : Option Text) (r : Request)
      → IsPart camera
      → IsPart date
      → IsPart filename
      → bypasses cfg.alert_bypass_token token ≡ false
      → get_authenticated_user cfg codec now r ≡ none
      → serve_image cfg codec fs now camera date filename token r ≡ http_exception 401
  unfolding serve_image
  serve_image-unauthenticated camera date filename token r hc hd hf nb nu = rw (
    validate_path_param-IsPart camera hc,
    validate_path_param-IsPart date hd,
    validate_path_param-IsPart filename hf,
    nb,
    nu,
  )
