-- ===== src/Viewer/Listing/Sorted.antt =====
-- What the lists hold, in which order, and who gets them
-- (microservices/viewer_service/viewer_service.py).
use mathlib.Core.Path.{subst, fun_ext}
use mathlib.Core.List.{Perm}
use intruder_watch.Viewer.Config.{Config, Codec}
use intruder_watch.Viewer.Auth.{Http, reply, Request, require_auth, get_authenticated_user}
use intruder_watch.Viewer.Auth.Basic.{get_authenticated_user-some}
use intruder_watch.Viewer.Image.{FileSystem, captures_dir, join_path, validate_path_param}
use intruder_watch.Viewer.Image.Access.{IsPart, validate_path_param-reply, seq-reply}
use intruder_watch.Viewer.Listing.{
  Entry, is_image, is_camera, newer, descending, name_of, list_folder, cameras_of, dates_of,
  images_of, of_auth, get_cameras, get_dates, get_images,
}
use intruder_watch.Viewer.Listing.Picture.{is_picture, is_image-is_picture}
use intruder_watch.Base.Sort.{sorted, IsSorted, sorted-perm, sorted-IsSorted}
use intruder_watch.Base.Result.{Result, ok, Result-cases}
use intruder_watch.Base.{
  ℕ, ◌≡◌, ◌⊎◌, true, false, arith, Bool, some, List, [], map, select, leb, inl, inr, ap, sym, ◌∙◌,
  Bool-cases, Option-cases,
}
use intruder_watch.Str.{Text, truthy}
use intruder_watch.Str.Order.{text_le, text_le_trans, text_le-total}

newer_trans : (f g h : Entry) → newer f g ≡ true → newer g h ≡ true → newer f h ≡ true
unfolding newer
newer_trans f g h p q = ground arith

newer-total : (f g : Entry) → newer f g ≡ false → newer g f ≡ true
unfolding newer
newer-total f g p = ground arith

descending_trans :
    (s t u : Text) → descending s t ≡ true → descending t u ≡ true → descending s u ≡ true
unfolding descending
descending_trans s t u p q = text_le_trans u t s q p

descending-total : (s t : Text) → descending s t ≡ false → descending t s ≡ true
unfolding descending
descending-total s t h = text_le-total t s h

-- A list is empty because its folder is not there, or it is made of what the folder holds.
list_folder-reply :
    (fs : FileSystem) (iterdir : Text → Result (List Entry)) (path : Text)
    (listed : List Entry → List Text) {names : List Text}
    → list_folder fs iterdir path listed ≡ reply names
    → ((fs.exists path ≡ ok false) × (names ≡ []))
      ⊎ ((entries : List Entry) × (fs.exists path ≡ ok true)
          × (iterdir path ≡ ok entries)
          × (names ≡ listed entries))
unfolding list_folder
list_folder-reply fs iterdir path listed h = elim (Result-cases (fs.exists path)) [
  | inl (e, bad) ↦ absurd (ground (arith, bad, h))
  | inr (false, gone) ↦ inl (gone, ground (arith, gone, h))
  | inr (true, there) ↦ elim (Result-cases (iterdir path)) [
    | inl (e, bad) ↦ absurd (ground (arith, there, bad, h))
    | inr (entries, read) ↦ inr (entries, there, read, ground (arith, there, read, h))
  ]
]

of_auth-reply :
    {A : Type 0} (cfg : Config) (codec : Codec) (now : ℕ) (r : Request) (k : Http A) {a : A}
    → of_auth (require_auth cfg codec now r) k ≡ reply a
    → (get_authenticated_user cfg codec now r ≡ some cfg.viewer_username) × (k ≡ reply a)
unfolding require_auth
of_auth-reply cfg codec now r k h = elim (Option-cases (get_authenticated_user cfg codec now r)) [
  | inl nobody ↦ absurd (ground (arith, nobody, h))
  | inr (user, someone) ↦ (
    someone ∙ ap some (get_authenticated_user-some cfg codec now r someone).0,
    elim (Bool-cases (truthy user)) [
      | inl full ↦ ground (arith, someone, full, h)
      | inr empty ↦ absurd (ground (arith, someone, empty, h))
    ],
  )
]

module _ (fs : FileSystem) (iterdir : Text → Result (List Entry)) where
  -- The names of a folder's entries that are wanted, in an order; none where it is not there.
  abbrev pub Lists : (Text → Text → Bool) → (Entry → Bool) → Text → List Text → Type 0
  Lists before wanted path names =
      ((fs.exists path ≡ ok false) × (names ≡ []))
      ⊎ ((entries : List Entry) × (iterdir path ≡ ok entries)
          × Perm names (map name_of (select wanted entries))
          × IsSorted before names)

  list_folder-Lists :
      (before : Text → Text → Bool) (wanted : Entry → Bool) (path : Text)
      → ((s t u : Text) → before s t ≡ true → before t u ≡ true → before s u ≡ true)
      → ((s t : Text) → before s t ≡ false → before t s ≡ true)
      → {names : List Text}
      → list_folder fs iterdir path (λ es. sorted before (map name_of (select wanted es)))
        ≡ reply names
      → Lists before wanted path names
  list_folder-Lists before wanted path trans total h =
      elim (list_folder-reply fs iterdir path (λ es. sorted before (map name_of (select wanted es)))
        h) [
          | inl gone ↦ inl gone
          | inr (entries, there, read, e) ↦
              let all = map name_of (select wanted entries) in
              inr (
                entries,
                read,
                subst (λ l. Perm l all) (sym e) (sorted-perm before all),
                subst (IsSorted before) (sym e) (sorted-IsSorted before trans total all),
              )
        ]

module _ (cfg : Config) (codec : Codec) (fs : FileSystem) (iterdir : Text → Result (List Entry))
    (now : ℕ) where
  -- The images of a date are listed only for the authenticated user and only where camera and date
  -- are parts of a path. The list is empty where the folder is not there; otherwise it names the
  -- files of the folder whose names end in .png, .jpg or .jpeg, in any case and behind one character
  -- at least, each as often as it is there and no other; none was modified before one that the list
  -- names behind it.
  pub get_images-reply :
      (camera date : Text) (r : Request) {names : List Text}
      → get_images cfg codec fs iterdir now camera date r ≡ reply names
      → let path = join_path (join_path captures_dir camera) date in
        (get_authenticated_user cfg codec now r ≡ some cfg.viewer_username)
        × IsPart camera
        × IsPart date
        × (((fs.exists path ≡ ok false) × (names ≡ []))
            ⊎ ((entries files : List Entry) × (iterdir path ≡ ok entries)
                × Perm files (select is_picture entries)
                × IsSorted (λ f g. leb g.mtime f.mtime) files
                × (names ≡ map name_of files)))
  unfolding get_images images_of
  get_images-reply camera date r h =
      let (user, h1) = of_auth-reply cfg codec now r _ h in
      let (c, h2) = seq-reply (validate_path_param camera) _ h1 in
      let (d, h3) = seq-reply (validate_path_param date) _ h2 in
      (
        user,
        validate_path_param-reply camera c,
        validate_path_param-reply date d,
        elim (list_folder-reply fs iterdir (join_path (join_path captures_dir camera) date)
            images_of h3) [
              | inl gone ↦ inl gone
              | inr (entries, there, read, e) ↦ inr (
                entries,
                sorted newer (select is_image entries),
                read,
                subst (λ p. Perm (sorted newer (select is_image entries)) (select p entries))
                    (fun_ext is_image-is_picture) (sorted-perm newer (select is_image entries)),
                unfold newer in
                    sorted-IsSorted newer newer_trans newer-total (select is_image entries),
                e,
              )
            ],
      )

  -- The cameras are listed only for the authenticated user: the names of the folders of captures
  -- that begin with camera_, each once for each of them, in ascending order.
  pub get_cameras-reply :
      (r : Request) {names : List Text}
      → get_cameras cfg codec fs iterdir now r ≡ reply names
      → (get_authenticated_user cfg codec now r ≡ some cfg.viewer_username)
        × Lists fs iterdir text_le is_camera captures_dir names
  unfolding get_cameras cameras_of
  get_cameras-reply r h =
      let (user, h1) = of_auth-reply cfg codec now r _ h in
      (
        user,
        list_folder-Lists fs iterdir text_le is_camera captures_dir text_le_trans text_le-total h1,
      )

  -- The dates are listed only for the authenticated user and a camera that is a part of a path: the
  -- names of all folders of the camera, in descending order.
  pub get_dates-reply :
      (camera : Text) (r : Request) {names : List Text}
      → get_dates cfg codec fs iterdir now camera r ≡ reply names
      → (get_authenticated_user cfg codec now r ≡ some cfg.viewer_username)
        × IsPart camera
        × Lists fs iterdir descending (λ d. d.is_dir) (join_path captures_dir camera) names
  unfolding get_dates dates_of
  get_dates-reply camera r h =
      let (user, h1) = of_auth-reply cfg codec now r _ h in
      let (c, h2) = seq-reply (validate_path_param camera) _ h1 in
      (
        user,
        validate_path_param-reply camera c,
        list_folder-Lists fs iterdir descending (λ d. d.is_dir) (join_path captures_dir camera)
            descending_trans descending-total h2,
      )
