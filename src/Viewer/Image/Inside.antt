-- ===== src/Viewer/Image/Inside.antt =====
-- Which files the check of the resolved path lets through
-- (microservices/viewer_service/viewer_service.py).
use intruder_watch.Viewer.Image.{FileSystem, find_image, captures_dir, join_path, reply}
use intruder_watch.Str.{starts_with, Text}
use intruder_watch.Base.Result.{ok}
use intruder_watch.Base.{[], true, refl, ◌++◌, ◌≡◌, ◌∷◌, arith}

starts_with-append : (s t : Text) → starts_with (s ++ t) s ≡ true
unfolding starts_with
starts_with-append [] t = refl
starts_with-append (c ∷ s) t = ground (arith, starts_with-append s t)

module _ (fs : FileSystem) where
  -- The check compares texts: a file that lies in another folder, whose name only begins with that
  -- of the captures folder, passes it. A symbolic link in the captures is enough for that.
  pub find_image-sibling :
      (camera date filename rest : Text)
      → fs.resolve captures_dir ≡ ok captures_dir
      → fs.resolve (join_path (join_path (join_path captures_dir camera) date) filename)
        ≡ ok (captures_dir ++ rest)
      → fs.exists (captures_dir ++ rest) ≡ ok true
      → fs.is_file (captures_dir ++ rest) ≡ ok true
      → find_image fs camera date filename ≡ reply (captures_dir ++ rest)
  unfolding find_image
  find_image-sibling camera date filename rest hb hr he hf =
      rw (hr, hb, starts_with-append captures_dir rest, he, hf) refl
