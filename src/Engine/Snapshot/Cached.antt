-- ===== src/Engine/Snapshot/Cached.antt =====
-- How old a live snapshot is (microservices/frame_capturer/snapshot.go).
use intruder_watch.Engine.Config.{Config}
use intruder_watch.Engine.Snapshot.{
  SnapshotManager, snapshot, snapshot_at, rendered, update_raw, update_jpeg, get_snapshot,
}
use intruder_watch.Str.{Text}
use intruder_watch.Base.{
  ℕ, ◌+◌, ◌≡◌, ◌<◌, ◌∙◌, refl, sym, Bool, true, ◌&&◌, Option, some, List, [], ◌∷◌, length,
  if◌then◌else◌, lt→ltb, ap, false,
}
use mathlib.Core.Path.{subst}

-- Frames that arrive, with their times.
abbrev pub update_raws : List (List ℕ × ℕ) → SnapshotManager → SnapshotManager
update_raws [] s = s
update_raws ((raw, now) ∷ frames) s = update_raws frames (update_raw raw now s)

abbrev pub last_time : ℕ → List (List ℕ × ℕ) → ℕ
last_time t [] = t
last_time t ((raw, now) ∷ frames) = last_time now frames

update_raws-keeps :
    (frames : List (List ℕ × ℕ)) (s : SnapshotManager) (t : ℕ)
    → s.updated_at ≡ some t
    → ((update_raws frames s).jpeg_bytes ≡ s.jpeg_bytes)
      × ((update_raws frames s).updated_at ≡ some (last_time t frames))
unfolding update_raw
update_raws-keeps [] s t h = (refl, h)
update_raws-keeps ((raw, now) ∷ frames) s t h =
    update_raws-keeps frames (update_raw raw now s) now refl

both : {b c : Bool} → b ≡ true → c ≡ true → (b && c) ≡ true
both {b} {c} h k = rw (h, k) refl

get_snapshot-fresh :
    (cfg : Config) (encode : List ℕ → Option Text) (now t : ℕ) (s : SnapshotManager)
    → s.updated_at ≡ some t
    → 0 < length s.jpeg_bytes
    → now < t + 4000000000
    → get_snapshot cfg encode false now s ≡ some (snapshot s.jpeg_bytes t)
unfolding get_snapshot
get_snapshot-fresh cfg encode now t s h some_bytes fresh =
    ap (snapshot_at cfg encode false now s) h
    ∙ ap (λ b. if b then some (snapshot s.jpeg_bytes t) else some (rendered (encode s.raw_frame) t))
        (both (lt→ltb _ _ some_bytes) (lt→ltb _ _ fresh))

-- A snapshot without the overlay is the JPEG that was made last, whatever frames have arrived behind
-- it and however long ago it was made, and it is dated like the newest of these frames, as long as
-- that is less than four seconds old and the JPEG is not empty.
pub get_snapshot-update_jpeg :
    (cfg : Config) (encode : List ℕ → Option Text) (s : SnapshotManager) (jpeg_bytes : Text)
    (made now : ℕ) (frames : List (List ℕ × ℕ))
    → 0 < length jpeg_bytes
    → now < last_time made frames + 4000000000
    → get_snapshot cfg encode false now (update_raws frames (update_jpeg jpeg_bytes made s))
      ≡ some (snapshot jpeg_bytes (last_time made frames))
unfolding update_jpeg
get_snapshot-update_jpeg cfg encode s jpeg_bytes made now frames some_bytes fresh =
    let (same, dated) = update_raws-keeps frames (update_jpeg jpeg_bytes made s) made refl in
    get_snapshot-fresh cfg encode now (last_time made frames)
      (update_raws frames (update_jpeg jpeg_bytes made s)) dated
      (subst (λ j. 0 < length j) (sym same) some_bytes) fresh
    ∙ ap (λ j. some (snapshot j (last_time made frames))) same
