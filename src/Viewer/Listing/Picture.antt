-- ===== src/Viewer/Listing/Picture.antt =====
-- Which entries the viewer lists as images (microservices/viewer_service/viewer_service.py), by the
-- ends of their names.
use intruder_watch.Base.{
  ◌≡◌, ◌∙◌, [], none, some, true, false, inl, inr, refl, sym, ℕ, Bool, ◌∷◌, ◌||◌, ◌&&◌, arith,
  Bool-cases, Option-cases, ◌==◌,
}
use intruder_watch.Str.{Text, codes, text_eq}
use intruder_watch.Str.Equal.{Lacks}
use intruder_watch.Viewer.Listing.{Entry, lower, from_dot, more_than_dot, suffix, is_image}

-- A text ends in another, in lower case.
unfoldable pub ends_in : Text → Text → Bool
ends_in e [] = false
ends_in e (c ∷ s) = text_eq (lower (c ∷ s)) e || ends_in e s

-- A name that ends so behind one character at least.
unfoldable pub has_extension : Text → Text → Bool
has_extension e [] = false
has_extension e (c ∷ s) = ends_in e s

-- A file whose name ends in .png, .jpg or .jpeg, in any case, behind one character at least.
unfoldable pub is_picture : Entry → Bool
is_picture f =
    f.is_file
    && (has_extension (codes ".png") f.name
        || has_extension (codes ".jpg") f.name
        || has_extension (codes ".jpeg") f.name)

-- What is an extension holds no dot.
no_dot : (s e : Text) → Lacks b'.' e → text_eq (lower s) e ≡ true → from_dot s ≡ none
unfolding from_dot text_eq
no_dot [] e h t = refl
no_dot (c ∷ s) [] h t = cc
no_dot (c ∷ s) (x ∷ e) (n, h) t = elim (Bool-cases (text_eq (lower s) e)) [
  | inl same ↦ rw (no_dot s e h same) (ground arith)
  | inr other ↦ absurd (ground arith)
]

more_than_dot-none :
    (x : ℕ) (e : Text) → text_eq (lower (more_than_dot none)) (b'.' ∷ x ∷ e) ≡ false
unfolding text_eq
more_than_dot-none x e = refl

more_than_dot-some :
    (c x : ℕ) (s e : Text)
    → text_eq (lower (more_than_dot (some (c ∷ s)))) (b'.' ∷ x ∷ e)
      ≡ text_eq (lower (c ∷ s)) (b'.' ∷ x ∷ e)
unfolding text_eq
more_than_dot-some c x [] e = ground arith
more_than_dot-some c x (d ∷ s) e = refl

-- The suffix of a name is an extension where the name ends in it.
from_dot-ends_in :
    (s : Text) (x : ℕ) (e : Text)
    → Lacks b'.' (x ∷ e)
    → ends_in (b'.' ∷ x ∷ e) s ≡ text_eq (lower (more_than_dot (from_dot s))) (b'.' ∷ x ∷ e)
unfolding ends_in from_dot
from_dot-ends_in [] x e h = unfold text_eq in refl
from_dot-ends_in (c ∷ s) x e h = elim (Option-cases (from_dot s)) [
  | inl nowhere ↦
      let ih : ends_in (b'.' ∷ x ∷ e) s ≡ false =
        (rw nowhere at (from_dot-ends_in s x e h)) ∙ more_than_dot-none x e in
      elim (Bool-cases (c == b'.')) [
        | inl dot ↦ rw (ih, nowhere, dot, more_than_dot-some c x s e) (ground arith)
        | inr other ↦ rw (ih, nowhere, other) (unfold text_eq in ground arith)
      ]
  | inr (t, found) ↦
      let ih : ends_in (b'.' ∷ x ∷ e) s ≡ text_eq (lower (more_than_dot (some t))) (b'.' ∷ x ∷ e) =
        rw found at (from_dot-ends_in s x e h) in
      elim (Bool-cases (text_eq (lower s) (x ∷ e))) [
        | inl same ↦ absurd (cc (no_dot s (x ∷ e) h same, found))
        | inr other ↦ rw (ih, found) (unfold text_eq in ground (arith, other))
      ]
]

has_extension-suffix :
    (s : Text) (x : ℕ) (e : Text)
    → Lacks b'.' (x ∷ e)
    → text_eq (lower (suffix s)) (b'.' ∷ x ∷ e) ≡ has_extension (b'.' ∷ x ∷ e) s
unfolding has_extension suffix
has_extension-suffix [] x e h = unfold text_eq in refl
has_extension-suffix (c ∷ s) x e h = sym (from_dot-ends_in s x e h)

-- The viewer's test of an entry is that.
pub is_image-is_picture : (f : Entry) → is_image f ≡ is_picture f
unfolding is_image is_picture
is_image-is_picture f =
    rw
      (
        has_extension-suffix f.name b'p' (codes "ng") (omega arith),
        has_extension-suffix f.name b'j' (codes "pg") (omega arith),
        has_extension-suffix f.name b'j' (codes "peg") (omega arith),
      )
      refl
