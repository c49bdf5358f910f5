-- ===== src/Viewer/Image/Follow.antt =====
-- What a link to an image comes to at the viewer's route /images/{camera}/{date}/{filename}
-- (microservices/viewer_service/viewer_service.py). The client that sends the link, and the server
-- and the framework that read it, are a parameter; what is relied on of them is that characters
-- with no meaning in a URL come through.
use intruder_watch.Base.{ℕ, ◌≡◌, ◌++◌, ◌&&◌, not, leb, Bool, true, [], Option, some, All, ◌≢◌}
use intruder_watch.Str.{Text, codes, has_char}

-- The parameters of the route.
pub record Route : Type 0 where
  pub camera : Text
  pub date : Text
  pub filename : Text
  pub token : Option Text

-- Printable ASCII that neither separates parts of a URL nor encodes anything. A space is among it
-- in a path, where a client writes it as %20.
abbrev pub is_plain : ℕ → Bool
is_plain c = leb 32 c && leb c 126 && not (has_char c (codes "/\\?#%"))

abbrev pub is_plain_query : ℕ → Bool
is_plain_query c = leb 33 c && leb c 126 && not (has_char c (codes "#%&+"))

-- A part of a path that comes through: clients leave out a part that is one dot or two.
abbrev pub IsPlainPart : Text → Type 0
IsPlainPart s = All (λ c. is_plain c ≡ true) s × (s ≢ []) × (s ≢ codes ".") × (s ≢ codes "..")

abbrev pub IsPlainToken : Text → Type 0
IsPlainToken s = All (λ c. is_plain_query c ≡ true) s × (s ≢ [])

abbrev pub link_to : Text → Text → Text → Text → Text → Text
link_to base camera date filename token =
    base
    ++ codes "/images/"
    ++ camera
    ++ codes "/"
    ++ date
    ++ codes "/"
    ++ filename
    ++ (codes "?token=" ++ token)

-- A link below the viewer's base whose parts and token come through arrives with them.
abbrev pub Follows : Text → (Text → Option Route) → Type 0
Follows base follow =
    (camera date filename token : Text)
    → IsPlainPart camera
    → IsPlainPart date
    → IsPlainPart filename
    → IsPlainToken token
    → follow (link_to base camera date filename token)
      ≡ some (record { camera = camera; date = date; filename = filename; token = some token })
