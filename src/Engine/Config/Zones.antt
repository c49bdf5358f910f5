-- ===== src/Engine/Config/Zones.antt =====
-- `parseExcludeZones` of microservices/frame_capturer/config.go. The lower case of a character is a
-- parameter, for it is looked up in the tables of Unicode.
pub mod Bounds
use intruder_watch.Engine.Zone.{Zone}
use intruder_watch.Str.{Text, codes, text_eq, split}
use intruder_watch.Str.Decimal.{show_ℤ}
use intruder_watch.Base.Int.{ℤ, pos, negsuc, ltb_ℤ, sub_ℕ}
use intruder_watch.Base.{
  ℕ, zero, suc, ◌+◌, ◌*◌, ◌-◌, ◌^◌, Bool, ◌&&◌, ◌||◌, Option, none, some, List, [], ◌∷◌, ◌++◌, ltb,
  leb, ◌==◌, map, if◌then◌else◌,
}
use mathlib.Core.List.{reverse}

-- `unicode.IsSpace`
unfoldable pub is_space : ℕ → Bool
is_space c =
    leb 9 c && leb c 13
    || c == 0x20
    || c == 0x85
    || c == 0xa0
    || c == 0x1680
    || leb 0x2000 c && leb c 0x200a
    || c == 0x2028
    || c == 0x2029
    || c == 0x202f
    || c == 0x205f
    || c == 0x3000

unfoldable pub trim_left : Text → Text
trim_left [] = []
trim_left (c ∷ s) = let rest = trim_left s in if is_space c then rest else c ∷ s

-- `strings.TrimSpace`
unfoldable pub trim_space : Text → Text
trim_space s = reverse (trim_left (reverse (trim_left s)))

unfoldable pub digits : Text → ℕ → Option ℕ
digits [] n = some n
digits (c ∷ s) n =
    let rest = digits s (n * 10 + (c - b'0')) in if leb b'0' c && leb c b'9' then rest else none

-- At least one digit.
unfoldable pub number : Text → Option ℕ
number [] = none
number (c ∷ s) = digits (c ∷ s) 0

-- The bounds of an int of 64 bits.
abbrev pub positive : Option ℕ → Option ℤ
positive none = none
positive (some n) = if ltb n (2 ^ 63) then some (pos n) else none

abbrev pub negative : Option ℕ → Option ℤ
negative none = none
negative (some n) = if leb n (2 ^ 63) then some (sub_ℕ 0 n) else none

-- `strconv.Atoi`
unfoldable pub atoi : Text → Option ℤ
atoi [] = none
atoi (c ∷ s) =
    if c == b'-'
    then negative (number s)
    else if c == b'+'
    then positive (number s)
    else positive (number (c ∷ s))

module _ (to_lower : ℕ → ℕ) (frame_w frame_h : ℕ) where
  abbrev zone_at : Text → ℤ → ℤ → ℤ → ℤ → Zone
  zone_at name x1 y1 x2 y2 = record { name = name; x1 = x1; y1 = y1; x2 = x2; y2 = y2 }

  -- The bounds of a zone in the right order and cut at the border of the frame.
  unfoldable pub low : ℤ → ℤ → ℤ
  low a b = let c = if ltb_ℤ b a then b else a in if ltb_ℤ c (pos 0) then pos 0 else c

  unfoldable pub high : ℕ → ℤ → ℤ → ℤ
  high size a b = let c = if ltb_ℤ b a then a else b in if ltb_ℤ (pos size) c then pos size else c

  abbrev pub bracketed : ℤ → ℤ → ℤ → ℤ → Text
  bracketed x1 y1 x2 y2 =
      b'[' ∷ show_ℤ x1 ++ b',' ∷ show_ℤ y1 ++ b',' ∷ show_ℤ x2 ++ b',' ∷ show_ℤ y2 ++ b']' ∷ []

  abbrev pub numeric_zone : ℤ → ℤ → ℤ → ℤ → Zone
  numeric_zone x1 y1 x2 y2 =
      zone_at (bracketed (low x1 x2) (low y1 y2) (high frame_w x1 x2) (high frame_h y1 y2))
        (low x1 x2) (low y1 y2) (high frame_w x1 x2) (high frame_h y1 y2)

  abbrev pub with_numbers : Option ℤ → Option ℤ → Option ℤ → Option ℤ → List Zone
  with_numbers (some x1) (some y1) (some x2) (some y2) = numeric_zone x1 y1 x2 y2 ∷ []
  with_numbers _ _ _ _ = []

  unfoldable pub tuple_zone : List Text → List Zone
  tuple_zone (a ∷ b ∷ c ∷ d ∷ []) =
      with_numbers (atoi (trim_space a)) (atoi (trim_space b)) (atoi (trim_space c))
        (atoi (trim_space d))
  tuple_zone _ = []

  -- The zones of a token, at most one.
  unfoldable pub token_zones : Text → List Zone
  token_zones token =
      if text_eq token []
      then []
      else if text_eq token (codes "top-left-clock")
      then zone_at (codes "top-left-clock") (pos 0) (pos 0) (pos 480) (pos 96) ∷ []
      else if text_eq token (codes "top-right-clock")
      then zone_at (codes "top-right-clock") (sub_ℕ frame_w 448) (pos 0) (pos frame_w) (pos 96) ∷ []
      else if text_eq token (codes "bottom-left-clock")
      then zone_at (codes "bottom-left-clock") (pos 0) (sub_ℕ frame_h 96) (pos 480) (pos frame_h)
        ∷ []
      else if text_eq token (codes "bottom-right-clock")
      then zone_at (codes "bottom-right-clock") (sub_ℕ frame_w 480) (sub_ℕ frame_h 96) (pos frame_w)
          (pos frame_h)
        ∷ []
      else tuple_zone (split b',' token)

  unfoldable pub items_zones : List Text → List Zone
  items_zones [] = []
  items_zones (item ∷ items) = token_zones (trim_space (map to_lower item)) ++ items_zones items

  unfoldable pub parse_exclude_zones : Text → List Zone
  parse_exclude_zones raw =
      let trimmed = trim_space raw in
      if text_eq trimmed [] then [] else items_zones (split b';' trimmed)
