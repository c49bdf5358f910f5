-- ===== src/Engine/Config/Zones/Bounds.antt =====
-- The excluded zones lie in the frame (microservices/frame_capturer/config.go).
use intruder_watch.Engine.Zone.{Zone}
use intruder_watch.Engine.Config.Zones.{
  low, high, with_numbers, tuple_zone, token_zones, items_zones, parse_exclude_zones, trim_space,
}
use intruder_watch.Str.{Text, codes, text_eq, split}
use intruder_watch.Base.Int.{ℤ, pos, ltb_ℤ}
use intruder_watch.Base.{
  ℕ, ◌≡◌, ◌≤◌, Bool, true, not, ◌&&◌, Option, none, some, List, [], ◌∷◌, All, All-append, inl, inr,
  arith, Bool-cases,
}

-- All pixels of a zone are pixels of the frame.
unfoldable pub fits : ℕ → ℕ → Zone → Bool
fits frame_w frame_h z =
    not (ltb_ℤ z.x1 (pos 0))
    && not (ltb_ℤ z.y1 (pos 0))
    && not (ltb_ℤ (pos frame_w) z.x2)
    && not (ltb_ℤ (pos frame_h) z.y2)

abbrev pub Fits : ℕ → ℕ → List Zone → Type 0
Fits frame_w frame_h zs = All (λ z. fits frame_w frame_h z ≡ true) zs

module _ (to_lower : ℕ → ℕ) (frame_w frame_h : ℕ) (wide : 480 ≤ frame_w) (tall : 96 ≤ frame_h) where
  with_numbers-Fits :
      (a b c d : Option ℤ) → Fits frame_w frame_h (with_numbers to_lower frame_w frame_h a b c d)
  unfolding fits low high
  with_numbers-Fits (some x1) (some y1) (some x2) (some y2) = (ground arith, tt)
  with_numbers-Fits (some x1) (some y1) (some x2) none = tt
  with_numbers-Fits (some x1) (some y1) none d = tt
  with_numbers-Fits (some x1) none c d = tt
  with_numbers-Fits none b c d = tt

  tuple_zone-Fits :
      (parts : List Text) → Fits frame_w frame_h (tuple_zone to_lower frame_w frame_h parts)
  unfolding tuple_zone
  tuple_zone-Fits (a ∷ b ∷ c ∷ d ∷ []) = with_numbers-Fits _ _ _ _
  tuple_zone-Fits [] = tt
  tuple_zone-Fits (a ∷ []) = tt
  tuple_zone-Fits (a ∷ b ∷ []) = tt
  tuple_zone-Fits (a ∷ b ∷ c ∷ []) = tt
  tuple_zone-Fits (a ∷ b ∷ c ∷ d ∷ e ∷ rest) = tt

  token_zones-Fits :
      (token : Text) → Fits frame_w frame_h (token_zones to_lower frame_w frame_h token)
  unfolding token_zones fits
  token_zones-Fits token = elim (Bool-cases (text_eq token [])) [
    | inl e ↦ rw e tt
    | inr e ↦ elim (Bool-cases (text_eq token (codes "top-left-clock"))) [
      | inl f ↦ rw (e, f) (ground arith, tt)
      | inr f ↦ elim (Bool-cases (text_eq token (codes "top-right-clock"))) [
        | inl g ↦ rw (e, f, g) (ground arith, tt)
        | inr g ↦ elim (Bool-cases (text_eq token (codes "bottom-left-clock"))) [
          | inl h ↦ rw (e, f, g, h) (ground arith, tt)
          | inr h ↦ elim (Bool-cases (text_eq token (codes "bottom-right-clock"))) [
            | inl k ↦ rw (e, f, g, h, k) (ground arith, tt)
            | inr k ↦ rw (e, f, g, h, k) (tuple_zone-Fits (split b',' token))
          ]
        ]
      ]
    ]
  ]

  items_zones-Fits :
      (items : List Text) → Fits frame_w frame_h (items_zones to_lower frame_w frame_h items)
  unfolding items_zones
  items_zones-Fits [] = tt
  items_zones-Fits (item ∷ items) =
      All-append (λ z. fits frame_w frame_h z ≡ true) _ _ (token_zones-Fits _)
        (items_zones-Fits items)

  -- Whatever EXCLUDE_ZONES holds, the zones that are read from it lie in the frame, if that has 480
  -- by 96 pixels at least, the size of the largest preset.
  pub parse_exclude_zones-Fits :
      (raw : Text) → Fits frame_w frame_h (parse_exclude_zones to_lower frame_w frame_h raw)
  unfolding parse_exclude_zones
  parse_exclude_zones-Fits raw = elim (Bool-cases (text_eq (trim_space raw) [])) [
    | inl e ↦ rw e tt
    | inr e ↦ rw e (items_zones-Fits (split b';' (trim_space raw)))
  ]
