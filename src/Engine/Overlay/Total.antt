-- ===== src/Engine/Overlay/Total.antt =====
-- The overlay is drawn inside the frame (microservices/frame_capturer/snapshot.go).
use intruder_watch.Engine.Zone.{Zone}
use intruder_watch.Engine.Motion.{set}
use intruder_watch.Engine.Motion.Mask.{place-lt}
use intruder_watch.Engine.Config.Zones.{parse_exclude_zones}
use intruder_watch.Engine.Config.Zones.Bounds.{fits, Fits, parse_exclude_zones-Fits}
use intruder_watch.Engine.Overlay.{
  Drawing, continue_with, ◌>=>◌, write, draw_if, between, at_most, is_inside, is_on_line, put,
  grid_columns, grid_rows, horizontal, vertical, border, crosshatch, draw_zone, draw_zones,
  draw_visual_overlay,
}
use intruder_watch.Str.{Text}
use intruder_watch.Base.Loops.{for_range, for_range_total}
use intruder_watch.Base.Int.{ℤ, pos, negsuc, pos_part, ltb_ℤ, ◌+ℤ◌, ◌-ℤ◌, ◌*ℤ◌}
use intruder_watch.Base.{
  ℕ, zero, suc, ◌+◌, ◌-◌, ◌*◌, ◌/◌, ◌≡◌, ◌≤◌, ◌<◌, ◌∙◌, refl, sym, ap, Bool, true, false, not, ◌&&◌,
  ◌||◌, some, List, [], ◌∷◌, length, arith,
}
use mathlib.Core.Path.{subst}

-- It does not panic on a frame of a length, which it leaves as it is.
abbrev pub Keeps : ℕ → Drawing → Type 0
Keeps n d = (raw : List ℕ) → length raw ≡ n → (out : List ℕ) × (d raw ≡ some out) × (length out ≡ n)

set-Keeps : (n v i : ℕ) → i < n → Keeps n (λ raw. set raw i v)
unfolding set
set-Keeps n v i h [] e = absurd (omega arith)
set-Keeps n v zero h (x ∷ raw) e = (v ∷ raw, refl, e)
set-Keeps zero v (suc i) h (x ∷ raw) e = absurd (omega arith)
set-Keeps (suc n) v (suc i) h (x ∷ raw) e =
    let (out, done, same) = set-Keeps n v i (omega arith) raw (omega arith) in
    (x ∷ out, rw (done, set) refl, ap suc same)

pos-add : (a b : ℕ) → pos a +ℤ pos b ≡ pos (a + b)
unfolding ◌+ℤ◌
pos-add a b = ground arith

pos-mul : (a b : ℕ) → pos a *ℤ pos b ≡ pos (a * b)
unfolding ◌*ℤ◌
pos-mul a b = ground arith

end-of : (a i : ℕ) (b : ℤ) → i < pos_part (b -ℤ pos a) → ltb_ℤ (pos (a + i)) b ≡ true
unfolding ◌-ℤ◌
end-of a i (pos b) h = ground arith
end-of a i (negsuc b) h = ground arith

-- A coordinate before the end of a zone, or before that end less something, is inside.
before_end : (x k size : ℕ) (v : ℤ) → ltb_ℤ (pos x) (at_most size v -ℤ pos k) ≡ true → x < size
unfolding ◌-ℤ◌
before_end x k size (pos v) h = ground arith
before_end x k size (negsuc v) h = ground arith

before_edge : (x size : ℕ) (v : ℤ) → ltb_ℤ (pos x) (at_most size v) ≡ true → x < size
before_edge x size (pos v) h = ground arith
before_edge x size (negsuc v) h = ground arith

ltb_pos : (a b : ℕ) → ltb_ℤ (pos a) (pos b) ≡ true → a < b
ltb_pos a b h = ground arith

inside-pos : (size : ℕ) (v : ℤ) → is_inside size v ≡ true → (x : ℕ) × (v ≡ pos x) × (x < size)
inside-pos size (pos x) h = (x, refl, ground arith)
inside-pos size (negsuc x) h = absurd (ground arith)

both_true : (b c d e : Bool) → (b && c && d && e) ≡ true → (b ≡ true) × (c ≡ true)
both_true true true d e h = (refl, refl)
both_true true false d e h = cc
both_true false c d e h = cc

not_negative : (v : ℤ) → not (ltb_ℤ v (pos 0)) ≡ true → (n : ℕ) × (v ≡ pos n)
not_negative (pos n) h = (n, refl)
not_negative (negsuc n) h = absurd (ground arith)

first_corner :
    (w h : ℕ) (z : Zone)
    → fits w h z ≡ true
    → ((a : ℕ) × (z.x1 ≡ pos a)) × ((c : ℕ) × (z.y1 ≡ pos c))
unfolding fits
first_corner w h z f =
    let (x, y) =
      both_true (not (ltb_ℤ z.x1 (pos 0))) (not (ltb_ℤ z.y1 (pos 0))) (not (ltb_ℤ (pos w) z.x2))
        (not (ltb_ℤ (pos h) z.y2)) f in
    (not_negative z.x1 x, not_negative z.y1 y)

module _ (n : ℕ) where
  chain-Keeps : (d e : Drawing) → Keeps n d → Keeps n e → Keeps n (d >=> e)
  chain-Keeps d e p q raw h =
      let (a, f, ha) = p raw h in let (b, g, hb) = q a ha in (b, ap (continue_with e) f ∙ g, hb)

  draw_if-Keeps : (b : Bool) (d : Drawing) → (b ≡ true → Keeps n d) → Keeps n (draw_if b d)
  draw_if-Keeps true d p raw h = p refl raw h
  draw_if-Keeps false d p raw h = (raw, refl, h)

  for_range-Keeps :
      (m : ℕ) (d : ℕ → Drawing) → ((k : ℕ) → k < m → Keeps n (d k)) → Keeps n (for_range m 0 d)
  for_range-Keeps m d p raw h =
      for_range_total m (λ k r. length r ≡ n) d (λ k r hk hr. p k hk r hr) m 0 raw (omega arith) h

  -- The pixels from one that is not negative on.
  between-Keeps :
      (a : ℕ) (b : ℤ) (d : ℤ → Drawing)
      → ((x : ℕ) → a ≤ x → ltb_ℤ (pos x) b ≡ true → Keeps n (d (pos x)))
      → Keeps n (between (pos a) b d)
  unfolding between
  between-Keeps a b d p raw h =
      for_range-Keeps (pos_part (b -ℤ pos a)) (λ i. d (pos a +ℤ pos i))
        (λ i hi.
          subst (λ z. Keeps n (d z)) {x = pos (a + i)} (sym (pos-add a i))
            (p (a + i) (omega arith) (end-of a i b hi)))
        raw h

  module _ (w h : ℕ) (large : h * w ≤ n) where
    put-Keeps : (v y x : ℕ) → y < h → x < w → Keeps n (put w h v (pos y) (pos x))
    put-Keeps v y x hy hx =
        let inside = place-lt w h x y hx hy in
        subst (λ z. Keeps n (write v z))
          (sym (ap (λ z. z +ℤ pos x) (pos-mul y w) ∙ pos-add (y * w) x))
          (set-Keeps n v (y * w + x) (omega arith))

    grid_columns-Keeps : Keeps n (grid_columns w h)
    unfolding grid_columns
    grid_columns-Keeps =
        for_range-Keeps ((w - 1) / 200) _
          (λ k hk. for_range-Keeps h _ (λ y hy. put-Keeps 240 y (200 * (k + 1)) hy (omega arith)))

    grid_rows-Keeps : Keeps n (grid_rows w h)
    unfolding grid_rows
    grid_rows-Keeps =
        for_range-Keeps ((h - 1) / 200) _
          (λ k hk. for_range-Keeps w _ (λ x hx. put-Keeps 240 (200 * (k + 1)) x (omega arith) hx))

    module _ (a c : ℕ) (x2 y2 : ℤ) where
      horizontal-Keeps :
          (t x : ℕ)
          → x < w
          → Keeps n (horizontal w h (pos a) (pos c) (at_most w x2) (at_most h y2) t (pos x))
      horizontal-Keeps t x hx =
          chain-Keeps _ _
            (draw_if-Keeps _ _ (λ e.
              subst (λ z. Keeps n (put w h 255 z (pos x))) (sym (pos-add c t))
                (put-Keeps 255 (c + t) x
                  (ltb_pos (c + t) h (subst (λ z. ltb_ℤ z (pos h) ≡ true) (pos-add c t) e)) hx)))
            (draw_if-Keeps (is_inside h (at_most h y2 -ℤ pos (1 + t)))
              (put w h 255 (at_most h y2 -ℤ pos (1 + t)) (pos x))
              (λ e.
                let (y, same, hy) = inside-pos h (at_most h y2 -ℤ pos (1 + t)) e in
                subst (λ z. Keeps n (put w h 255 z (pos x))) (sym same) (put-Keeps 255 y x hy hx)))

      vertical-Keeps :
          (t y : ℕ)
          → y < h
          → Keeps n (vertical w h (pos a) (pos c) (at_most w x2) (at_most h y2) t (pos y))
      vertical-Keeps t y hy =
          chain-Keeps _ _
            (draw_if-Keeps _ _ (λ e.
              subst (λ z. Keeps n (put w h 255 (pos y) z)) (sym (pos-add a t))
                (put-Keeps 255 y (a + t) hy
                  (ltb_pos (a + t) w (subst (λ z. ltb_ℤ z (pos w) ≡ true) (pos-add a t) e)))))
            (draw_if-Keeps (is_inside w (at_most w x2 -ℤ pos (1 + t)))
              (put w h 255 (pos y) (at_most w x2 -ℤ pos (1 + t)))
              (λ e.
                let (x, same, hx) = inside-pos w (at_most w x2 -ℤ pos (1 + t)) e in
                subst (λ z. Keeps n (put w h 255 (pos y) z)) (sym same) (put-Keeps 255 y x hy hx)))

      border-Keeps : Keeps n (border w h (pos a) (pos c) (at_most w x2) (at_most h y2))
      unfolding border
      border-Keeps = for_range-Keeps 4 _ (λ t ht.
          chain-Keeps _ _
            (between-Keeps a (at_most w x2) _
              (λ x hx e. horizontal-Keeps t x (before_edge x w x2 e)))
            (between-Keeps c (at_most h y2) _
              (λ y hy e. vertical-Keeps t y (before_edge y h y2 e))))

      abbrev hatch_pixel : ℤ → ℤ → Drawing
      hatch_pixel y x = draw_if (is_on_line (x +ℤ y) || is_on_line (x -ℤ y)) (put w h 220 y x)

      abbrev hatch_row : ℤ → Drawing
      hatch_row y = between (pos a +ℤ pos 4) (at_most w x2 -ℤ pos 4) (hatch_pixel y)

      hatch_row-Keeps : (y : ℕ) → y < h → Keeps n (hatch_row (pos y))
      hatch_row-Keeps y hy =
          subst (λ z. Keeps n (between z (at_most w x2 -ℤ pos 4) (hatch_pixel (pos y))))
            (sym (pos-add a 4))
            (between-Keeps (a + 4) (at_most w x2 -ℤ pos 4) (hatch_pixel (pos y))
              (λ x hx e. draw_if-Keeps _ _ (λ on. put-Keeps 220 y x hy (before_end x 4 w x2 e))))

      crosshatch-Keeps : Keeps n (crosshatch w h (pos a) (pos c) (at_most w x2) (at_most h y2))
      unfolding crosshatch
      crosshatch-Keeps =
          subst (λ z. Keeps n (between z (at_most h y2 -ℤ pos 4) hatch_row)) (sym (pos-add c 4))
            (between-Keeps (c + 4) (at_most h y2 -ℤ pos 4) hatch_row
              (λ y hy e. hatch_row-Keeps y (before_end y 4 h y2 e)))

    -- A zone whose first corner has no negative coordinate.
    draw_zone-Keeps : (z : Zone) → fits w h z ≡ true → Keeps n (draw_zone w h z)
    unfolding draw_zone
    draw_zone-Keeps z f =
        let (x, y) = first_corner w h z f in
        let (a, ea) = x in
        let (c, ec) = y in
        subst
          (λ x1. Keeps n (
            border w h x1 z.y1 (at_most w z.x2) (at_most h z.y2)
            >=> crosshatch w h x1 z.y1 (at_most w z.x2) (at_most h z.y2)))
          (sym ea)
          (subst
            (λ y1. Keeps n (
              border w h (pos a) y1 (at_most w z.x2) (at_most h z.y2)
              >=> crosshatch w h (pos a) y1 (at_most w z.x2) (at_most h z.y2)))
            (sym ec)
            (chain-Keeps _ _ (border-Keeps a c z.x2 z.y2) (crosshatch-Keeps a c z.x2 z.y2)))

    draw_zones-Keeps : (zs : List Zone) → Fits w h zs → Keeps n (draw_zones w h zs)
    unfolding draw_zones
    draw_zones-Keeps [] f raw e = (raw, refl, e)
    draw_zones-Keeps (z ∷ zs) (f, fs) raw e =
        chain-Keeps (draw_zone w h z) (draw_zones w h zs) (draw_zone-Keeps z f)
          (draw_zones-Keeps zs fs) raw e

    draw_visual_overlay-Keeps :
        (zs : List Zone) → Fits w h zs → Keeps n (draw_visual_overlay w h zs)
    unfolding draw_visual_overlay
    draw_visual_overlay-Keeps zs f =
        chain-Keeps _ _ (chain-Keeps _ _ grid_columns-Keeps grid_rows-Keeps) (draw_zones-Keeps zs f)

-- Whatever EXCLUDE_ZONES holds, the overlay is drawn without a panic on a frame of 480 by 96 pixels at
-- least, into a buffer that holds its pixels, and it leaves the length of the buffer.
pub draw_visual_overlay-some :
    (to_lower : ℕ → ℕ) (frame_w frame_h : ℕ) (raw_zones : Text) (raw : List ℕ)
    → 480 ≤ frame_w
    → 96 ≤ frame_h
    → frame_h * frame_w ≤ length raw
    → (out : List ℕ) × (draw_visual_overlay frame_w frame_h
          (parse_exclude_zones to_lower frame_w frame_h raw_zones)
          raw
        ≡ some out)
      × (length out ≡ length raw)
draw_visual_overlay-some to_lower frame_w frame_h raw_zones raw wide tall large =
    draw_visual_overlay-Keeps (length raw) frame_w frame_h large
      (parse_exclude_zones to_lower frame_w frame_h raw_zones)
      (parse_exclude_zones-Fits to_lower frame_w frame_h wide tall raw_zones) raw refl
