-- ===== src/AlertService/Calls/Mask.antt =====
-- What `mask_phone` shows of a number (microservices/alert_service/alert_service.py).
use intruder_watch.Base.{
  ℕ, ◌-◌, ◌≤◌, ◌<◌, ◌≡◌, refl, some, ◌++◌, arith, length, replicate, length-append,
  length-replicate, length-drop, drop-append, ltb, ltb_false→le, Bool-cases, inl, inr, le→ltb_false,
  ltb→lt, lt→ltb, ◌∙◌, sym, [], ◌∷◌,
}
use intruder_watch.Str.{Text, codes, take_last}
use intruder_watch.AlertService.Calls.{mask_phone}

length-take_last : (s : Text) → 4 ≤ length s → length (take_last 4 s) ≡ 4
length-take_last s h = omega (arith, length-drop (length s - 4) s)

mask_phone-long :
    (phone : Text)
    → 4 ≤ length phone
    → mask_phone (some phone) ≡ replicate (length phone - 4) b'*' ++ take_last 4 phone
unfolding mask_phone
mask_phone-long [] h = elim h [ ]
mask_phone-long (c ∷ s) h = rw (le→ltb_false (length (c ∷ s)) 4 h) refl

mask_phone-short : (phone : Text) → length phone < 4 → mask_phone (some phone) ≡ codes "****"
unfolding mask_phone
mask_phone-short [] h = refl
mask_phone-short (c ∷ s) h = rw (lt→ltb (length (c ∷ s)) 4 h) refl

-- A number of four digits or more keeps its length and its last four digits.
pub mask_phone-keeps :
    (phone : Text)
    → 4 ≤ length phone
    → (length (mask_phone (some phone)) ≡ length phone)
      × (take_last 4 (mask_phone (some phone)) ≡ take_last 4 phone)
mask_phone-keeps phone h =
    let stars : Text = replicate (length phone - 4) b'*' in
    let size : length (stars ++ take_last 4 phone) ≡ length phone = omega (
      arith,
      length-append stars (take_last 4 phone),
      length-replicate {A = ℕ} (length phone - 4) b'*',
      length-take_last phone h,
    ) in
    rw (mask_phone-long phone h) (
      size,
      let place : length (stars ++ take_last 4 phone) - 4 ≡ length stars =
            omega (arith, size, length-replicate {A = ℕ} (length phone - 4) b'*') in
          rw place (drop-append stars (take_last 4 phone)),
    )

-- Nothing else of it shows: two numbers of one length with the same last four digits look alike.
pub mask_phone-hides :
    (phone other : Text)
    → length phone ≡ length other
    → take_last 4 phone ≡ take_last 4 other
    → mask_phone (some phone) ≡ mask_phone (some other)
mask_phone-hides phone other hl ht = elim (Bool-cases (ltb (length phone) 4)) [
  | inl short ↦
      mask_phone-short phone (ltb→lt _ _ short)
      ∙ sym (mask_phone-short other (omega (arith, ltb→lt _ _ short)))
  | inr long ↦
      let h : 4 ≤ length phone = ltb_false→le _ _ long in
      rw (mask_phone-long phone h, mask_phone-long other (omega arith), ht, hl) refl
]
