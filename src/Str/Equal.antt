-- ===== src/Str/Equal.antt =====
-- Equality of texts, and what a text lacks.
use intruder_watch.Base.{ℕ, ◌≡◌, ◌≢◌, ◌↔◌, refl, true, false, [], ◌∷◌, arith, All}
use intruder_watch.Str.{Text, text_eq, has_char}

pub text_eq_refl : (s : Text) → text_eq s s ≡ true
unfolding text_eq
text_eq_refl [] = refl
text_eq_refl (c ∷ s) = ground (arith, text_eq_refl s)

pub text_eq→≡ : (s t : Text) → text_eq s t ≡ true → s ≡ t
unfolding text_eq
text_eq→≡ [] [] h = refl
text_eq→≡ [] (d ∷ t) h = cc
text_eq→≡ (c ∷ s) [] h = cc
text_eq→≡ (c ∷ s) (d ∷ t) h = ground (arith, text_eq→≡ s t)

pub text_eq_iff : (s t : Text) → (text_eq s t ≡ true) ↔ (s ≡ t)
text_eq_iff s t = (text_eq→≡ s t, λ e. ground (arith, text_eq_refl s))

-- No character of the text is `c`.
abbrev pub Lacks : ℕ → Text → Type 0
Lacks c = All (λ x. x ≢ c)

pub Lacks→has_char : (c : ℕ) (s : Text) → Lacks c s → has_char c s ≡ false
unfolding has_char
Lacks→has_char c [] h = refl
Lacks→has_char c (x ∷ s) h = ground (arith, Lacks→has_char c s h.1)

pub has_char→Lacks : (c : ℕ) (s : Text) → has_char c s ≡ false → Lacks c s
unfolding has_char
has_char→Lacks c [] h = tt
has_char→Lacks c (x ∷ s) h = ground (arith, has_char→Lacks c s)
