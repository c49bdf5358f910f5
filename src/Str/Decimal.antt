-- ===== src/Str/Decimal.antt =====
-- `str(n)` and `int(s)` for numbers in decimal digits.
use intruder_watch.Base.{
  ℕ, zero, suc, ◌+◌, ◌*◌, ◌-◌, ◌/◌, ◌%◌, ◌<◌, ◌≤◌, ◌≡◌, ◌⊎◌, refl, Bool, true, false, [], ◌∷◌,
  arith, some, none, Option, All, All-append, ◌==◌, ltb, leb, ◌&&◌, if◌then◌else◌,
}
use intruder_watch.Base.Int.{ℤ, pos, negsuc}
use mathlib.Core.List.{reverse, reverse-append, reverse-reverse}
use intruder_watch.Str.{Text, strip, lstrip}
use intruder_watch.Str.Equal.{Lacks}

-- The digits of `n` in front of `out`; a round for each digit, so `n + 1` rounds are enough.
show_digits : ℕ → ℕ → Text → Text
show_digits zero n out = out
show_digits (suc f) n out =
    let rest = show_digits f (n / 10) ((b'0' + n % 10) ∷ out) in
    if ltb n 10 then (b'0' + n) ∷ out else rest

-- `str(n)`
unfoldable pub show : ℕ → Text
unfolding show_digits
show n = show_digits (suc n) n []

unfoldable pub show_ℤ : ℤ → Text
unfolding show
show_ℤ (pos n) = show n
show_ℤ (negsuc n) = b'-' ∷ show (suc n)

is_digit : ℕ → Bool
is_digit c = leb b'0' c && leb c b'9'

-- The digits behind what has been read; one underscore may stand between two digits. `after` says
-- that the last character was a digit.
scan : Text → ℕ → Bool → Option ℕ
unfolding is_digit
scan [] n after = if after then some n else none
scan (c ∷ s) n after =
    let digit = scan s (n * 10 + (c - b'0')) true in
    let underscore = scan s n false in
    if is_digit c then digit else if c == b'_' && after then underscore else none

abbrev to_ℤ : Option ℕ → Option ℤ
to_ℤ none = none
to_ℤ (some n) = some (pos n)

abbrev negate : Option ℕ → Option ℤ
negate none = none
negate (some zero) = some (pos 0)
negate (some (suc n)) = some (negsuc n)

signed : Text → Option ℤ
unfolding scan
signed [] = none
signed (c ∷ s) =
    if c == b'-'
    then negate (scan s 0 false)
    else if c == b'+'
    then to_ℤ (scan s 0 false)
    else to_ℤ (scan (c ∷ s) 0 false)

-- `int(s)`; `none` is the `ValueError`. Digits are the ASCII ones.
unfoldable pub parse_int : Text → Option ℤ
unfolding signed strip
parse_int s = signed (strip s)

-- A text of digits alone.
abbrev pub IsNumber : Text → Type 0
IsNumber = All (λ c. (b'0' ≤ c) × (c ≤ b'9'))

show_digits-IsNumber :
    (f n : ℕ) (out : Text) → n < f → IsNumber out → IsNumber (show_digits f n out)
unfolding show_digits
show_digits-IsNumber zero n out h k = k
show_digits-IsNumber (suc f) n out h k =
    ground (arith, show_digits-IsNumber f (n / 10) ((b'0' + n % 10) ∷ out))

pub show-IsNumber : (n : ℕ) → IsNumber (show n)
unfolding show
show-IsNumber n = show_digits-IsNumber (suc n) n [] (omega arith) tt

scan-show_digits :
    (f n : ℕ) (out : Text) (b : Bool) → n < f → scan (show_digits f n out) 0 b ≡ scan out n true
unfolding show_digits scan
scan-show_digits zero n out b h = elim h [ ]
scan-show_digits (suc f) n out b h =
    ground (arith, scan-show_digits f (n / 10) ((b'0' + n % 10) ∷ out) b)

signed-IsNumber : (s : Text) → IsNumber s → signed s ≡ to_ℤ (scan s 0 false)
unfolding signed
signed-IsNumber [] h = refl
signed-IsNumber (c ∷ s) h = ground arith

lstrip-IsNumber : (s : Text) → IsNumber s → lstrip s ≡ s
unfolding lstrip
lstrip-IsNumber [] h = refl
lstrip-IsNumber (c ∷ s) h = ground arith

reverse-IsNumber : (s : Text) → IsNumber s → IsNumber (reverse s)
reverse-IsNumber [] h = tt
reverse-IsNumber (c ∷ s) h =
    rw (reverse-append (c ∷ []) s)
      (All-append _ (reverse s) (c ∷ []) (reverse-IsNumber s h.1) (h.0, tt))

pub strip-IsNumber : (s : Text) → IsNumber s → strip s ≡ s
unfolding strip
strip-IsNumber s h =
    simp (lstrip-IsNumber s h, lstrip-IsNumber (reverse s) (reverse-IsNumber s h), reverse-reverse)

-- `int(str(n))` is `n`.
pub parse_int-show : (n : ℕ) → parse_int (show n) ≡ some (pos n)
unfolding parse_int
parse_int-show n =
    rw (strip-IsNumber (show n) (show-IsNumber n), signed-IsNumber (show n) (show-IsNumber n))
      (unfold show in rw (scan-show_digits (suc n) n [] false (omega arith)) refl)

-- A number's digits hold no character outside `0` to `9`.
pub IsNumber-Lacks : (c : ℕ) (s : Text) → c < b'0' ⊎ b'9' < c → IsNumber s → Lacks c s
IsNumber-Lacks c [] h k = tt
IsNumber-Lacks c (x ∷ s) h k = (ground arith, IsNumber-Lacks c s h k.1)
