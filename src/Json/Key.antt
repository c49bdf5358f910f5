-- ===== src/Json/Key.antt =====
-- JSON values as the keys of a `dict`: those that can be hashed, and `dict`s with such keys.
use intruder_watch.Base.{
  ℕ, ◌≡◌, ◌↔◌, refl, Bool, true, false, Option, none, some, List, [], ◌∷◌, arith, ◌==◌,
  if◌then◌else◌,
}
use intruder_watch.Base.Int.{ℤ, pos, negsuc}
use intruder_watch.Base.Result.{Result, ok, err, type_error}
use intruder_watch.Str.{Text, text_eq}
use intruder_watch.Str.Equal.{text_eq→≡, text_eq_refl}
use intruder_watch.Json.{Json, Python}

-- Equal numbers are one key, whatever their type: `1`, `1.0` and `True`.
pub data Key : Type 0 where
  nothing : Key
  number : ℤ → Key
  fraction : ℕ → Key
  text : Text → Key

integral_key : Option ℤ → ℕ → Key
integral_key none x = fraction x
integral_key (some z) x = number z

-- The key that a value is hashed as; a list or a dict raises `TypeError`.
unfoldable pub key_of : Python → Json → Result Key
unfolding integral_key
key_of py Json.null = ok nothing
key_of py (Json.bool true) = ok (number (pos 1))
key_of py (Json.bool false) = ok (number (pos 0))
key_of py (Json.int z) = ok (number z)
key_of py (Json.float x) = ok (integral_key (py.integral x) x)
key_of py (Json.str s) = ok (text s)
key_of py (Json.arr xs) = err type_error
key_of py (Json.obj fs) = err type_error

abbrev eq_ℤ : ℤ → ℤ → Bool
eq_ℤ (pos m) (pos n) = m == n
eq_ℤ (negsuc m) (negsuc n) = m == n
eq_ℤ _ _ = false

unfoldable pub key_eq : Key → Key → Bool
unfolding text_eq
key_eq nothing nothing = true
key_eq (number a) (number b) = eq_ℤ a b
key_eq (fraction x) (fraction y) = x == y
key_eq (text s) (text t) = text_eq s t
key_eq _ _ = false

pub key_eq_refl : (k : Key) → key_eq k k ≡ true
unfolding key_eq
key_eq_refl nothing = refl
key_eq_refl (number (pos n)) = ground arith
key_eq_refl (number (negsuc n)) = ground arith
key_eq_refl (fraction x) = ground arith
key_eq_refl (text s) = text_eq_refl s

pub key_eq→≡ : (j k : Key) → key_eq j k ≡ true → j ≡ k
unfolding key_eq
key_eq→≡ (number (pos m)) (number (pos n)) h = ground arith
key_eq→≡ (number (negsuc m)) (number (negsuc n)) h = ground arith
key_eq→≡ (fraction x) (fraction y) h = ground arith
key_eq→≡ (text s) (text t) h = ground (arith, text_eq→≡ s t)
key_eq→≡ nothing nothing h = refl
key_eq→≡ _ _ h = cc

pub key_eq_iff : (j k : Key) → (key_eq j k ≡ true) ↔ (j ≡ k)
key_eq_iff j k = (key_eq→≡ j k, λ e. ground (arith, key_eq_refl j))

abbrev pub Dict : Type 0 → Type 0
Dict V = List (Key × V)

module _ {V : Type 0} where
  -- `d.get(k)`
  unfoldable pub find : Key → Dict V → Option V
  find k [] = none
  find k ((j, v) ∷ d) = if key_eq j k then some v else find k d

  -- `d[k] = v`
  unfoldable pub insert : Key → V → Dict V → Dict V
  insert k v [] = (k, v) ∷ []
  insert k v ((j, w) ∷ d) = if key_eq j k then (j, v) ∷ d else (j, w) ∷ insert k v d

  -- `d.get(k, default)`
  abbrev pub find_or : Key → V → Dict V → V
  find_or k default d = elim (find k d) [ none ↦ default | some v ↦ v ]

  pub find-insert :
      (k j : Key) (v : V) (d : Dict V)
      → find j (insert k v d) ≡ (if key_eq k j then some v else find j d)
  unfolding find insert
  find-insert k j v [] = refl
  find-insert k j v ((i, w) ∷ d) =
      ground (arith, key_eq_iff k j, key_eq_iff i k, key_eq_iff i j, find-insert k j v d)

  pub find_or-insert :
      (k j : Key) (v default : V) (d : Dict V)
      → find_or j default (insert k v d) ≡ (if key_eq k j then v else find_or j default d)
  find_or-insert k j v default d = ground (arith, find-insert k j v d)
