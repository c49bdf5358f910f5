-- ===== src/Json.antt =====
-- JSON values as `json.loads` returns them, and the Python operations that the services apply to
-- them: `d.get(k, v)`, `bool(v)`, `int(v)`, `float(v)`, `str(v)`, and values as keys of a `dict`.
-- A float is the pattern of its 64 bits.
pub mod Key
use Prim.Native.Nat.{◌^◌, ◌%◌}
use intruder_watch.Base.{
  ℕ, zero, Bool, true, false, not, Option, none, some, List, ◌==◌, if◌then◌else◌,
}
use intruder_watch.Base.Int.{ℤ, pos}
use intruder_watch.Base.Result.{Error, Result, ok, err, value_error, type_error, attribute_error}
use intruder_watch.Str.{Text, codes, text_eq, truthy}
use intruder_watch.Str.Decimal.{show_ℤ, parse_int}

mutual
  pub data Json : Type 0 where
    null : Json
    bool : Bool → Json
    int : ℤ → Json
    float : ℕ → Json
    str : Text → Json
    arr : Items → Json
    obj : Fields → Json

  pub data Items : Type 0 where
    nil : Items
    cons : Json → Items → Items

  -- The entries of a `dict`.
  pub data Fields : Type 0 where
    end : Fields
    field : Text → Json → Fields → Fields

-- What the services use of Python's run time and that is not modelled: the arithmetic of floats,
-- the text of a value that is no text and no number, and the decoding of a message's body.
pub record Python : Type 0 where
  -- `float(z)` of an integer, and `float(s)` of a text
  pub float_of_ℤ : ℤ → Result ℕ
  pub float_of_text : Text → Result ℕ
  -- `int(x)`, and `int(x * 100)`
  pub int_of_float : ℕ → Result ℤ
  pub percent : ℕ → Result ℤ
  -- `x > 0`
  pub is_positive : ℕ → Bool
  -- the integer that equals `x`, if there is one
  pub integral : ℕ → Option ℤ
  -- `str(v)` where `v` is a float, a list or a dict
  pub str_of : Json → Text
  -- `v == w` where neither is a text or None
  pub equal : Json → Json → Bool
  -- `json.loads(body.decode("utf-8"))`
  pub loads : List ℕ → Result Json

unfoldable pub lookup : Text → Fields → Option Json
unfolding text_eq
lookup k end = none
lookup k (field j v fs) = if text_eq j k then some v else lookup k fs

abbrev or_default : Option Json → Json → Json
or_default none d = d
or_default (some v) d = v

-- `v.get(k, d)`
unfoldable pub get : Json → Text → Json → Result Json
unfolding lookup
get (obj fs) k d = ok (or_default (lookup k fs) d)
get _ k d = err attribute_error

-- `bool(v)`
unfoldable pub is_true : Json → Bool
is_true null = false
is_true (bool b) = b
is_true (int (pos zero)) = false
is_true (int _) = true
is_true (float x) = not (x % 2 ^ 63 == 0)
is_true (str s) = truthy s
is_true (arr nil) = false
is_true (arr _) = true
is_true (obj end) = false
is_true (obj _) = true

abbrev or_raise {ℓ} : {A : Type ℓ} → Option A → Error → Result A
or_raise none e = err e
or_raise (some a) e = ok a

abbrev bool_int : Bool → ℤ
bool_int true = pos 1
bool_int false = pos 0

module _ (py : Python) where
  -- `int(v)`
  unfoldable pub to_int : Json → Result ℤ
  to_int (bool b) = ok (bool_int b)
  to_int (int z) = ok z
  to_int (float x) = py.int_of_float x
  to_int (str s) = or_raise (parse_int s) value_error
  to_int _ = err type_error

  -- `float(v)`
  unfoldable pub to_float : Json → Result ℕ
  to_float (bool b) = py.float_of_ℤ (bool_int b)
  to_float (int z) = py.float_of_ℤ z
  to_float (float x) = ok x
  to_float (str s) = py.float_of_text s
  to_float _ = err type_error

  -- `str(v)`
  unfoldable pub to_text : Json → Text
  to_text null = codes "None"
  to_text (bool true) = codes "True"
  to_text (bool false) = codes "False"
  to_text (int z) = show_ℤ z
  to_text (str s) = s
  to_text v = py.str_of v

  -- `v == w`
  unfoldable pub json_eq : Json → Json → Bool
  json_eq (str s) (str t) = text_eq s t
  json_eq null null = true
  json_eq (str s) _ = false
  json_eq null _ = false
  json_eq _ (str t) = false
  json_eq _ null = false
  json_eq v w = py.equal v w
