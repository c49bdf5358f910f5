-- ===== src/Stub.antt =====
-- A run time for Python to run tests with: floats are hundredths, and a body of one byte stands for
-- a JSON text.
use intruder_watch.Base.{ℕ, ◌*◌, ◌/◌, false, none, List, [], ◌∷◌, ltb, ◌==◌, if◌then◌else◌}
use intruder_watch.Base.Int.{pos, pos_part, ℤ}
use intruder_watch.Base.Result.{Result, ok, err, json_decode_error, value_error}
use intruder_watch.Json.{Json, nil, end, field, str, Python, int}
use intruder_watch.Str.{codes}

abbrev pub payload : ℤ → Json
payload camera = Json.obj (
    field (codes "camera") (int camera) (
      field (codes "timestamp") (str (codes "2026-10-03 02:15:30.1"))
        (field (codes "filename") (str (codes "/app/captures/camera_1/2026-10-03/det.jpg")) end)))

abbrev read : List ℕ → Result Json
read [] = err json_decode_error
read (c ∷ b) =
    if c == 1
    then ok (payload (pos 1))
    else if c == 2
    then ok (payload (pos 2))
    else if c == 3
    then ok (Json.arr nil)
    else err json_decode_error

abbrev pub python : Python
python = record {
  float_of_ℤ = λ z. ok (pos_part z * 100);
  float_of_text = λ s. err value_error;
  int_of_float = λ x. ok (pos (x / 100));
  percent = λ x. ok (pos x);
  is_positive = λ x. ltb 0 x;
  integral = λ x. none;
  str_of = λ v. codes "?";
  equal = λ v w. false;
  loads = read;
}
