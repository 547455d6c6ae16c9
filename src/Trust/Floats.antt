-- ===== src/Trust/Floats.antt =====
-- Python's floats: parameters of the model, with what IEEE 754 and the `json` library promise of
-- them. NaN compares as false with every float, so that the orders are not assumed to be total.
use mdp2p.Prelude.{ℕ, String, ◌≡◌, Bool, true, false, Option, none, some, if◌then◌else◌}
use mdp2p.Prelude.Int.{ℤ, pos}
use mdp2p.Py.Result.{Result, ok, raise, type_error, value_error}
use mdp2p.Py.Value.{Value, null, bool, int, float, str, arr, obj}

pub record Floats : Type 1 where
  pub Float : Type 0
  -- the literal with this many tenths: `0.1` is `tenths 1`, `2.0` is `tenths 20`
  pub tenths : ℕ → Float
  -- `float(n)`, which raises where the integer is too large, and `float(s)` of a text
  pub of_int : ℤ → Result Float
  pub of_text : String → Option Float
  -- the JSON text of a float, its integer part, and the float that the JSON text reads as
  pub text : Float → String
  pub trunc : Float → Option ℤ
  pub of_json : String → Float
  pub lt : Float → Float → Bool
  pub le : Float → Float → Bool
  pub add : Float → Float → Float
  pub mul : Float → Float → Float
  pub div : Float → Float → Float
  -- `x ** y`
  pub pow : Float → Float → Result Float

pub record IsFloats (f : Floats) : Type 0 where
  pub lt_irrefl : (x : f.Float) → f.lt x x ≡ false
  pub lt_trans : (x y z : f.Float) → f.lt x y ≡ true → f.lt y z ≡ true → f.lt x z ≡ true
  pub lt→le : (x y : f.Float) → f.lt x y ≡ true → f.le x y ≡ true
  pub le_refl : (x y : f.Float) → f.lt x y ≡ true → f.le y y ≡ true
  pub zero_refl : f.le (f.tenths 0) (f.tenths 0) ≡ true
  -- `json.loads(json.dumps(x)) == x`: a float's text reads as the float.
  pub read-text : (x : f.Float) → f.of_json (f.text x) ≡ x

module _ (f : Floats) where
  -- A float among the values
  unfoldable pub as_value : f.Float → Value
  as_value x = float (f.text x) (f.trunc x)

  -- `float(v)`
  unfoldable pub to_float : Value → Result f.Float
  to_float null = raise type_error
  to_float (bool b) = f.of_int (pos (if b then 1 else 0))
  to_float (int z) = f.of_int z
  to_float (float r t) = ok (f.of_json r)
  to_float (str s) = elim (f.of_text s) [ none ↦ raise value_error | some x ↦ ok x ]
  to_float (arr xs) = raise type_error
  to_float (obj fs) = raise type_error
