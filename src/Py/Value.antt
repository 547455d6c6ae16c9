-- ===== src/Py/Value.antt =====
-- The values that `json.loads` returns, and the operations on them that the program uses.
pub mod Laws
use Prim.Native.Nat.{ℕ}
use text.Mathlib.Text.{find?}
use mdp2p.Prelude.{
  String, ◌==◌, Bool, true, false, not, ◌&&◌, ◌||◌, Option, none, some, eqb, if◌then◌else◌, List,
  ◌∷◌, [],
}
use mdp2p.Prelude.Int.{ℤ, pos, negsuc}
use mdp2p.Py.Result.{Result, ok, raise, type_error, attribute_error, key_error}

-- A float is known by its JSON text and by the integer that `int` makes of it, none for an infinity or
-- a NaN.
mutual
  -- A dictionary in insertion order, its keys distinct.
  pub data Fields : Type 0 where
    end : Fields
    field : String → Value → Fields → Fields

  -- The elements of a list
  pub data Items : Type 0 where
    nil : Items
    cons : Value → Items → Items

  pub data Value : Type 0 where
    null : Value
    bool : Bool → Value
    int : ℤ → Value
    float : String → Option ℤ → Value
    str : String → Value
    arr : Items → Value
    obj : Fields → Value

-- `d.get(k)`
unfoldable pub get : Fields → String → Option Value
get end k = none
get (field j v fs) k = if j == k then some v else get fs k

-- `d[k] = v`, `dict(d, k=v)`
unfoldable pub with_field : Fields → String → Value → Fields
with_field end k v = field k v end
with_field (field j w fs) k v = if j == k then field j v fs else field j w (with_field fs k v)

-- `d.get(k, default)`
unfoldable pub get_or : Fields → String → Value → Value
unfolding get
get_or fs k d = elim (get fs k) [ none ↦ d | some v ↦ v ]

-- `bool(v)`
unfoldable pub truthy : Value → Bool
truthy null = false
truthy (bool b) = b
truthy (int (pos n)) = not (eqb n 0)
truthy (int (negsuc n)) = true
truthy (float r t) = not (r == "0.0" || r == "-0.0")
truthy (str s) = not (s == "")
truthy (arr nil) = false
truthy (arr (cons x xs)) = true
truthy (obj end) = false
truthy (obj (field k v fs)) = true

-- `v.get(k, default)`: only a dictionary has the method.
unfoldable pub get_attr : Value → String → Value → Result Value
unfolding get_or
get_attr (obj fs) k d = ok (get_or fs k d)
get_attr _ k d = raise attribute_error

unfoldable pub is_str : Value → Bool
is_str (str s) = true
is_str _ = false

unfoldable pub is_list : Value → Bool
is_list (arr xs) = true
is_list _ = false

unfoldable pub is_dict : Value → Bool
is_dict (obj fs) = true
is_dict _ = false

-- `all(isinstance(x, str) for x in xs)`
unfoldable pub all_str : Items → Bool
unfolding is_str
all_str nil = true
all_str (cons x xs) = is_str x && all_str xs

unfoldable pub has_str : Items → String → Bool
has_str nil k = false
has_str (cons (str s) xs) k = s == k || has_str xs k
has_str (cons _ xs) k = has_str xs k

is_some : Option ℕ → Bool
is_some none = false
is_some (some n) = true

-- `k in v` for a text `k`: a key of a dictionary, a member of a list, a part of a text.
unfoldable pub contains : Value → String → Result Bool
unfolding get has_str is_some
contains (obj fs) k = ok (elim (get fs k) [ none ↦ false | some v ↦ true ])
contains (arr xs) k = ok (has_str xs k)
contains (str s) k = ok (is_some (find? s k))
contains _ k = raise type_error

-- `v[k]` for a text `k`
unfoldable pub item : Value → String → Result Value
unfolding get
item (obj fs) k = elim (get fs k) [ none ↦ raise key_error | some v ↦ ok v ]
item _ k = raise type_error

-- The value as the key of a dictionary: lists and dictionaries are unhashable. A number is a legal key
-- in Python; it is refused here too. With `strict_reviews` no verified record brings one to a write.
unfoldable pub as_key : Value → Result String
as_key (str s) = ok s
as_key _ = raise type_error

-- `v[:n]`, whose value goes to a log line only: what matters is whether it raises.
unfoldable pub slice : Value → Result (Unit {0})
slice (str s) = ok tt
slice (arr xs) = ok tt
slice (obj fs) = raise key_error
slice _ = raise type_error

-- The value as a key to look up: none where it can be no key of the dictionary.
unfoldable pub read_key : Value → Result (Option String)
read_key (str s) = ok (some s)
read_key (arr xs) = raise type_error
read_key (obj fs) = raise type_error
read_key _ = ok none

-- `v or {}`
unfoldable pub or_empty : Value → Value
unfolding truthy
or_empty v = if truthy v then v else obj end

-- `v == s` for a text `s`
unfoldable pub is_text : Value → String → Bool
is_text (str t) s = t == s
is_text _ s = false

unfoldable pub texts : List String → Items
texts [] = nil
texts (s ∷ ss) = cons (str s) (texts ss)
