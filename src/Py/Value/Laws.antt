-- ===== src/Py/Value/Laws.antt =====
-- Readings of a value that succeed.
use mdp2p.Prelude.{◌≡◌, ap, String, if◌then◌else◌, ◌==◌, some, arith, eq_iff}
use mdp2p.Py.Result.{ok, ok_injective}
use mdp2p.Py.Value.{Value, str, null, as_key, get, with_field, Fields, field, end, get_or}

pub as_key-ok : (v : Value) (k : String) → as_key v ≡ ok k → v ≡ str k
unfolding as_key
as_key-ok (str s) k h = ap str (ok_injective s k h)
as_key-ok null k h = cc
as_key-ok _ k h = cc

pub get-with_field :
    (fs : Fields) (k j : String) (v : Value)
    → get (with_field fs k v) j ≡ (if k == j then some v else get fs j)
unfolding get with_field
get-with_field end k j v = ground arith
get-with_field (field i w fs) k j v =
    ground (arith, eq_iff k j, eq_iff i k, eq_iff i j, get-with_field fs k j v)

pub get_or-with_field :
    (fs : Fields) (k j : String) (v d : Value)
    → get_or (with_field fs k v) j d ≡ (if k == j then v else get_or fs j d)
unfolding get_or
get_or-with_field fs k j v d = ground (arith, get-with_field fs k j v)
