-- ===== src/Py/Number.antt =====
-- `int(v)`. Of a text the ASCII notation is read: spaces around, a sign, digits with single
-- underscores between them.
use mdp2p.Prelude.{
  ℕ, zero, suc, ◌+◌, ◌-◌, ◌*◌, String, ◌==◌, Bool, true, false, ◌&&◌, ◌||◌, Option, none, some,
  List, [], ◌∷◌, leb, eqb, if◌then◌else◌,
}
use mdp2p.Prelude.Int.{ℤ, pos, negsuc}
use mdp2p.Py.Result.{Result, ok, raise, type_error, value_error, overflow_error}
use mdp2p.Py.Text.{codes}
use mdp2p.Py.Value.{Value, null, bool, int, float, str, arr, obj}

is_space : ℕ → Bool
is_space c = leb 9 c && leb c 13 || leb 28 c && leb c 32

is_digit : ℕ → Bool
is_digit c = leb 48 c && leb c 57

all_space : List ℕ → Bool
unfolding is_space
all_space [] = true
all_space (c ∷ cs) = is_space c && all_space cs

drop_spaces : List ℕ → List ℕ
unfolding is_space
drop_spaces [] = []
drop_spaces (c ∷ cs) = let rest = drop_spaces cs in if is_space c then rest else c ∷ cs

-- `prev`: the character before was a digit.
digits : ℕ → Bool → List ℕ → Option ℕ
unfolding is_digit all_space
digits n prev [] = if prev then some n else none
digits n prev (c ∷ cs) =
    let rest = digits (if is_digit c then n * 10 + (c - 48) else n) (is_digit c) cs in
    if is_digit c || eqb c b'_' && prev
    then rest
    else if prev && all_space (c ∷ cs)
    then some n
    else none

negate : ℕ → ℤ
negate zero = pos 0
negate (suc n) = negsuc n

signed : List ℕ → Option ℤ
unfolding digits negate
signed [] = none
signed (c ∷ cs) =
    if eqb c b'-'
    then elim (digits 0 false cs) [ none ↦ none | some n ↦ some (negate n) ]
    else elim (digits 0 false (if eqb c b'+' then cs else c ∷ cs)) [
      | none ↦ none
      | some n ↦ some (pos n)
    ]

unfoldable pub parse_int : String → Option ℤ
unfolding codes drop_spaces signed
parse_int s = signed (drop_spaces (codes s))

-- An infinity or a NaN has no integer part.
unfoldable pub to_int : Value → Result ℤ
unfolding parse_int
to_int null = raise type_error
to_int (bool true) = ok (pos 1)
to_int (bool false) = ok (pos 0)
to_int (int z) = ok z
to_int (float r (some z)) = ok z
to_int (float r none) = if r == "NaN" then raise value_error else raise overflow_error
to_int (str s) = elim (parse_int s) [ none ↦ raise value_error | some z ↦ ok z ]
to_int (arr xs) = raise type_error
to_int (obj fs) = raise type_error
