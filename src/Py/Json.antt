-- ===== src/Py/Json.antt =====
-- `json.dumps(v, separators=(",", ":"), sort_keys=True).encode("utf-8")`, which is
-- bundle/_canonical.py. The output is ASCII: a character outside it is written as an escape.
pub mod Laws
use mdp2p.Prelude.{
  ℕ, zero, suc, ◌+◌, ◌-◌, ◌/◌, ◌%◌, String, ◌==◌, Bool, true, false, ◌&&◌, List, [], ◌∷◌, ◌++◌, leb,
  ltb, eqb, if◌then◌else◌,
}
use mdp2p.Prelude.Int.{ℤ, pos, negsuc}
use mdp2p.Py.Text.{codes, codes_eqb}
use mdp2p.Py.Value.{
  Value, Items, Fields, null, bool, int, float, str, arr, obj, nil, cons, end, field,
}
use mdp2p.Dict.{Dict}
use mdp2p.Dict.Sorted.{sort_keys}

-- The digits of a number, most significant first, before `rest`. The fuel is the number itself.
decimal_fuel : ℕ → ℕ → List ℕ → List ℕ
decimal_fuel zero n rest = rest
decimal_fuel (suc fuel) n rest =
    let longer = decimal_fuel fuel (n / 10) ((48 + n % 10) ∷ rest) in
    if ltb n 10 then (48 + n) ∷ rest else longer

unfoldable pub decimal : ℕ → List ℕ
unfolding decimal_fuel
decimal n = decimal_fuel (suc n) n []

hex_digit : ℕ → ℕ
hex_digit d = if ltb d 10 then 48 + d else 87 + d

unicode_escape : ℕ → List ℕ
unfolding hex_digit
unicode_escape c =
    b'\\'
    ∷ b'u'
    ∷ hex_digit (c / 4096 % 16)
    ∷ hex_digit (c / 256 % 16)
    ∷ hex_digit (c / 16 % 16)
    ∷ hex_digit (c % 16)
    ∷ []

-- One character of a quoted text. Above 0xffff it is a surrogate pair.
escape : ℕ → List ℕ
unfolding unicode_escape
escape c =
    if eqb c 34
    then 92 ∷ 34 ∷ []
    else if eqb c 92
    then 92 ∷ 92 ∷ []
    else if eqb c 10
    then 92 ∷ b'n' ∷ []
    else if eqb c 13
    then 92 ∷ b'r' ∷ []
    else if eqb c 9
    then 92 ∷ b't' ∷ []
    else if eqb c 12
    then 92 ∷ b'f' ∷ []
    else if eqb c 8
    then 92 ∷ b'b' ∷ []
    else if leb 32 c && leb c 126
    then c ∷ []
    else if ltb c 0x10000
    then unicode_escape c
    else unicode_escape (0xd800 + (c - 0x10000) / 1024)
      ++ unicode_escape (0xdc00 + (c - 0x10000) % 1024)

escapes : List ℕ → List ℕ
unfolding escape
escapes [] = []
escapes (c ∷ cs) = escape c ++ escapes cs

quoted : String → List ℕ
unfolding escapes codes
quoted s = 34 ∷ (escapes (codes s) ++ 34 ∷ [])

join : List (List ℕ) → List ℕ
join [] = []
join (x ∷ []) = x
join (x ∷ y ∷ rest) = x ++ (44 ∷ join (y ∷ rest))

members : Dict (List ℕ) → List (List ℕ)
unfolding quoted
members [] = []
members ((k, text) ∷ d) = (quoted k ++ (58 ∷ text)) ∷ members d

-- An object around its members, in their order, whose values are already written.
unfoldable pub write_sorted : Dict (List ℕ) → List ℕ
unfolding join members
write_sorted d = 123 ∷ (join (members d) ++ 125 ∷ [])

-- The members in the order of their keys
unfoldable pub write_object : Dict (List ℕ) → List ℕ
unfolding write_sorted sort_keys
write_object d = write_sorted (sort_keys d)

unfoldable pub write_int : ℤ → List ℕ
unfolding decimal
write_int (pos n) = decimal n
write_int (negsuc n) = 45 ∷ decimal (suc n)

unfoldable mutual
  unfolding write_object write_int quoted join

  pub dumps : Value → List ℕ
  dumps null = codes "null"
  dumps (bool true) = codes "true"
  dumps (bool false) = codes "false"
  dumps (int z) = write_int z
  dumps (float r t) = codes r
  dumps (str s) = quoted s
  dumps (arr xs) = 91 ∷ (join (dumps_items xs) ++ 93 ∷ [])
  dumps (obj fs) = write_object (dumps_fields fs)

  pub dumps_items : Items → List (List ℕ)
  dumps_items nil = []
  dumps_items (cons x xs) = dumps x ∷ dumps_items xs

  pub dumps_fields : Fields → Dict (List ℕ)
  dumps_fields end = []
  dumps_fields (field k v fs) = (k, dumps v) ∷ dumps_fields fs

-- `_canonical_json(obj)`
unfoldable pub canonical_json : Fields → List ℕ
unfolding dumps
canonical_json fs = dumps (obj fs)

-- `a == b`: of texts, and otherwise by the canonical JSON. (Python also equates 1, 1.0 and True.)
unfoldable pub same_value : Value → Value → Bool
unfolding dumps codes_eqb
same_value (str s) (str t) = s == t
same_value (str s) w = false
same_value v (str t) = false
same_value v w = codes_eqb (dumps v) (dumps w)
