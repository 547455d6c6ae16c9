-- ===== src/Naming/Page.antt =====
-- `_paginate` of naming.py: one page of a listing.
use mdp2p.Prelude.{
  ℕ, ◌+◌, min, max, Option, none, some, List, String, length, take, drop, ltb, if◌then◌else◌,
}
use mdp2p.Prelude.Int.{ℤ, pos, pos_part}
use mdp2p.Py.Result.{Result, ok, raise, type_error, value_error, ◌>>=◌}
use mdp2p.Py.Value.{Fields, int, get_or}
use mdp2p.Py.Number.{to_int}

abbrev pub default_page_size : ℕ
default_page_size = 500

abbrev pub max_page_size : ℕ
max_page_size = 1000

-- The integer of a request's field, `int(msg.get(name, default))`.
unfoldable pub int_field : Fields → String → ℕ → Result ℤ
int_field msg name default = to_int (get_or msg name (int (pos default)))

-- The offset and the limit as asked for: `except (TypeError, ValueError)` takes both defaults.
unfoldable pub or_defaults : Result (ℕ × ℤ) → Result (ℕ × ℤ)
or_defaults (ok r) = ok r
or_defaults (raise type_error) = ok (0, pos default_page_size)
or_defaults (raise value_error) = ok (0, pos default_page_size)
or_defaults (raise e) = raise e

unfoldable pub asked : Fields → Result (ℕ × ℤ)
asked msg = or_defaults (do
  offset ← int_field msg "offset" 0
  limit ← int_field msg "limit" default_page_size
  ok (pos_part offset, limit))

unfoldable pub clamp_limit : ℤ → ℕ
clamp_limit limit = min (max 1 (pos_part limit)) max_page_size

-- `items[offset : offset + limit]` and the offset of the next page, if there is one.
unfoldable pub page {ℓ} : {A : Type ℓ} → List A → ℕ → ℕ → List A × Option ℕ
page items offset limit = (
  take limit (drop offset items),
  if ltb (offset + limit) (length items) then some (offset + limit) else none,
)

-- `_paginate(items, msg)`
unfoldable pub paginate {ℓ} : {A : Type ℓ} → List A → Fields → Result (List A × Option ℕ)
paginate items msg = do request ← asked msg; ok (page items request.0 (clamp_limit request.1))
