-- ===== src/Naming/Stores/Disk.antt =====
-- What the stores share: signed entries, time stamps, the outcome of a write, and the JSON file.
use mdp2p.Prelude.{[]}
use mdp2p.Prelude.Int.{ℤ, pos}
use mdp2p.Py.Result.{Result, ◌>>=◌}
use mdp2p.Py.Value.{Value, int, get_attr}
use mdp2p.Py.Number.{to_int}
use mdp2p.Dict.{Dict}
use mdp2p.Dict.Sorted.{sort_keys}

-- A signed record, `(record, signature)`.
pub record Entry : Type 0 where
  pub rec : Value
  pub signature : Value

-- The text that comes with a refused write.
pub data Refusal : Type 0 where
  other_public_key stale_timestamp no_public_key : Refusal
  incomplete_assignment incomplete_review not_newer : Refusal

-- `(True, "")` or `(False, text)`
pub data Outcome : Type 0 where
  stored : Outcome
  rejected : Refusal → Outcome

-- `int(record.get("timestamp", 0))`
unfoldable pub timestamp : Value → Result ℤ
timestamp rec = do v ← get_attr rec "timestamp" (int (pos 0)); to_int v

-- The JSON file of a store, known by what `json.loads` makes of it.
pub data File {ℓ} (A : Type ℓ) : Type ℓ where
  absent : File A
  unreadable : File A
  holds : A → File A

-- `_load`: the contents, or an empty store if there is no file or it cannot be read.
unfoldable pub load {ℓ} : {V : Type ℓ} → File (Dict V) → Dict V
load absent = []
load unreadable = []
load (holds d) = d

-- `_save`: `json.dumps(…, sort_keys=True)` to a temporary file that then replaces the old one.
unfoldable pub save {ℓ} : {V : Type ℓ} → Dict V → File (Dict V)
save d = holds (sort_keys d)
