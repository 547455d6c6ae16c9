-- ===== src/Naming/Stores/Names.antt =====
-- `NameStore` of naming.py: address ↦ signed naming record.
pub mod Laws
use mdp2p.Prelude.{not, Option, none, some, List, String, map, if◌then◌else◌}
use mdp2p.Prelude.Int.{leb_ℤ}
use mdp2p.Py.Result.{Result, ok, raise, ◌>>=◌}
use mdp2p.Py.Value.{Value, null, get_attr}
use mdp2p.Py.Json.{same_value}
use mdp2p.Dict.{Dict, lookup, insert, values}
use mdp2p.Naming.Stores.Disk.{
  Entry, File, Outcome, stored, rejected, other_public_key, stale_timestamp, timestamp, load, save,
}

pub record NameStore : Type 0 where
  pub records : Dict Entry
  pub file : File (Dict Entry)

-- `NameStore(path)`
unfoldable pub open_store : File (Dict Entry) → NameStore
open_store f = record { records = load f; file = f }

-- `store.get(uri)`
unfoldable pub get : NameStore → String → Option Entry
get s uri = lookup uri s.records

-- `store.list_records()`
unfoldable pub list_records : NameStore → List Value
list_records s = map (λ (e : Entry). e.rec) (values s.records)

-- The test of a write over an existing record.
unfoldable pub check_update : Value → Value → Result Outcome
check_update existing rec = do
  old_key ← get_attr existing "public_key" null
  new_key ← get_attr rec "public_key" null
  if not (same_value old_key new_key) then ok (rejected other_public_key) else do
    existing_ts ← timestamp existing
    new_ts ← timestamp rec
    ok (if leb_ℤ new_ts existing_ts then rejected stale_timestamp else stored)

unfoldable pub check_set : NameStore → String → Value → Result Outcome
check_set s uri rec = elim (get s uri) [ none ↦ ok stored | some e ↦ check_update e.rec rec ]

-- `self._records[uri] = (record, signature); self._save()`
unfoldable pub write : NameStore → String → Entry → NameStore
write s uri e = record { records = insert uri e s.records; file = save (insert uri e s.records) }

unfoldable pub commit : NameStore → String → Entry → Result Outcome → Result Outcome × NameStore
commit s uri e (ok stored) = (ok stored, write s uri e)
commit s uri e (ok (rejected r)) = (ok (rejected r), s)
commit s uri e (raise x) = (raise x, s)

-- `store.set(uri, record, signature)`
unfoldable pub set : NameStore → String → Value → Value → Result Outcome × NameStore
set s uri rec signature =
    commit s uri (record { rec = rec; signature = signature }) (check_set s uri rec)
