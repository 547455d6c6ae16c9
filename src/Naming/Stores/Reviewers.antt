-- ===== src/Naming/Stores/Reviewers.antt =====
-- `ReviewerStore` of naming.py: public key ↦ signed opt-in.
pub mod Laws
use mdp2p.Prelude.{not, Option, none, some, List, String, if◌then◌else◌}
use mdp2p.Prelude.Int.{leb_ℤ}
use mdp2p.Py.Result.{Result, ok, raise, ◌>>=◌}
use mdp2p.Py.Value.{Value, str, get_attr, truthy, as_key}
use mdp2p.Dict.{Dict, lookup, insert, values}
use mdp2p.Naming.Stores.Disk.{
  Entry, File, Outcome, stored, rejected, stale_timestamp, no_public_key, timestamp, load, save,
}

pub record ReviewerStore : Type 0 where
  pub records : Dict Entry
  pub file : File (Dict Entry)

-- `ReviewerStore(path)`
unfoldable pub open_store : File (Dict Entry) → ReviewerStore
open_store f = record { records = load f; file = f }

-- `store.get(pubkey)`
unfoldable pub get : ReviewerStore → String → Option Entry
get s pubkey = lookup pubkey s.records

-- `store.list_records()`
unfoldable pub list_records : ReviewerStore → List Entry
list_records s = values s.records

-- Whether the time stamp of a new opt-in is later than that of the stored one.
unfoldable pub check_newer : Value → Value → Result Outcome
check_newer existing rec = do
  existing_ts ← timestamp existing
  new_ts ← timestamp rec
  ok (if leb_ℤ new_ts existing_ts then rejected stale_timestamp else stored)

-- `self._records[pubkey] = (record, signature); self._save()`
unfoldable pub write : ReviewerStore → String → Entry → ReviewerStore
write s pubkey e = record {
  records = insert pubkey e s.records;
  file = save (insert pubkey e s.records);
}

unfoldable pub commit :
    ReviewerStore → String → Entry → Result Outcome → Result Outcome × ReviewerStore
commit s pubkey e (ok stored) = (ok stored, write s pubkey e)
commit s pubkey e (ok (rejected r)) = (ok (rejected r), s)
commit s pubkey e (raise x) = (raise x, s)

-- From the key on, once it is a non-empty text.
unfoldable pub set_at : ReviewerStore → String → Value → Value → Result Outcome × ReviewerStore
set_at s pubkey rec signature =
    commit s pubkey (record { rec = rec; signature = signature })
      (elim (get s pubkey) [ none ↦ ok stored | some e ↦ check_newer e.rec rec ])

unfoldable pub set_under :
    ReviewerStore → Value → Value → Result String → Result Outcome × ReviewerStore
set_under s rec signature (raise x) = (raise x, s)
set_under s rec signature (ok pubkey) = set_at s pubkey rec signature

unfoldable pub set_keyed :
    ReviewerStore → Result Value → Value → Value → Result Outcome × ReviewerStore
set_keyed s (raise x) rec signature = (raise x, s)
set_keyed s (ok key) rec signature =
    if not (truthy key)
    then (ok (rejected no_public_key), s)
    else set_under s rec signature (as_key key)

-- `store.set(record, signature)`
unfoldable pub set : ReviewerStore → Value → Value → Result Outcome × ReviewerStore
set s rec signature = set_keyed s (get_attr rec "public_key" (str "")) rec signature
