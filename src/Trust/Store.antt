-- ===== src/Trust/Store.antt =====
-- trust/store.py: what the user's machine knows of each peer. The store is the dictionary that
-- `json.loads` gives, changed in place: each operation returns it. The clock is an argument.
pub mod Laws
pub mod Counts
pub mod Weight
use mdp2p.Prelude.{Option, none, some, if◌then◌else◌, String, zero, suc}
use mdp2p.Prelude.Int.{ℤ, pos, negsuc, succ_ℤ}
use mdp2p.Naming.Stores.Disk.{File, absent, unreadable, holds}
use mdp2p.Py.Number.{to_int}
use mdp2p.Py.Result.{Result, ◌>>=◌, ok, raise, type_error, value_error, attribute_error}
use mdp2p.Py.Value.{
  Fields, end, field, Value, null, int, obj, str, arr, get, get_or, with_field, is_dict, get_attr,
  contains,
}
use mdp2p.Trust.Floats.{Floats, as_value}

-- `data["peers"] = {}` unless it is a dictionary
unfoldable pub with_peers : Value → Result Fields
with_peers (obj fs) =
    ok (if is_dict (get_or fs "peers" null) then fs else with_field fs "peers" (obj end))
-- A list or a text may hold the word, but has no such item; there is none to set either.
with_peers _ = raise type_error

-- `load_store(path)`
unfoldable pub load_store : File Value → Result Fields
load_store absent = ok (field "peers" (obj end) end)
load_store unreadable = raise value_error
load_store (holds v) = with_peers v

unfoldable pub neutral : Fields
neutral = field "explicit_trust" null (
    field "confirmed_signals" (int (pos 0))
      (field "disputed_signals" (int (pos 0)) (field "last_seen" (int (pos 0)) end)))

-- The store with this record for the peer
unfoldable pub put_peer : Fields → Fields → String → Value → Fields
put_peer store peers pubkey rec = with_field store "peers" (obj (with_field peers pubkey rec))

unfoldable pub peers_from : Option Value → Result Fields
peers_from none = ok end
peers_from (some (obj peers)) = ok peers
peers_from (some _) = raise attribute_error

-- The dictionary of `store.setdefault("peers", {})`, of which the operations are dictionary writes
unfoldable pub peers_of : Fields → Result Fields
peers_of store = peers_from (get store "peers")

unfoldable pub peer_or_new : Value → Value
peer_or_new null = obj neutral
peer_or_new v = v

-- `peers.get(pubkey)`, or a new record
unfoldable pub peer_in : Fields → String → Value
peer_in peers pubkey = peer_or_new (get_or peers pubkey null)

-- `get_peer(store, pubkey)`: the record, and the store, in which it stands now
unfoldable pub get_peer : Fields → String → Result (Value × Fields)
get_peer store pubkey = do
  peers ← peers_of store
  ok (peer_in peers pubkey, put_peer store peers pubkey (peer_in peers pubkey))

-- `record[key] = value`
unfoldable pub set_item : Value → String → Value → Result Value
set_item (obj fs) k v = ok (obj (with_field fs k v))
set_item _ k v = raise type_error

-- The store after the record of the peer has changed
unfoldable pub write_peer : Fields → String → Value → Result Fields
write_peer store pubkey rec = do peers ← peers_of store; ok (put_peer store peers pubkey rec)

-- `record[counter] = int(record.get(counter, 0)) + 1`, then `record["last_seen"] = now`
unfoldable pub count_signal : String → Fields → String → ℤ → Result Fields
count_signal counter store pubkey now = do
  found ← get_peer store pubkey
  old ← get_attr found.0 counter (int (pos 0))
  n ← to_int old
  counted ← set_item found.0 counter (int (succ_ℤ n))
  seen ← set_item counted "last_seen" (int now)
  write_peer found.1 pubkey seen

unfoldable pub record_confirmed : Fields → String → ℤ → Result Fields
record_confirmed = count_signal "confirmed_signals"

unfoldable pub record_disputed : Fields → String → ℤ → Result Fields
record_disputed = count_signal "disputed_signals"

module _ (f : Floats) where
  unfoldable pub trust_value : Option f.Float → Value
  trust_value none = null
  trust_value (some x) = as_value f x

  -- `set_explicit_trust(store, pubkey, value)`
  unfoldable pub set_explicit_trust : Fields → String → Option f.Float → Result Fields
  set_explicit_trust store pubkey value = do
    found ← get_peer store pubkey
    rec ← set_item found.0 "explicit_trust" (trust_value value)
    write_peer found.1 pubkey rec
