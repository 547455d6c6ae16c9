-- ===== src/Peer/Update.antt =====
-- `check_for_update` of peer/peer.py: whether a seeder has a newer manifest of the same author.
pub mod Laws
use mdp2p.Py.Number.{to_int}
use mdp2p.Prelude.Int.{ℤ, pos, ltb_ℤ}
use mdp2p.Platform.{Platform}
use mdp2p.Bundle.Manifest.{verify_manifest}
use mdp2p.Bundle.Signed.{load_key}
use mdp2p.Bundle.Disk.{Site, Spot}
use mdp2p.Peer.Fetch.{Client, spot_of}
use mdp2p.Dict.{lookup, Dict}
use mdp2p.Prelude.{true, false, none, some, Bool, String, Option, if◌then◌else◌, not}
use mdp2p.Py.Value.{null, str, int, obj, Value, get_attr, Fields, get_or, item, is_text, truthy}
use mdp2p.Py.Result.{Result, ok, raise, ◌>>=◌, type_error, library_error, attribute_error}

-- `int(manifest.get("timestamp", 0))`
unfoldable pub timestamp_in : Value → Result ℤ
timestamp_in manifest = do v ← get_attr manifest "timestamp" (int (pos 0)); to_int v

-- `str(v)`: a text is itself, and `show` is that of other values.
unfoldable pub to_text : (Value → String) → Value → String
to_text show (str s) = s
to_text show v = show v

unfoldable pub false_if_raised : Result Bool → Bool
false_if_raised (raise x) = false
false_if_raised (ok b) = b

module _ (p : Platform) (show : Value → String) (uri : String) where
  unfoldable pub compare_remote : ℤ → Value → Fields → Fields → Result Bool
  compare_remote local_ts local response remote = do
    v ← item local "public_key"
    key ← load_key p v
    signed ←
        verify_manifest p remote (str (to_text show (get_or response "signature" (str "")))) key
    if not signed
        then ok false
        else do remote_ts ← timestamp_in (obj remote); ok (ltb_ℤ local_ts remote_ts)

  -- A manifest that is no dictionary, or for another address, is none.
  unfoldable pub check_remote : ℤ → Value → Fields → Value → Result Bool
  check_remote local_ts local response (obj remote) =
      let compared = compare_remote local_ts local response remote in
      if not (is_text (get_or remote "uri" null) uri) then ok false else compared
  check_remote local_ts local response v = ok false

  unfoldable pub check_response : ℤ → Value → Value → Result Bool
  check_response local_ts local (obj response) =
      let checked = check_remote local_ts local response (get_or response "manifest" null) in
      if is_text (get_or response "type" null) "manifest" then checked else ok false
  check_response local_ts local v = if truthy v then raise attribute_error else ok false

  unfoldable pub check_site : Option Site → Result Value → Result Bool
  check_site none answer = raise library_error
  check_site (some site) answer = do
    local_ts ← timestamp_in site.manifest
    ok (false_if_raised (do response ← answer; check_response local_ts site.manifest response))

  unfoldable pub check_dir : Dict Spot → Option String → Result Value → Result Bool
  check_dir spots none answer = ok false
  check_dir spots (some dir) answer = check_site (spot_of spots dir).current answer

  -- `check_for_update(uri, seeder_addr)`: `answer` is what dialling the seeder and asking it for the
  -- manifest gives, or the exception that it raises.
  unfoldable pub check_for_update : Client → Result Value → Result Bool
  check_for_update c answer = check_dir c.spots (lookup uri c.sites) answer
