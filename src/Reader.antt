-- ===== src/Reader.antt =====
-- mdp2p_client/: what the client does without a connection. scoring.py: the score of a site from the
-- attachments that were cached with it.
pub mod Laws
pub mod Config
pub mod Flows
use mdp2p.Bundle.Manifest.{compute_content_key}
use mdp2p.Trust.Signal.{Signal}
use mdp2p.Prelude.{Option, String, some, List, if◌then◌else◌, none, ◌==◌, [], ◌&&◌}
use mdp2p.Prelude.Int.{ℤ}
use mdp2p.Platform.{Platform}
use mdp2p.Bundle.Disk.{Site}
use mdp2p.Naming.Client.{iterate}
use mdp2p.Naming.Stores.Disk.{File}
use mdp2p.Peer.Reviews.{attachments_to_signals, signal_of}
use mdp2p.Trust.Floats.{Floats}
use mdp2p.Trust.Policy.{load_policy, Policy, default_policy}
use mdp2p.Trust.Store.{load_store}
use mdp2p.Trust.Scorer.{ScoreResult, score_content}
use mdp2p.Peer.Score.{records_of}
use mdp2p.Py.Value.{null, str, obj, nil, field, end, Fields, Value, get_attr, truthy, get_or}
use mdp2p.Py.Result.{Result, ok, raise, ◌>>=◌, attribute_error}

-- `_recompute_content_key(site_dir)`: none where the manifest lacks the address or the key
unfoldable pub recompute_content_key : Platform → Site → Result (Option String)
recompute_content_key p site = do
  uri ← get_attr site.manifest "uri" (str "")
  key ← get_attr site.manifest "public_key" (str "")
  ok (if truthy uri && truthy key then some (compute_content_key p uri key) else none)

-- The key that the reviews must name. One of the file that is no text, which `_cache_attachments` never
-- writes, is that of no review here.
unfoldable pub key_of : Platform → Site → Value → Result (Option String)
key_of p site (str s) = if s == "" then recompute_content_key p site else ok (some s)
key_of p site v = if truthy v then ok none else recompute_content_key p site

unfoldable pub signals_for : Platform → Fields → Option String → Result (List Signal)
signals_for p file none = ok []
signals_for p file (some expected) = do
  entries ← records_of file
  attachments_to_signals p entries expected

-- `_load_signals(site_dir)`, for what attachments.json holds; a file that is no JSON gives no signal.
unfoldable pub load_signals : Platform → Site → Option Value → Result (List Signal)
load_signals p site none = ok []
load_signals p site (some (obj file)) = do
  expected ← key_of p site (get_or file "content_key" null)
  signals_for p file expected
load_signals p site (some v) = raise attribute_error

module _ (p : Platform) (f : Floats) (now : ℤ) where
  unfoldable pub policy_or_default : Option (File Value) → Result (Policy f)
  policy_or_default none = ok (default_policy f)
  policy_or_default (some file) = load_policy f file

  unfoldable pub store_or_empty : Option (File Value) → Result Fields
  store_or_empty none = ok (field "peers" (obj end) end)
  store_or_empty (some file) = load_store file

  -- `score_from_cache(site_dir, policy_path, trust_store_path)`
  unfoldable pub score_from_cache :
      Site → Option (File Value) → Option (File Value) → Result (ScoreResult f)
  score_from_cache site policy_path trust_store_path = do
    signals ← load_signals p site site.attachments
    policy ← policy_or_default policy_path
    store ← store_or_empty trust_store_path
    score_content f store policy now signals
