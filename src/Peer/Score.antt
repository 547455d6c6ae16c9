-- ===== src/Peer/Score.antt =====
-- `compute_score` of peer/peer.py: the score of a content from the reviews that the naming server lists.
pub mod Laws
use mdp2p.Bundle.Manifest.{compute_content_key}
use mdp2p.Trust.Signal.{Signal}
use mdp2p.Prelude.{if◌then◌else◌, String, Option, List, ◌⊎◌, some, inl, none, inr, not}
use mdp2p.Prelude.Int.{ℤ}
use mdp2p.Platform.{Platform}
use mdp2p.Bundle.Paths.{UriError, validate_uri}
use mdp2p.Naming.Client.{client_resolve, client_get_attachments, iterate}
use mdp2p.Naming.Stores.Disk.{File}
use mdp2p.Peer.Reviews.{attachments_to_signals, signal_of}
use mdp2p.Trust.Floats.{Floats}
use mdp2p.Trust.Policy.{load_policy}
use mdp2p.Trust.Store.{load_store}
use mdp2p.Trust.Scorer.{ScoreResult, score_content}
use mdp2p.Py.Value.{null, str, obj, nil, Fields, Value, Items, truthy, item, get_or, is_text}
use mdp2p.Py.Result.{Result, ok, raise, ◌>>=◌, value_error, runtime_error}

-- `resp.get("records") or []`, as the loop over it goes
unfoldable pub records_of : Fields → Result Items
records_of reply =
    if truthy (get_or reply "records" null) then iterate (get_or reply "records" null) else ok nil

-- A call that raises stands for an empty listing.
unfoldable pub entries_listed : Result Fields → Result Items
entries_listed (raise x) = ok nil
entries_listed (ok reply) = records_of reply

module _ (p : Platform) (f : Floats) (policy_file store_file : File Value) (now : ℤ) where
  -- The score of the signals, with the user's policy and trust store
  unfoldable pub score_signals : List Signal → Result (ScoreResult f)
  score_signals signals = do
    policy ← load_policy f policy_file
    store ← load_store store_file
    score_content f store policy now signals

  unfoldable pub score_record : (Fields → Result Fields) → String → Value → Result (ScoreResult f)
  score_record rpc uri rec = do
    key ← item rec "public_key"
    let content_key = compute_content_key p (str uri) key
    entries ← entries_listed (client_get_attachments rpc content_key)
    signals ← attachments_to_signals p entries content_key
    score_signals signals

  unfoldable pub score_reply : (Fields → Result Fields) → String → Fields → Result (ScoreResult f)
  score_reply rpc uri reply =
      let scored = (do rec ← item (obj reply) "record"; score_record rpc uri rec) in
      if not (is_text (get_or reply "type" null) "record") then raise runtime_error else scored

  unfoldable pub score_uri : (Fields → Result Fields) → UriError ⊎ String → Result (ScoreResult f)
  score_uri rpc (inl e) = raise value_error
  score_uri rpc (inr uri) = do reply ← client_resolve rpc uri; score_reply rpc uri reply

  -- `compute_score(uri, policy_path, trust_store_path, now)`
  unfoldable pub compute_score : Option (Fields → Result Fields) → String → Result (ScoreResult f)
  compute_score none uri = raise value_error
  compute_score (some rpc) uri = score_uri rpc (validate_uri (str uri))
