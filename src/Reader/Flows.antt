-- ===== src/Reader/Flows.antt =====
-- mdp2p_client/review_flow.py, with the helpers that it shares: the inbox of a reviewer, and the posting
-- of a verdict. The reviewer's key and the connection to the naming server are arguments.
pub mod Laws
pub mod Posted
use mdp2p.Prelude.{String, List, [], ◌∷◌, none, ◌==◌, ◌||◌, not, if◌then◌else◌}
use mdp2p.Prelude.Int.{ℤ, pos, ltb_ℤ}
use mdp2p.Platform.{Platform}
use mdp2p.Bundle.Signed.{Verification, valid, refused}
use mdp2p.Naming.Client.{client_list_assignments, client_attach_review}
use mdp2p.Peer.Daemon.{deadline_of}
use mdp2p.Peer.Score.{records_of}
use mdp2p.Py.Result.{Result, ok, raise, ◌>>=◌, value_error, runtime_error}
use mdp2p.Py.Value.{
  Value, Fields, Items, null, str, obj, nil, cons, get_attr, get_or, or_empty, is_text, truthy,
}
use mdp2p.Reader.Config.{ClientConfig}
use mdp2p.Review.Record.{
  is_verdict, verify_review_assignment, build_review_record, sign_review_record,
}

-- `require_naming(config)`
unfoldable pub require_naming : ClientConfig → Result Value
require_naming config =
    if truthy config.naming_multiaddr then ok config.naming_multiaddr else raise runtime_error

-- An element of the inbox
pub record Pending : Type 0 where
  pub rec : Value
  pub signature : Value

unfoldable pub keep_due : ℤ → Value → Value → Verification → Result (List Pending)
keep_due now rec signature (refused r) = ok []
keep_due now rec signature valid = do
  deadline ← deadline_of rec
  ok (if ltb_ℤ deadline now then [] else record { rec = rec; signature = signature } ∷ [])

unfoldable pub append_pending : List Pending → List Pending → List Pending
append_pending [] ps = ps
append_pending (q ∷ qs) ps = q ∷ append_pending qs ps

module _ (p : Platform) (now : ℤ) where
  unfoldable pub pending_of : Value → Result (List Pending)
  pending_of entry = do
    found ← get_attr entry "record" null
    signature ← get_attr entry "signature" (str "")
    verification ← verify_review_assignment p (pos 0) none (or_empty found) signature
    keep_due now (or_empty found) signature verification

  -- The loop over the entries
  unfoldable pub pending_in : Items → Result (List Pending)
  pending_in nil = ok []
  pending_in (cons entry entries) = do
    first ← pending_of entry
    rest ← pending_in entries
    ok (append_pending first rest)

  unfoldable pub inbox_in : Fields → Result (List Pending)
  inbox_in response =
      let pending = (do entries ← records_of response; pending_in entries) in
      if is_text (get_or response "type" null) "assignments" then pending else raise runtime_error

  -- `do_list_inbox(config)`
  unfoldable pub do_list_inbox :
      ClientConfig → (Fields → Result Fields) → String → Result (List Pending)
  do_list_inbox config rpc public_key_b64 = do
    naming ← require_naming config
    response ← client_list_assignments rpc public_key_b64
    inbox_in response

-- What the naming server has to answer is "ok".
unfoldable pub post_review : (Fields → Result Fields) → Fields × String → Result (Fields × String)
post_review rpc (review, signature) = do
  response ← client_attach_review rpc (obj review) signature
  if is_text (get_or response "type" null) "ok" then ok (review, signature) else raise runtime_error

module _ (p : Platform) (key : p.PrivateKey) (now : ℤ) where
  -- The review with its signature
  unfoldable pub signed_review : String → String → String → Result (Fields × String)
  signed_review content_key verdict comment = do
    review ←
        build_review_record content_key (p.public_key_to_b64 (p.public_key key)) verdict comment
          none now
    signature ← sign_review_record p review key
    ok (review, signature)

  -- `do_attach_review(config, content_key, verdict, comment)`: the review that the server has taken
  unfoldable pub do_attach_review :
      ClientConfig → (Fields → Result Fields) → String → String → String → Result (Fields × String)
  do_attach_review config rpc content_key verdict comment =
      let posted = (do
        naming ← require_naming config
        review ← signed_review content_key verdict comment
        post_review rpc review) in
      if is_verdict (str verdict) then posted else raise value_error
