-- ===== src/Naming/Server.antt =====
-- `NamingServer` of naming.py. A handler returns its reply, or the exception that escapes it, beside
-- the server that it leaves. The clock is an argument.
use mdp2p.Prelude.{Bool, not, ◌||◌, Option, none, some, inl, inr, [], String, if◌then◌else◌, ◌⊎◌}
use mdp2p.Prelude.Int.{ℤ}
use mdp2p.Platform.{Platform}
use mdp2p.Py.Result.{Result, ok, raise, ◌>>=◌, ◌>>◌}
use mdp2p.Py.Value.{Value, Fields, null, str, get_or, get_attr, truthy, or_empty, slice}
use mdp2p.Bundle.Paths.{validate_uri, UriError}
use mdp2p.Bundle.Signed.{Verification, valid, refused}
use mdp2p.Bundle.NameRecord.{verify_name_record, max_timestamp_drift_seconds}
use mdp2p.Review.Record.{verify_reviewer_opt_in, max_review_drift_seconds}
use mdp2p.Naming.Stores.Disk.{Outcome, stored, rejected, Entry}
use mdp2p.Naming.Stores.Names
use mdp2p.Naming.Stores.Names.{NameStore}
use mdp2p.Naming.Stores.Reviewers
use mdp2p.Naming.Stores.Reviewers.{ReviewerStore}
use mdp2p.Naming.Stores.Assignments.{AssignmentStore}
use mdp2p.Naming.Stores.Attachments.{AttachmentStore}
use mdp2p.Naming.Messages.{
  ServerError, record_and_signature_required, bad_uri, unknown_uri, invalid_record, refused_write,
  registry_disabled, Response, error, ok_uri, ok_public_key, found, names, reviewers,
}
use mdp2p.Naming.Page.{paginate}

pub record NamingServer : Type 0 where
  pub store : NameStore
  pub reviewer_store : Option ReviewerStore
  pub assignment_store : Option AssignmentStore
  pub attachment_store : Option AttachmentStore
  pub strict_reviews : Bool

abbrev pub Reply : Type 0
Reply = Result Response × NamingServer

-- `{"type": "error", "msg": …}`, the server as it was
unfoldable pub refuse : ServerError → NamingServer → Reply
refuse e s = (ok (error e), s)

-- The reply that a handler computes last; it changes nothing.
unfoldable pub answer : NamingServer → Result Response → Reply
answer s r = (r, s)

-- `record = msg.get("record") or {}`, `signature = msg.get("signature", "")`, and both are needed.
unfoldable pub with_record : Fields → NamingServer → (Value → Value → Reply) → Reply
with_record msg s next =
    let rec = or_empty (get_or msg "record" null) in
    let signature = get_or msg "signature" (str "") in
    if not (truthy rec) || not (truthy signature)
    then refuse record_and_signature_required s
    else next rec signature

-- `if not is_valid: return …`
unfoldable pub if_valid : NamingServer → Result Verification → Reply → Reply
if_valid s (raise x) next = (raise x, s)
if_valid s (ok (refused r)) next = refuse (invalid_record r) s
if_valid s (ok valid) next = next

-- `if not ok: return …`, then the log line and the reply.
unfoldable pub if_stored : NamingServer → Result Outcome → Result Response → Reply
if_stored s (raise x) reply = (raise x, s)
if_stored s (ok (rejected r)) reply = refuse (refused_write r) s
if_stored s (ok stored) reply = (reply, s)

module _ (p : Platform) (now : ℤ) where
  -- From the store on: `self.store.set(…)`, the log line, which cuts `manifest_ref`, and the reply.
  unfoldable pub register_at : NamingServer → Value → Value → String → Reply
  register_at s rec signature uri =
      let (outcome, store) = Names.set s.store uri rec signature in
      let logged : Result Response = (do
        ref ← get_attr rec "manifest_ref" (str "")
        slice ref
        ok (ok_uri uri)) in
      if_stored (record s { store = store }) outcome logged

  unfoldable pub register_valid : NamingServer → Value → Value → UriError ⊎ String → Reply
  register_valid s rec signature (inl e) = refuse (bad_uri e) s
  register_valid s rec signature (inr uri) =
      if_valid s (verify_name_record p now (some max_timestamp_drift_seconds) rec signature)
        (register_at s rec signature uri)

  unfoldable pub register_uri : NamingServer → Value → Value → Result Value → Reply
  register_uri s rec signature (raise x) = (raise x, s)
  register_uri s rec signature (ok v) = register_valid s rec signature (validate_uri v)

  -- `_handle_register`
  unfoldable pub handle_register : NamingServer → Fields → Reply
  handle_register s msg =
      with_record msg s
        (λ rec signature. register_uri s rec signature (get_attr rec "uri" (str "")))

  unfoldable pub register_reviewer_in : NamingServer → ReviewerStore → Value → Value → Reply
  register_reviewer_in s store rec signature =
      let (outcome, store') = Reviewers.set store rec signature in
      let logged : Result Response = (do
        key ← get_attr rec "public_key" (str "")
        slice key
        reply_key ← get_attr rec "public_key" null
        ok (ok_public_key reply_key)) in
      if_valid s (verify_reviewer_opt_in p now (some max_review_drift_seconds) rec signature)
        (if_stored (record s { reviewer_store = some store' }) outcome logged)

  unfoldable pub register_reviewer_to : NamingServer → Fields → Option ReviewerStore → Reply
  register_reviewer_to s msg none = refuse registry_disabled s
  register_reviewer_to s msg (some store) = with_record msg s (register_reviewer_in s store)

  -- `_handle_register_reviewer`
  unfoldable pub handle_register_reviewer : NamingServer → Fields → Reply
  handle_register_reviewer s msg = register_reviewer_to s msg s.reviewer_store

unfoldable pub resolve_found : NamingServer → Option Entry → Reply
resolve_found s none = refuse unknown_uri s
resolve_found s (some e) = (ok (found e), s)

unfoldable pub resolve_uri : NamingServer → UriError ⊎ String → Reply
resolve_uri s (inl e) = refuse (bad_uri e) s
resolve_uri s (inr uri) = resolve_found s (Names.get s.store uri)

-- `_handle_resolve`
unfoldable pub handle_resolve : NamingServer → Fields → Reply
handle_resolve s msg = resolve_uri s (validate_uri (get_or msg "uri" (str "")))

-- `_handle_list`
unfoldable pub handle_list : NamingServer → Fields → Reply
handle_list s msg =
    answer s (do page ← paginate (Names.list_records s.store) msg; ok (names page.0 page.1))

unfoldable pub list_reviewers_of : NamingServer → Fields → Option ReviewerStore → Reply
list_reviewers_of s msg none = (ok (reviewers [] none), s)
list_reviewers_of s msg (some store) =
    answer s (do page ← paginate (Reviewers.list_records store) msg; ok (reviewers page.0 page.1))

-- `_handle_list_reviewers`
unfoldable pub handle_list_reviewers : NamingServer → Fields → Reply
handle_list_reviewers s msg = list_reviewers_of s msg s.reviewer_store
