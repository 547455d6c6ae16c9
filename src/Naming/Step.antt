-- ===== src/Naming/Step.antt =====
-- What one request may do to the naming server, as a step relation with the guards that the handlers
-- put before a write, and the proof that every request is such a step.
pub mod Handlers
pub mod Requests
use mdp2p.Prelude.{
  ℕ, ◌≡◌, refl, Bool, true, false, not, ◌||◌, ◌⊎◌, inl, inr, String, Option, none, some, List, [],
  ◌∷◌, Bool-cases, arith, if◌then◌else◌,
}
use mdp2p.Prelude.Int.{ℤ}
use mdp2p.Platform.{Platform}
use mdp2p.Py.Result.{Result, ok, raise}
use mdp2p.Py.Value.{Value, Fields, str, obj, get_or, get_attr, truthy, or_empty, null}
use mdp2p.Bundle.Paths.{validate_uri}
use mdp2p.Bundle.Signed.{Verification, valid, refused}
use mdp2p.Bundle.NameRecord.{verify_name_record, max_timestamp_drift_seconds}
use mdp2p.Review.Record.{
  verify_reviewer_opt_in, verify_review_assignment, verify_review_record, max_review_drift_seconds,
}
use mdp2p.Naming.Stores.Disk.{Outcome, stored, rejected}
use mdp2p.Naming.Stores.Names
use mdp2p.Naming.Stores.Reviewers
use mdp2p.Naming.Stores.Reviewers.{ReviewerStore}
use mdp2p.Naming.Stores.Assignments
use mdp2p.Naming.Stores.Assignments.{AssignmentStore}
use mdp2p.Naming.Stores.Attachments
use mdp2p.Naming.Stores.Attachments.{AttachmentStore}
use mdp2p.Naming.Messages.{Response, ServerError, record_and_signature_required}
use mdp2p.Naming.Server.{NamingServer, Reply, refuse, with_record, if_valid, if_stored}
use mdp2p.Naming.Reviews.{
  check_assignment_reviewers, check_review_was_assigned, if_allowed, on_check,
}

pub data Step (p : Platform) (now : ℤ) (s : NamingServer) : NamingServer → Type 0 where
  same : Step p now s s
  register :
      (rec signature v : Value) (uri : String)
      → get_attr rec "uri" (str "") ≡ ok v
      → validate_uri v ≡ inr uri
      → verify_name_record p now (some max_timestamp_drift_seconds) rec signature ≡ ok valid
      → Step p now s (record s { store = (Names.set s.store uri rec signature).1 })
  register_reviewer :
      (store : ReviewerStore) (rec signature : Value)
      → s.reviewer_store ≡ some store
      → verify_reviewer_opt_in p now (some max_review_drift_seconds) rec signature ≡ ok valid
      → Step p now s (record s { reviewer_store = some (Reviewers.set store rec signature).1 })
  post_assignment :
      (store : AssignmentStore) (rec signature : Value)
      → s.assignment_store ≡ some store
      → verify_review_assignment p now (some max_review_drift_seconds) rec signature ≡ ok valid
      → (s.strict_reviews ≡ true → check_assignment_reviewers s rec ≡ ok none)
      → Step p now s (record s { assignment_store = some (Assignments.add store rec signature).1 })
  attach_review :
      (store : AttachmentStore) (rec signature : Value)
      → s.attachment_store ≡ some store
      → verify_review_record p now (some max_review_drift_seconds) rec signature ≡ ok valid
      → (s.strict_reviews ≡ true → check_review_was_assigned s rec ≡ ok none)
      → Step p now s
          (record s { attachment_store = some (Attachments.attach store rec signature).1 })

module _ {p : Platform} {now : ℤ} {s : NamingServer} where
  if-Step :
      (b : Bool) (x y : Reply)
      → (b ≡ true → Step p now s x.1)
      → (b ≡ false → Step p now s y.1)
      → Step p now s (if b then x else y).1
  if-Step true x y h k = h refl
  if-Step false x y h k = k refl

  pub with_record-Step :
      (msg : Fields) (next : Value → Value → Reply)
      → ((rec signature : Value) → Step p now s (next rec signature).1)
      → Step p now s (with_record msg s next).1
  unfolding with_record refuse
  with_record-Step msg next h =
      let rec = or_empty (get_or msg "record" null) in
      let signature = get_or msg "signature" (str "") in
      if-Step (not (truthy rec) || not (truthy signature)) (refuse record_and_signature_required s)
        (next rec signature) (λ _. same) (λ _. h rec signature)

  pub if_valid-Step :
      (v : Result Verification) (next : Reply)
      → (v ≡ ok valid → Step p now s next.1)
      → Step p now s (if_valid s v next).1
  unfolding if_valid refuse
  if_valid-Step (raise x) next h = same
  if_valid-Step (ok (refused r)) next h = same
  if_valid-Step (ok valid) next h = h refl

  on_check-Step :
      (check : Result (Option ServerError)) (next : Reply)
      → (check ≡ ok none → Step p now s next.1)
      → Step p now s (on_check s check next).1
  unfolding on_check refuse
  on_check-Step (raise x) next h = same
  on_check-Step (ok (some e)) next h = same
  on_check-Step (ok none) next h = h refl

  pub if_allowed-Step :
      (check : Result (Option ServerError)) (next : Reply)
      → ((s.strict_reviews ≡ true → check ≡ ok none) → Step p now s next.1)
      → Step p now s (if_allowed s check next).1
  unfolding if_allowed
  if_allowed-Step check next h =
      if-Step s.strict_reviews (on_check s check next) next
        (λ strict. on_check-Step check next (λ e. h (λ _. e))) (λ lax. h (λ strict. ground arith))

pub if_stored-server :
    (s : NamingServer) (o : Result Outcome) (r : Result Response) → (if_stored s o r).1 ≡ s
unfolding if_stored refuse
if_stored-server s (raise x) r = refl
if_stored-server s (ok (rejected x)) r = refl
if_stored-server s (ok stored) r = refl
