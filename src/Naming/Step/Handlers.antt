-- ===== src/Naming/Step/Handlers.antt =====
-- The four handlers that write are steps of the server.
use mdp2p.Prelude.{◌≡◌, refl, ◌⊎◌, inl, inr, String, Option, none, some, sym, subst}
use mdp2p.Prelude.Int.{ℤ}
use mdp2p.Platform.{Platform}
use mdp2p.Py.Result.{Result, ok, raise}
use mdp2p.Py.Value.{Value, Fields, str, get_attr}
use mdp2p.Bundle.Paths.{validate_uri, UriError}
use mdp2p.Naming.Stores.Names
use mdp2p.Naming.Stores.Reviewers.{ReviewerStore}
use mdp2p.Naming.Stores.Assignments.{AssignmentStore}
use mdp2p.Naming.Stores.Attachments.{AttachmentStore}
use mdp2p.Naming.Server.{
  NamingServer, refuse, register_at, register_uri, handle_register, register_reviewer_in,
  register_valid, register_reviewer_to,
}
use mdp2p.Naming.Reviews.{
  post_assignment_in, attach_review_in, attach_review_to, post_assignment_to,
}
use mdp2p.Naming.Step.{
  Step, same, register, register_reviewer, post_assignment, attach_review, with_record-Step,
  if_valid-Step, if_allowed-Step, if_stored-server,
}

module _ (p : Platform) (now : ℤ) (s : NamingServer) where
  register_at-server :
      (rec signature : Value) (uri : String)
      → (register_at p now s rec signature uri).1
        ≡ record s { store = (Names.set s.store uri rec signature).1 }
  unfolding register_at
  register_at-server rec signature uri = if_stored-server _ _ _

  register_valid-Step :
      (rec signature v : Value) (c : UriError ⊎ String)
      → get_attr rec "uri" (str "") ≡ ok v
      → validate_uri v ≡ c
      → Step p now s (register_valid p now s rec signature c).1
  unfolding register_valid refuse
  register_valid-Step rec signature v (inl x) at e = same
  register_valid-Step rec signature v (inr uri) at e =
      if_valid-Step _ (register_at p now s rec signature uri) (λ verified.
        subst (Step p now s) (sym (register_at-server rec signature uri))
          (register rec signature v uri at e verified))

  register_uri-Step :
      (rec signature : Value) (r : Result Value)
      → get_attr rec "uri" (str "") ≡ r
      → Step p now s (register_uri p now s rec signature r).1
  unfolding register_uri
  register_uri-Step rec signature (raise x) e = same
  register_uri-Step rec signature (ok v) e =
      register_valid-Step rec signature v (validate_uri v) e refl

  pub handle_register-Step : (msg : Fields) → Step p now s (handle_register p now s msg).1
  unfolding handle_register
  handle_register-Step msg =
      with_record-Step msg
        (λ rec signature. register_uri p now s rec signature (get_attr rec "uri" (str "")))
        (λ rec signature. register_uri-Step rec signature (get_attr rec "uri" (str "")) refl)

  register_reviewer_in-Step :
      (store : ReviewerStore) (rec signature : Value)
      → s.reviewer_store ≡ some store
      → Step p now s (register_reviewer_in p now s store rec signature).1
  unfolding register_reviewer_in
  register_reviewer_in-Step store rec signature e = if_valid-Step _ _ (λ verified.
      subst (Step p now s) (sym (if_stored-server _ _ _))
        (register_reviewer store rec signature e verified))

  pub register_reviewer_to-Step :
      (msg : Fields) (o : Option ReviewerStore)
      → s.reviewer_store ≡ o
      → Step p now s (register_reviewer_to p now s msg o).1
  unfolding register_reviewer_to refuse
  register_reviewer_to-Step msg none e = same
  register_reviewer_to-Step msg (some store) e =
      with_record-Step msg _ (λ rec signature. register_reviewer_in-Step store rec signature e)

  post_assignment_in-Step :
      (store : AssignmentStore) (rec signature : Value)
      → s.assignment_store ≡ some store
      → Step p now s (post_assignment_in p now s store rec signature).1
  unfolding post_assignment_in
  post_assignment_in-Step store rec signature e = if_valid-Step _ _ (λ verified.
      if_allowed-Step _ _ (λ allowed.
        subst (Step p now s) (sym (if_stored-server _ _ _))
          (post_assignment store rec signature e verified allowed)))

  pub post_assignment_to-Step :
      (msg : Fields) (o : Option AssignmentStore)
      → s.assignment_store ≡ o
      → Step p now s (post_assignment_to p now s msg o).1
  unfolding post_assignment_to refuse
  post_assignment_to-Step msg none e = same
  post_assignment_to-Step msg (some store) e =
      with_record-Step msg _ (λ rec signature. post_assignment_in-Step store rec signature e)

  attach_review_in-Step :
      (store : AttachmentStore) (rec signature : Value)
      → s.attachment_store ≡ some store
      → Step p now s (attach_review_in p now s store rec signature).1
  unfolding attach_review_in
  attach_review_in-Step store rec signature e = if_valid-Step _ _ (λ verified.
      if_allowed-Step _ _ (λ allowed.
        subst (Step p now s) (sym (if_stored-server _ _ _))
          (attach_review store rec signature e verified allowed)))

  pub attach_review_to-Step :
      (msg : Fields) (o : Option AttachmentStore)
      → s.attachment_store ≡ o
      → Step p now s (attach_review_to p now s msg o).1
  unfolding attach_review_to refuse
  attach_review_to-Step msg none e = same
  attach_review_to-Step msg (some store) e =
      with_record-Step msg _ (λ rec signature. attach_review_in-Step store rec signature e)
