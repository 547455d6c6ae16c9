-- ===== src/Naming/Step/Requests.antt =====
-- Every request is a step of the server, whichever handler it goes to.
use mdp2p.Prelude.{
  ◌≡◌, refl, Bool, true, false, ◌⊎◌, inl, inr, String, Option, none, some, sym, subst,
  if◌then◌else◌, not,
}
use mdp2p.Naming.Stores.Disk.{Entry}
use mdp2p.Prelude.Int.{ℤ}
use mdp2p.Platform.{Platform}
use mdp2p.Py.Result.{ok, raise}
use mdp2p.Py.Value.{truthy, Value, Fields, str, obj, get_or, is_text, null}
use mdp2p.Bundle.Paths.{validate_uri, UriError}
use mdp2p.Naming.Stores.Reviewers.{ReviewerStore}
use mdp2p.Naming.Stores.Assignments.{AssignmentStore}
use mdp2p.Naming.Stores.Attachments.{AttachmentStore}
use mdp2p.Naming.Messages.{ServerError, unknown_type}
use mdp2p.Naming.Server.{
  NamingServer, Reply, refuse, answer, handle_register, handle_register_reviewer, handle_resolve,
  handle_list, handle_list_reviewers, list_reviewers_of, resolve_uri, resolve_found,
}
use mdp2p.Naming.Reviews.{
  handle_post_assignment, handle_attach_review, handle_list_assignments, handle_get_attachments,
  get_attachments_of, list_assignments_of,
}
use mdp2p.Naming.Dispatch.{send, dispatch, handle_stream}
use mdp2p.Naming.Step.{Step, same, not, truthy}
use mdp2p.Naming.Step.Handlers.{
  handle_register-Step, register_reviewer_to-Step, post_assignment_to-Step, attach_review_to-Step,
}

module _ (p : Platform) (now : ℤ) (s : NamingServer) where
  -- The handlers that only read
  same-Step : (s' : NamingServer) → s' ≡ s → Step p now s s'
  same-Step s' e = subst (Step p now s) (sym e) same

  if-server : (b : Bool) (x y : Reply) → x.1 ≡ s → y.1 ≡ s → (if b then x else y).1 ≡ s
  if-server true x y h k = h
  if-server false x y h k = k

  resolve_found-server : (o : Option Entry) → (resolve_found s o).1 ≡ s
  unfolding resolve_found refuse
  resolve_found-server none = refl
  resolve_found-server (some e) = refl

  resolve_uri-server : (c : UriError ⊎ String) → (resolve_uri s c).1 ≡ s
  unfolding resolve_uri refuse
  resolve_uri-server (inl e) = refl
  resolve_uri-server (inr uri) = resolve_found-server _

  list_reviewers_of-server :
      (msg : Fields) (o : Option ReviewerStore) → (list_reviewers_of s msg o).1 ≡ s
  unfolding list_reviewers_of answer
  list_reviewers_of-server msg none = refl
  list_reviewers_of-server msg (some store) = refl

  list_assignments_of-server :
      (key : Value) (o : Option AssignmentStore) → (list_assignments_of s key o).1 ≡ s
  unfolding list_assignments_of answer refuse
  list_assignments_of-server key none = refl
  list_assignments_of-server key (some store) = if-server (not (truthy key)) _ _ refl refl

  get_attachments_of-server :
      (key : Value) (o : Option AttachmentStore) → (get_attachments_of s key o).1 ≡ s
  unfolding get_attachments_of answer refuse
  get_attachments_of-server key none = refl
  get_attachments_of-server key (some store) = if-server (not (truthy key)) _ _ refl refl

  -- A reply with the server that it leaves is a step.
  data IsStep : Reply → Type 0 where
    step : (r : Reply) → Step p now s r.1 → IsStep r

  server-Step : (r : Reply) → IsStep r → Step p now s r.1
  server-Step _ (step r h) = h

  if-IsStep : (b : Bool) (x y : Reply) → IsStep x → IsStep y → IsStep (if b then x else y)
  if-IsStep true x y h k = h
  if-IsStep false x y h k = k

  handle_resolve-IsStep : (msg : Fields) → IsStep (handle_resolve s msg)
  unfolding handle_resolve
  handle_resolve-IsStep msg =
      step _ (same-Step _ (resolve_uri-server (validate_uri (get_or msg "uri" (str "")))))

  handle_list-IsStep : (msg : Fields) → IsStep (handle_list s msg)
  unfolding handle_list answer
  handle_list-IsStep msg = step _ same

  handle_register_reviewer-IsStep : (msg : Fields) → IsStep (handle_register_reviewer p now s msg)
  unfolding handle_register_reviewer
  handle_register_reviewer-IsStep msg =
      step _ (register_reviewer_to-Step p now s msg s.reviewer_store refl)

  handle_list_reviewers-IsStep : (msg : Fields) → IsStep (handle_list_reviewers s msg)
  unfolding handle_list_reviewers
  handle_list_reviewers-IsStep msg =
      step _ (same-Step _ (list_reviewers_of-server msg s.reviewer_store))

  handle_post_assignment-IsStep : (msg : Fields) → IsStep (handle_post_assignment p now s msg)
  unfolding handle_post_assignment
  handle_post_assignment-IsStep msg =
      step _ (post_assignment_to-Step p now s msg s.assignment_store refl)

  handle_list_assignments-IsStep : (msg : Fields) → IsStep (handle_list_assignments s msg)
  unfolding handle_list_assignments
  handle_list_assignments-IsStep msg = step _ (
      same-Step _
        (list_assignments_of-server (get_or msg "reviewer_public_key" (str "")) s.assignment_store))

  handle_attach_review-IsStep : (msg : Fields) → IsStep (handle_attach_review p now s msg)
  unfolding handle_attach_review
  handle_attach_review-IsStep msg =
      step _ (attach_review_to-Step p now s msg s.attachment_store refl)

  handle_get_attachments-IsStep : (msg : Fields) → IsStep (handle_get_attachments s msg)
  unfolding handle_get_attachments
  handle_get_attachments-IsStep msg = step _ (
      same-Step _
        (get_attachments_of-server (get_or msg "content_key" (str "")) s.attachment_store))

  refuse-IsStep : (e : ServerError) → IsStep (refuse e s)
  unfolding refuse
  refuse-IsStep e = step _ same

  dispatch-IsStep : (msg : Fields) (type : Value) → IsStep (dispatch p now s msg type)
  unfolding dispatch
  dispatch-IsStep msg type =
      if-IsStep (is_text type "register") _ _
        (step (handle_register p now s msg) (handle_register-Step p now s msg))
        (if-IsStep (is_text type "resolve") _ _ (handle_resolve-IsStep msg) (
          if-IsStep (is_text type "list") _ _ (handle_list-IsStep msg) (
            if-IsStep (is_text type "register_reviewer") _ _ (handle_register_reviewer-IsStep msg) (
              if-IsStep (is_text type "list_reviewers") _ _ (handle_list_reviewers-IsStep msg) (
                if-IsStep (is_text type "post_assignment") _ _ (handle_post_assignment-IsStep msg) (
                  if-IsStep (is_text type "list_assignments") _ _
                    (handle_list_assignments-IsStep msg)
                    (if-IsStep (is_text type "attach_review") _ _ (handle_attach_review-IsStep msg)
                      (if-IsStep (is_text type "get_attachments") _ _
                        (handle_get_attachments-IsStep msg) (refuse-IsStep unknown_type)))))))))

  send-server : (r : Reply) → (send r).1 ≡ r.1
  unfolding send
  send-server (raise x, s') = refl
  send-server (ok r, s') = refl

  -- Every request, whatever its content and its reply, is one step of the server: at most one store
  -- changes, by the method of that store, and only for a record whose signature and whose time stamp
  -- passed the check and which, if `strict_reviews` is set, passed the rules for reviews.
  pub handle_stream-Step : (request : Option Value) → Step p now s (handle_stream p now s request).1
  unfolding handle_stream
  handle_stream-Step none = same
  handle_stream-Step (some (obj msg)) =
      subst (Step p now s) (sym (send-server _))
        (server-Step _ (dispatch-IsStep msg (get_or msg "type" null)))
  handle_stream-Step (some _) = same
