-- ===== src/Reader/Flows/Laws.antt =====
-- What a reviewer finds in the inbox.
use mdp2p.Prelude.{
  String, List, [], ◌∷◌, none, AllOf, false, true, Bool, ◌≡◌, if◌then◌else◌, subst, refl,
}
use mdp2p.Prelude.Int.{ℤ, pos, ltb_ℤ}
use mdp2p.Platform.{Platform}
use mdp2p.Bundle.Signed.{Verification, valid, refused}
use mdp2p.Naming.Client.{client_list_assignments}
use mdp2p.Peer.Daemon.{deadline_of}
use mdp2p.Py.Result.{Result, ok, raise, >>=-eq-ok, ok_injective, runtime_error}
use mdp2p.Py.Value.{Value, Fields, Items, nil, cons, get_attr, null, str, or_empty}
use mdp2p.Review.Record.{verify_review_assignment}
use mdp2p.Reader.Config.{ClientConfig}
use mdp2p.Reader.Flows.{
  Pending, keep_due, append_pending, pending_of, pending_in, inbox_in, do_list_inbox,
  require_naming, records_of,
}

module _ (p : Platform) (now : ℤ) where
  -- The publisher of the assignment has signed it, and its deadline is not over.
  pub record IsPending (q : Pending) : Type 0 where
    pub signed : verify_review_assignment p (pos 0) none q.rec q.signature ≡ ok valid
    pub deadline : ℤ
    pub deadline_at : deadline_of q.rec ≡ ok deadline
    pub due : ltb_ℤ deadline now ≡ false

  append_pending-AllOf :
      (qs ps : List Pending)
      → AllOf IsPending qs
      → AllOf IsPending ps
      → AllOf IsPending (append_pending qs ps)
  unfolding append_pending
  append_pending-AllOf [] ps all rest = rest
  append_pending-AllOf (q ∷ qs) ps all rest = (all.0, append_pending-AllOf qs ps all.1 rest)

  due_or_none :
      (rec signature : Value) (deadline : ℤ) (qs : List Pending) (b : Bool)
      → verify_review_assignment p (pos 0) none rec signature ≡ ok valid
      → deadline_of rec ≡ ok deadline
      → ltb_ℤ deadline now ≡ b
      → (if b then [] else record { rec = rec; signature = signature } ∷ []) ≡ qs
      → AllOf IsPending qs
  due_or_none rec signature deadline qs true signed deadline_at at e = subst (AllOf IsPending) e tt
  due_or_none rec signature deadline qs false signed deadline_at at e =
      subst (AllOf IsPending) e
        (record { signed = signed; deadline = deadline; deadline_at = deadline_at; due = at }, tt)

  keep_due→ :
      (rec signature : Value) (v : Verification) (qs : List Pending)
      → verify_review_assignment p (pos 0) none rec signature ≡ ok v
      → keep_due now rec signature v ≡ ok qs
      → AllOf IsPending qs
  unfolding keep_due
  keep_due→ rec signature (refused r) qs at e = subst (AllOf IsPending) (ok_injective _ _ e) tt
  keep_due→ rec signature valid qs at e =
      let (deadline, deadline_at, e₁) = >>=-eq-ok (deadline_of rec) _ e in
      due_or_none rec signature deadline qs (ltb_ℤ deadline now) at deadline_at refl
        (ok_injective _ _ e₁)

  pending_of→ :
      (entry : Value) (qs : List Pending) → pending_of p now entry ≡ ok qs → AllOf IsPending qs
  unfolding pending_of
  pending_of→ entry qs e =
      let (found, _, e₁) = >>=-eq-ok (get_attr entry "record" null) _ e in
      let (signature, _, e₂) = >>=-eq-ok (get_attr entry "signature" (str "")) _ e₁ in
      let (v, v_at, e₃) =
        >>=-eq-ok (verify_review_assignment p (pos 0) none (or_empty found) signature) _ e₂ in
      keep_due→ (or_empty found) signature v qs v_at e₃

  pending_in→ :
      (entries : Items) (qs : List Pending) → pending_in p now entries ≡ ok qs → AllOf IsPending qs
  unfolding pending_in
  pending_in→ nil qs e = subst (AllOf IsPending) (ok_injective [] qs e) tt
  pending_in→ (cons entry entries) qs e =
      let (first, first_at, e₁) = >>=-eq-ok (pending_of p now entry) _ e in
      let (rest, rest_at, e₂) = >>=-eq-ok (pending_in p now entries) _ e₁ in
      subst (AllOf IsPending) (ok_injective (append_pending first rest) qs e₂) (
        append_pending-AllOf first rest (pending_of→ entry first first_at)
          (pending_in→ entries rest rest_at))

  if_assignments :
      (b : Bool) (next : Result (List Pending)) (qs : List Pending)
      → (if b then next else raise runtime_error) ≡ ok qs
      → next ≡ ok qs
  if_assignments true next qs e = e
  if_assignments false next qs e = cc

  -- Whatever the naming server answers: an assignment stands in the inbox only if its publisher has
  -- signed it and its deadline is not over.
  pub do_list_inbox-IsPending :
      (config : ClientConfig) (rpc : Fields → Result Fields) (key : String) (inbox : List Pending)
      → do_list_inbox p now config rpc key ≡ ok inbox
      → AllOf IsPending inbox
  unfolding do_list_inbox inbox_in
  do_list_inbox-IsPending config rpc key inbox e =
      let (naming, _, e₁) = >>=-eq-ok (require_naming config) _ e in
      let (response, _, e₂) = >>=-eq-ok (client_list_assignments rpc key) _ e₁ in
      let (entries, _, e₃) = >>=-eq-ok (records_of response) _ (if_assignments _ _ inbox e₂) in
      pending_in→ entries inbox e₃
