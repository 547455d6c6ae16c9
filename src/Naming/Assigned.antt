-- ===== src/Naming/Assigned.antt =====
-- The rule of `strict_reviews` in naming.py: a review is kept only of a reviewer whom the inbox has an
-- assignment for.
use mdp2p.Naming.Step.Requests.{handle_stream-Step}
use mdp2p.Prelude.Int.{ℤ}
use mdp2p.Naming.Dispatch.{serve, handle_stream}
use mdp2p.Platform.{Platform}
use mdp2p.Dict.{lookup, slot}
use mdp2p.Naming.Stores.Assignments.Laws.{Placed, placed, none_placed}
use mdp2p.Py.Result.{ok}
use mdp2p.Naming.Stores.Attachments.{AttachmentStore}
use mdp2p.Dict.Every.{IsAt, Every₂, IsAt-insert, Every₂-touch, Every₂-insert}
use mdp2p.Py.Value.{Value, Items, read_key, get_attr, str}
use mdp2p.Naming.Stores.Disk.{Entry}
use mdp2p.Naming.Reviews.{
  check_review_was_assigned, find_assignment, check_found, check_assigned_in, get_at,
}
use mdp2p.Naming.Stores.Assignments.{AssignmentStore, Inbox, place}
use mdp2p.Naming.Server.{NamingServer}
use mdp2p.Prelude.{
  refl, [], ◌∷◌, String, some, ◌≡◌, true, none, Option, sym, ◌∙◌, subst, some_injective, List,
}
use mdp2p.Naming.Step.{Step, same, register, register_reviewer, post_assignment, attach_review}
use mdp2p.Naming.Stores.Assignments
use mdp2p.Naming.Stores.Attachments

-- The inbox has an assignment of the content to the reviewer.
pub record IsAssigned (s : NamingServer) (content_key reviewer : String) : Type 0 where
  pub store : AssignmentStore
  pub has_store : s.assignment_store ≡ some store
  pub assignment : IsAt store.inbox reviewer content_key

-- With `strict_reviews`, each review that is kept was assigned.
pub record IsStrict (s : NamingServer) : Type 0 where
  pub assigned :
      s.strict_reviews ≡ true
      → (store : AttachmentStore) → s.attachment_store ≡ some store
      → Every₂ (λ content_key reviewer e. IsAssigned s content_key reviewer) store.attachments

Placed-IsAt :
    (content_key : String) (e : Entry) (rs : Items) {a b : Inbox} (r c : String)
    → Placed content_key e rs a b
    → IsAt a r c
    → IsAt b r c
Placed-IsAt content_key e rs r c none_placed i = i
Placed-IsAt content_key e rs {a} r c (placed r' listed rest) i =
    Placed-IsAt content_key e rs r c rest (unfold place in IsAt-insert r' content_key e a r c i)

-- An assignment is never taken back.
add-IsAt :
    (store : AssignmentStore) (rec signature : Value) (r c : String)
    → IsAt store.inbox r c
    → IsAt (Assignments.add store rec signature).1.inbox r c
add-IsAt store rec signature r c i = on_change _ (Assignments.Laws.add-Change store rec signature)
  where
    on_change :
        (s' : AssignmentStore) → Assignments.Laws.Change store rec signature s' → IsAt s'.inbox r c
    on_change _ Assignments.Laws.unchanged = i
    on_change _ (Assignments.Laws.added ck v rs s' ck_at v_at rs_at moved) =
        Placed-IsAt ck _ rs r c moved i

found→IsAt :
    (store : AssignmentStore) (rec : Value) (c r : String) (o : Option Entry)
    → lookup c (slot store.inbox r) ≡ o
    → check_found rec (Assignments.rec_of o) ≡ ok none
    → IsAt store.inbox r c
unfolding check_found Assignments.rec_of
found→IsAt store rec c r none e h = cc
found→IsAt store rec c r (some x) e h = (x, e)

-- The check of the handler finds the assignment that it asks for.
check→IsAssigned :
    (s : NamingServer) (rec : Value) (c r : String) (o : Option AssignmentStore)
    → s.assignment_store ≡ o
    → get_attr rec "content_key" (str "") ≡ ok (str c)
    → get_attr rec "reviewer_public_key" (str "") ≡ ok (str r)
    → check_assigned_in rec o ≡ ok none
    → IsAssigned s c r
unfolding check_assigned_in find_assignment get_at read_key Assignments.get
check→IsAssigned s rec c r none e c_at r_at h = cc
check→IsAssigned s rec c r (some store) e c_at r_at h = record {
  store = store;
  has_store = e;
  assignment = found→IsAt store rec c r _ refl (sym (rw (r_at, c_at) refl) ∙ h);
}

move :
    {s s' : NamingServer} {c r : String}
    → s'.assignment_store ≡ s.assignment_store
    → IsAssigned s c r
    → IsAssigned s' c r
move e a = record { store = a.store; has_store = e ∙ a.has_store; assignment = a.assignment }

grow :
    (s s' : NamingServer) (store : AssignmentStore) (rec signature : Value) (c r : String)
    → s.assignment_store ≡ some store
    → s'.assignment_store ≡ some (Assignments.add store rec signature).1
    → IsAssigned s c r
    → IsAssigned s' c r
grow s s' store rec signature c r e e' a = record {
  store = (Assignments.add store rec signature).1;
  has_store = e';
  assignment =
      add-IsAt store rec signature r c
        (subst (λ x. IsAt x.inbox r c) (some_injective _ _ (sym a.has_store ∙ e)) a.assignment);
}

attach-IsAssigned :
    (s : NamingServer) (store : AttachmentStore) (rec signature : Value)
    → Every₂ (λ c r e. IsAssigned s c r) store.attachments
    → check_review_was_assigned s rec ≡ ok none
    → Every₂ (λ c r e. IsAssigned s c r) (Attachments.attach store rec signature).1.attachments
attach-IsAssigned s store rec signature all checked =
    on_change _ (Attachments.Laws.attach-Change store rec signature)
  where
    on_change :
        (s' : AttachmentStore)
        → Attachments.Laws.Change store rec signature s'
        → Every₂ (λ c r e. IsAssigned s c r) s'.attachments
    on_change _ Attachments.Laws.unchanged = all
    on_change _ (Attachments.Laws.touched ck) =
        unfold Attachments.touch in
        Every₂-touch (λ c r e. IsAssigned s c r) ck store.attachments all
    on_change _ (Attachments.Laws.written ck r ck_at r_at) =
        unfold Attachments.write in
        Every₂-insert (λ c r e. IsAssigned s c r) ck r (record { rec = rec; signature = signature })
          store.attachments all
          (check→IsAssigned s rec ck r s.assignment_store refl ck_at r_at
            (unfold check_review_was_assigned in checked))

Step-IsStrict :
    (p : Platform) (now : ℤ) (s s' : NamingServer) → Step p now s s' → IsStrict s → IsStrict s'
Step-IsStrict p now s s' same i = i
Step-IsStrict p now s s' (register rec signature v uri at parsed verified) i = record {
  assigned = λ strict store e c r x found. move refl (i.assigned strict store e c r x found);
}
Step-IsStrict p now s s' (register_reviewer st rec signature h verified) i = record {
  assigned = λ strict store e c r x found. move refl (i.assigned strict store e c r x found);
}
Step-IsStrict p now s s' (post_assignment st rec signature h verified allowed) i = record {
  assigned = λ strict store e c r x found.
      grow s _ st rec signature c r h refl (i.assigned strict store e c r x found);
}
Step-IsStrict p now s s' (attach_review st rec signature h verified allowed) i = record {
  assigned = λ strict store e c r x found. move refl (
      attach-IsAssigned s st rec signature (i.assigned strict st h) (allowed strict) c r x
        (subst (λ y. lookup r (slot y.attachments c) ≡ some x) (sym (some_injective _ _ e)) found));
}

-- With `strict_reviews`, if each review that the server keeps for a content key is by a reviewer in
-- whose inbox an assignment of that content stands (as on a server that keeps none), then this is so
-- after whatever requests, at whatever clock.
pub serve-IsStrict :
    (p : Platform) (s : NamingServer)
    → IsStrict s
    → (requests : List (ℤ × Option Value)) → IsStrict (serve p s requests)
unfolding serve
serve-IsStrict p s i [] = i
serve-IsStrict p s i ((now, request) ∷ rest) =
    serve-IsStrict p (handle_stream p now s request).1
      (Step-IsStrict p now s _ (handle_stream-Step p now s request) i) rest
