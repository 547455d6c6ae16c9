-- ===== src/Naming/Authentic.antt =====
-- What the four stores of the naming server of naming.py hold: signed records, each under the keys that
-- the record itself names.
pub mod Serve
use mdp2p.Bundle.NameRecord.Laws.{verify_name_record_later}
use mdp2p.Naming.Stores.Names.Laws.{set-cases}
use mdp2p.Bundle.Signed.Laws.{unchecked}
use mdp2p.Review.Record.Laws.{
  →verify_review_assignment, →verify_reviewer_opt_in, verify_reviewer_opt_in→,
  verify_review_assignment→, →verify_review_record, verify_review_record→,
}
use mdp2p.Naming.Stores.Assignments.Laws.{Placed, placed, none_placed}
use mdp2p.Bundle.Signed.{valid}
use mdp2p.Bundle.Paths.{validate_uri}
use mdp2p.Py.Result.{ok}
use mdp2p.Py.Value.{Value, Items, get_attr, has_str, str, null}
use mdp2p.Review.Record.{
  verify_reviewer_opt_in, verify_review_assignment, verify_review_record, max_review_drift_seconds,
}
use mdp2p.Bundle.NameRecord.{verify_name_record, max_timestamp_drift_seconds}
use mdp2p.Dict.Every.{Every, Every₂, Every₂-touch, Every-insert, Every₂-insert}
use mdp2p.Prelude.Int.{ℤ, pos}
use mdp2p.Naming.Stores.Disk.{Entry}
use mdp2p.Naming.Stores.Names.{NameStore}
use mdp2p.Naming.Server.{NamingServer}
use mdp2p.Prelude.{String, ◌≡◌, some, none, true, inr, inl, subst, sym}
use mdp2p.Naming.Stores.Assignments.{AssignmentStore, Inbox, place, reviewers_of}
use mdp2p.Naming.Stores.Reviewers.{ReviewerStore}
use mdp2p.Naming.Stores.Attachments.{AttachmentStore}
use mdp2p.Platform.{Platform}
use mdp2p.Naming.Stores.Names
use mdp2p.Naming.Stores.Reviewers
use mdp2p.Naming.Stores.Assignments
use mdp2p.Naming.Stores.Attachments

module _ (p : Platform) where
  -- The checks of a client, which skips the drift, pass on a stored entry.
  abbrev pub IsNameAt : String → Entry → Type 0
  IsNameAt uri e =
      (verify_name_record p (pos 0) none e.rec e.signature ≡ ok valid)
      × (v : Value) × (get_attr e.rec "uri" (str "") ≡ ok v)
      × (validate_uri v ≡ inr uri)

  abbrev pub IsOptInAt : String → Entry → Type 0
  IsOptInAt key e =
      (verify_reviewer_opt_in p (pos 0) none e.rec e.signature ≡ ok valid)
      × (get_attr e.rec "public_key" (str "") ≡ ok (str key))

  abbrev pub IsAssignmentAt : String → String → Entry → Type 0
  IsAssignmentAt reviewer content_key e =
      (verify_review_assignment p (pos 0) none e.rec e.signature ≡ ok valid)
      × (get_attr e.rec "content_key" (str "") ≡ ok (str content_key))
      × (v : Value) × (rs : Items) × (get_attr e.rec "reviewer_public_keys" null ≡ ok v)
      × (reviewers_of v ≡ ok rs)
      × (has_str rs reviewer ≡ true)

  abbrev pub IsReviewAt : String → String → Entry → Type 0
  IsReviewAt content_key reviewer e =
      (verify_review_record p (pos 0) none e.rec e.signature ≡ ok valid)
      × (get_attr e.rec "content_key" (str "") ≡ ok (str content_key))
      × (get_attr e.rec "reviewer_public_key" (str "") ≡ ok (str reviewer))

  pub record IsAuthentic (s : NamingServer) : Type 0 where
    pub names : Every IsNameAt s.store.records
    pub opt_ins :
        (store : ReviewerStore) → s.reviewer_store ≡ some store → Every IsOptInAt store.records
    pub assignments :
        (store : AssignmentStore)
        → s.assignment_store ≡ some store
        → Every₂ IsAssignmentAt store.inbox
    pub reviews :
        (store : AttachmentStore)
        → s.attachment_store ≡ some store
        → Every₂ IsReviewAt store.attachments

  pub names-set :
      (store : NameStore) (now : ℤ) (rec signature v : Value) (uri : String)
      → Every IsNameAt store.records
      → get_attr rec "uri" (str "") ≡ ok v
      → validate_uri v ≡ inr uri
      → verify_name_record p now (some max_timestamp_drift_seconds) rec signature ≡ ok valid
      → Every IsNameAt (Names.set store uri rec signature).1.records
  names-set store now rec signature v uri all at parsed verified =
      elim (set-cases store uri rec signature) [
        | inl e ↦ subst (λ s. Every IsNameAt s.records) (sym e) all
        | inr (h, e) ↦
            subst (λ s. Every IsNameAt s.records) (sym e)
              (unfold Names.write in
                Every-insert IsNameAt uri (record { rec = rec; signature = signature })
                  store.records all
                  (verify_name_record_later p now (pos 0) _ rec signature verified, v, at, parsed))
      ]

  pub opt_ins-set :
      (store : ReviewerStore) (now : ℤ) (rec signature : Value)
      → Every IsOptInAt store.records
      → verify_reviewer_opt_in p now (some max_review_drift_seconds) rec signature ≡ ok valid
      → Every IsOptInAt (Reviewers.set store rec signature).1.records
  opt_ins-set store now rec signature all verified =
      on_change _ (Reviewers.Laws.set-Change store rec signature)
    where
      on_change :
          (s' : ReviewerStore)
          → Reviewers.Laws.Change store rec signature s'
          → Every IsOptInAt s'.records
      on_change _ Reviewers.Laws.unchanged = all
      on_change _ (Reviewers.Laws.written key at) =
          unfold Reviewers.write in
          Every-insert IsOptInAt key (record { rec = rec; signature = signature }) store.records all
            (
              →verify_reviewer_opt_in p rec signature (pos 0) none unchecked
                  (verify_reviewer_opt_in→ p rec signature now _ verified).1,
              at,
            )

  Placed-Every₂ :
      (content_key : String) (e : Entry) (rs : Items) {a b : Inbox}
      → ((r : String) → has_str rs r ≡ true → IsAssignmentAt r content_key e)
      → Placed content_key e rs a b
      → Every₂ IsAssignmentAt a
      → Every₂ IsAssignmentAt b
  Placed-Every₂ content_key e rs one none_placed all = all
  Placed-Every₂ content_key e rs {a} one (placed r listed rest) all =
      Placed-Every₂ content_key e rs one rest
        (unfold place in Every₂-insert IsAssignmentAt r content_key e a all (one r listed))

  pub assignments-add :
      (store : AssignmentStore) (now : ℤ) (rec signature : Value)
      → Every₂ IsAssignmentAt store.inbox
      → verify_review_assignment p now (some max_review_drift_seconds) rec signature ≡ ok valid
      → Every₂ IsAssignmentAt (Assignments.add store rec signature).1.inbox
  assignments-add store now rec signature all verified =
      on_change _ (Assignments.Laws.add-Change store rec signature)
    where
      on_change :
          (s' : AssignmentStore)
          → Assignments.Laws.Change store rec signature s'
          → Every₂ IsAssignmentAt s'.inbox
      on_change _ Assignments.Laws.unchanged = all
      on_change _ (Assignments.Laws.added ck v rs s' ck_at v_at rs_at moved) =
          Placed-Every₂ ck _ rs
            (λ r listed. (
              →verify_review_assignment p rec signature (pos 0) none unchecked
                  (verify_review_assignment→ p rec signature now _ verified).1,
              ck_at,
              v,
              rs,
              v_at,
              rs_at,
              listed,
            ))
            moved all

  pub reviews-attach :
      (store : AttachmentStore) (now : ℤ) (rec signature : Value)
      → Every₂ IsReviewAt store.attachments
      → verify_review_record p now (some max_review_drift_seconds) rec signature ≡ ok valid
      → Every₂ IsReviewAt (Attachments.attach store rec signature).1.attachments
  reviews-attach store now rec signature all verified =
      on_change _ (Attachments.Laws.attach-Change store rec signature)
    where
      on_change :
          (s' : AttachmentStore)
          → Attachments.Laws.Change store rec signature s'
          → Every₂ IsReviewAt s'.attachments
      on_change _ Attachments.Laws.unchanged = all
      on_change _ (Attachments.Laws.touched ck) =
          unfold Attachments.touch in Every₂-touch IsReviewAt ck store.attachments all
      on_change _ (Attachments.Laws.written ck r ck_at r_at) =
          unfold Attachments.write in
          Every₂-insert IsReviewAt ck r (record { rec = rec; signature = signature })
            store.attachments all
            (
              →verify_review_record p rec signature (pos 0) none unchecked
                  (verify_review_record→ p rec signature now _ verified).1,
              ck_at,
              r_at,
            )
