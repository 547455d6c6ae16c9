-- ===== src/Review/Record/Laws.antt =====
-- What the three kinds of verified review records are.
use mdp2p.Prelude.{
  ◌||◌, ℕ, ◌≡◌, refl, ap, true, false, not, Option, arith, if◌then◌else◌, Bool, ◌↔◌,
}
use mdp2p.Prelude.Int.{ℤ}
use mdp2p.Platform.{Platform}
use mdp2p.Py.Result.{Result, ok, >>=-eq-ok, ok_injective}
use mdp2p.Py.Value.{Value, item, get_attr, str, null, is_text, is_list, is_str, truthy}
use mdp2p.Bundle.Signed.{Verification, valid, refused, Reason}
use mdp2p.Bundle.Signed.Laws.{IsSigned, IsFresh, check_signature→, →check_signature}
use mdp2p.Bundle.Signed.Required.{HasFields, require→, →require}
use mdp2p.Review.Record.{
  review_fields, check_review, is_verdict, verify_review_record, verify_review_assignment,
  assignment_fields, check_assignment, is_text_list, is_bad_deadline, compute_content_key,
  opt_in_fields, verify_reviewer_opt_in, check_opt_in,
}

not-false : (b : Bool) → not b ≡ false → b ≡ true
not-false true h = refl
not-false false h = cc

not-or : (a b : Bool) → (not a || not b) ≡ false → (a ≡ true) × (b ≡ true)
not-or a b h = ground arith

-- A guard that refuses was not taken.
unless :
    (b : Bool) (r : Reason) (next : Result Verification)
    → (if b then ok (refused r) else next) ≡ ok valid
    → (b ≡ false) × (next ≡ ok valid)
unless true r next h = absurd (ground arith)
unless false r next h = (refl, h)

module _ (p : Platform) (rec signature : Value) where
  -- A review record: a verdict of the three, signed by the reviewer that it names.
  pub record IsReview : Type 0 where
    pub present : HasFields rec review_fields
    pub verdict : Value
    pub verdict_at : item rec "verdict" ≡ ok verdict
    pub is_verdict_of : is_verdict verdict ≡ true
    pub signed : IsSigned p "reviewer_public_key" rec signature

  module _ (now : ℤ) (d : Option ℕ) where
    pub verify_review_record→ :
        verify_review_record p now d rec signature ≡ ok valid → IsFresh now rec d × IsReview
    unfolding verify_review_record check_review
    verify_review_record→ h =
        let (present, checked) = require→ rec review_fields _ h in
        let (v, at, h') = >>=-eq-ok (item rec "verdict") _ checked in
        let (good, h'') = unless (not (is_verdict v)) _ _ h' in
        let (fresh, signed) =
          check_signature→ p "reviewer_public_key" rec signature now d (ok_injective _ _ h'') in
        (
          fresh,
          record {
            present = present;
            verdict = v;
            verdict_at = at;
            is_verdict_of = not-false (is_verdict v) good;
            signed = signed;
          },
        )

    pub →verify_review_record :
        IsFresh now rec d → IsReview → verify_review_record p now d rec signature ≡ ok valid
    unfolding verify_review_record check_review
    →verify_review_record f r = →require rec review_fields _ r.present (
        rw (r.verdict_at, r.is_verdict_of)
          (ap ok (→check_signature p "reviewer_public_key" rec signature now d f r.signed)))

  -- An assignment: texts for reviewers, a positive deadline, the content key of its address and
  -- publisher, signed by that publisher.
  pub record IsAssignment : Type 0 where
    pub present : HasFields rec assignment_fields
    pub reviewers : Value
    pub reviewers_at : item rec "reviewer_public_keys" ≡ ok reviewers
    pub reviewers_texts : is_text_list reviewers ≡ true
    pub deadline : Value
    pub deadline_at : item rec "deadline" ≡ ok deadline
    pub deadline_positive : is_bad_deadline deadline ≡ false
    pub uri : Value
    pub uri_at : get_attr rec "uri" (str "") ≡ ok uri
    pub publisher : Value
    pub publisher_at : get_attr rec "publisher_public_key" (str "") ≡ ok publisher
    pub content_key : Value
    pub content_key_at : get_attr rec "content_key" null ≡ ok content_key
    pub content_key_of : is_text content_key (compute_content_key p uri publisher) ≡ true
    pub signed : IsSigned p "publisher_public_key" rec signature

  module _ (now : ℤ) (d : Option ℕ) where
    pub verify_review_assignment→ :
        verify_review_assignment p now d rec signature ≡ ok valid → IsFresh now rec d × IsAssignment
    unfolding verify_review_assignment check_assignment
    verify_review_assignment→ h =
        let (present, checked) = require→ rec assignment_fields _ h in
        let (rs, rs_at, h₁) = >>=-eq-ok (item rec "reviewer_public_keys") _ checked in
        let (rs_good, h₂) = unless (not (is_text_list rs)) _ _ h₁ in
        let (dl, dl_at, h₃) = >>=-eq-ok (item rec "deadline") _ h₂ in
        let (dl_good, h₄) = unless (is_bad_deadline dl) _ _ h₃ in
        let (u, u_at, h₅) = >>=-eq-ok (get_attr rec "uri" (str "")) _ h₄ in
        let (pk, pk_at, h₆) = >>=-eq-ok (get_attr rec "publisher_public_key" (str "")) _ h₅ in
        let (c, c_at, h₇) = >>=-eq-ok (get_attr rec "content_key" null) _ h₆ in
        let (c_good, h₈) = unless (not (is_text c (compute_content_key p u pk))) _ _ h₇ in
        let (fresh, signed) =
          check_signature→ p "publisher_public_key" rec signature now d (ok_injective _ _ h₈) in
        (
          fresh,
          record {
            present = present;
            reviewers = rs;
            reviewers_at = rs_at;
            reviewers_texts = not-false (is_text_list rs) rs_good;
            deadline = dl;
            deadline_at = dl_at;
            deadline_positive = dl_good;
            uri = u;
            uri_at = u_at;
            publisher = pk;
            publisher_at = pk_at;
            content_key = c;
            content_key_at = c_at;
            content_key_of = not-false (is_text c (compute_content_key p u pk)) c_good;
            signed = signed;
          },
        )

    pub →verify_review_assignment :
        IsFresh now rec d → IsAssignment → verify_review_assignment p now d rec signature ≡ ok valid
    unfolding verify_review_assignment check_assignment
    →verify_review_assignment f a = →require rec assignment_fields _ a.present (
        rw
          (
            a.reviewers_at, a.reviewers_texts, a.deadline_at, a.deadline_positive, a.uri_at,
            a.publisher_at, a.content_key_at, a.content_key_of,
          )
          (ap ok (→check_signature p "publisher_public_key" rec signature now d f a.signed)))

  -- An opt-in: a list of categories, texts for addresses, a non-empty peer id, signed by the reviewer.
  pub record IsOptIn : Type 0 where
    pub present : HasFields rec opt_in_fields
    pub categories : Value
    pub categories_at : item rec "categories" ≡ ok categories
    pub categories_list : is_list categories ≡ true
    pub addrs : Value
    pub addrs_at : item rec "addrs" ≡ ok addrs
    pub addrs_texts : is_text_list addrs ≡ true
    pub peer_id : Value
    pub peer_id_at : item rec "peer_id" ≡ ok peer_id
    pub peer_id_text : is_str peer_id ≡ true
    pub peer_id_full : truthy peer_id ≡ true
    pub signed : IsSigned p "public_key" rec signature

  module _ (now : ℤ) (d : Option ℕ) where
    pub verify_reviewer_opt_in→ :
        verify_reviewer_opt_in p now d rec signature ≡ ok valid → IsFresh now rec d × IsOptIn
    unfolding verify_reviewer_opt_in check_opt_in
    verify_reviewer_opt_in→ h =
        let (present, checked) = require→ rec opt_in_fields _ h in
        let (cs, cs_at, h₁) = >>=-eq-ok (item rec "categories") _ checked in
        let (cs_good, h₂) = unless (not (is_list cs)) _ _ h₁ in
        let (as', as_at, h₃) = >>=-eq-ok (item rec "addrs") _ h₂ in
        let (as_good, h₄) = unless (not (is_text_list as')) _ _ h₃ in
        let (id, id_at, h₅) = >>=-eq-ok (item rec "peer_id") _ h₄ in
        let (id_good, h₆) = unless (not (is_str id) || not (truthy id)) _ _ h₅ in
        let (fresh, signed) =
          check_signature→ p "public_key" rec signature now d (ok_injective _ _ h₆) in
        (
          fresh,
          record {
            present = present;
            categories = cs;
            categories_at = cs_at;
            categories_list = not-false (is_list cs) cs_good;
            addrs = as';
            addrs_at = as_at;
            addrs_texts = not-false (is_text_list as') as_good;
            peer_id = id;
            peer_id_at = id_at;
            peer_id_text = (not-or (is_str id) (truthy id) id_good).0;
            peer_id_full = (not-or (is_str id) (truthy id) id_good).1;
            signed = signed;
          },
        )

    pub →verify_reviewer_opt_in :
        IsFresh now rec d → IsOptIn → verify_reviewer_opt_in p now d rec signature ≡ ok valid
    unfolding verify_reviewer_opt_in check_opt_in
    →verify_reviewer_opt_in f a = →require rec opt_in_fields _ a.present (
        rw
          (
            a.categories_at, a.categories_list, a.addrs_at, a.addrs_texts, a.peer_id_at,
            a.peer_id_text, a.peer_id_full,
          )
          (ap ok (→check_signature p "public_key" rec signature now d f a.signed)))

    -- Each of the three verifiers of review/record.py returns True exactly for a record of its kind
    -- that is fresh: of the shape that the kind asks for, and signed over its canonical JSON by the
    -- key that the record names for its author. For an assignment the content key is that of its own
    -- address and publisher.
    pub review_records_iff :
        ((verify_reviewer_opt_in p now d rec signature ≡ ok valid) ↔ (IsFresh now rec d × IsOptIn))
        × ((verify_review_assignment p now d rec signature ≡ ok valid)
            ↔ (IsFresh now rec d × IsAssignment))
        × ((verify_review_record p now d rec signature ≡ ok valid) ↔ (IsFresh now rec d × IsReview))
    review_records_iff = (
      (verify_reviewer_opt_in→, λ h. →verify_reviewer_opt_in h.0 h.1),
      (verify_review_assignment→ now d, λ h. →verify_review_assignment now d h.0 h.1),
      (verify_review_record→ now d, λ h. →verify_review_record now d h.0 h.1),
    )
