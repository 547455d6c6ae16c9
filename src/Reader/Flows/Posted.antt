-- ===== src/Reader/Flows/Posted.antt =====
-- The review that a reviewer posts.
use mdp2p.Py.Number.{to_int}
use mdp2p.Prelude.{
  String, some, true, false, Bool, ◌≡◌, ◌≤◌, if◌then◌else◌, subst, refl, ap, sym, ◌∙◌, eq_refl,
}
use mdp2p.Prelude.Int.{ℤ, distance}
use mdp2p.Platform.{Platform, IsSound}
use mdp2p.Bundle.Signed.{valid}
use mdp2p.Bundle.Signed.Laws.{within}
use mdp2p.Naming.Client.{client_attach_review}
use mdp2p.Py.Json.{canonical_json}
use mdp2p.Py.Result.{Result, ok, raise, >>=-eq-ok, ok_injective, runtime_error, value_error}
use mdp2p.Py.Value.{Fields, null, int, str, obj, end, field, item, get_or, is_text, get, contains}
use mdp2p.Review.Record.{
  is_verdict, build_review_record, sign_review_record, verify_review_record,
  max_review_drift_seconds,
}
use mdp2p.Review.Record.Laws.{→verify_review_record}
use mdp2p.Reader.Config.{ClientConfig}
use mdp2p.Reader.Flows.{signed_review, post_review, do_attach_review, require_naming}

module _ (p : Platform) (key : p.PrivateKey) (now : ℤ) where
  abbrev own_review : String → String → String → Fields
  own_review content_key verdict comment = field "content_key" (str content_key) (
      field "reviewer_public_key" (str (p.public_key_to_b64 (p.public_key key))) (
        field "verdict" (str verdict)
          (field "comment" (str comment) (field "timestamp" (int now) end))))

  own_signature : Fields → String
  own_signature rec = p.b64encode (p.sign key (canonical_json rec))

  -- The server has taken the review, which names the content and the verdict; and it verifies as one of
  -- the three verdicts, signed by the reviewer, wherever the clock is at most five minutes off.
  pub record IsReviewOf (rpc : Fields → Result Fields) (content_key verdict : String)
      (review : Fields) (signature : String) : Type 0 where
    pub content_at : item (obj review) "content_key" ≡ ok (str content_key)
    pub verdict_at : item (obj review) "verdict" ≡ ok (str verdict)
    pub response : Fields
    pub answered : client_attach_review rpc (obj review) signature ≡ ok response
    pub taken : is_text (get_or response "type" null) "ok" ≡ true
    pub accepted :
        (t : ℤ)
        → distance t now ≤ max_review_drift_seconds
        → verify_review_record p t (some max_review_drift_seconds) (obj review) (str signature)
          ≡ ok valid

  signed_review→ :
      (content_key verdict comment : String) (q : Fields × String)
      → is_verdict (str verdict) ≡ true
      → signed_review p key now content_key verdict comment ≡ ok q
      → (
        own_review content_key verdict comment,
        own_signature (own_review content_key verdict comment),
      )
        ≡ q
  unfolding signed_review build_review_record sign_review_record own_signature get_or is_text
  signed_review→ content_key verdict comment q good e =
      ok_injective _ q (sym (rw (good, eq_refl (p.public_key_to_b64 (p.public_key key))) refl) ∙ e)

  if_taken :
      (b : Bool) (posted q : Fields × String)
      → (if b then ok posted else raise runtime_error) ≡ ok q
      → (b ≡ true) × (posted ≡ q)
  if_taken true posted q e = (refl, ok_injective _ _ e)
  if_taken false posted q e = absurd cc

  if_verdict :
      (b : Bool) (next : Result (Fields × String)) (q : Fields × String)
      → (if b then next else raise value_error) ≡ ok q
      → (b ≡ true) × (next ≡ ok q)
  if_verdict true next q e = (refl, e)
  if_verdict false next q e = absurd cc

  module _ (sound : IsSound p) where
    own_review-verifies :
        (content_key verdict comment : String) (t : ℤ)
        → is_verdict (str verdict) ≡ true
        → distance t now ≤ max_review_drift_seconds
        → verify_review_record p t
            (some max_review_drift_seconds)
            (obj (own_review content_key verdict comment))
            (str (own_signature (own_review content_key verdict comment)))
          ≡ ok valid
    unfolding own_signature canonical_json contains item to_int get
    own_review-verifies content_key verdict comment t good near =
        let rec : Fields = own_review content_key verdict comment in
        →verify_review_record p (obj rec) (str (own_signature rec)) t
          (some max_review_drift_seconds)
          (within max_review_drift_seconds (int now) now refl refl near)
          record {
            present = (refl, (refl, (refl, (refl, (refl, tt)))));
            verdict = str verdict;
            verdict_at = refl;
            is_verdict_of = good;
            signed = record {
              key_text = p.public_key_to_b64 (p.public_key key);
              key = p.public_key key;
              signature_text = own_signature rec;
              bytes = p.sign key (canonical_json rec);
              key_at = refl;
              key_read = sound.key-b64 (p.public_key key);
              signature_at = refl;
              signature_read = sound.decode-encode (p.sign key (canonical_json rec));
              verified = sound.verify-sign key (canonical_json rec);
            };
          }

    taken→ :
        (rpc : Fields → Result Fields) (content_key verdict comment : String) (q : Fields × String)
        → is_verdict (str verdict) ≡ true
        → post_review rpc (
          own_review content_key verdict comment,
          own_signature (own_review content_key verdict comment),
        )
          ≡ ok q
        → IsReviewOf rpc content_key verdict q.0 q.1
    unfolding post_review item get
    taken→ rpc content_key verdict comment q good e =
        let rec : Fields = own_review content_key verdict comment in
        let (response, answered, e₁) =
          >>=-eq-ok (client_attach_review rpc (obj rec) (own_signature rec)) _ e in
        let (taken, same) = if_taken (is_text (get_or response "type" null) "ok") _ q e₁ in
        subst (λ r. IsReviewOf rpc content_key verdict r.0 r.1) same
          record {
            content_at = refl;
            verdict_at = refl;
            response = response;
            answered = answered;
            taken = taken;
            accepted = λ t near. own_review-verifies content_key verdict comment t good near;
          }

    -- When posting a verdict returns, the server has taken a review that names the content and the
    -- verdict; and that review verifies wherever the clock is at most five minutes off.
    pub do_attach_review-IsReviewOf :
        (config : ClientConfig) (rpc : Fields → Result Fields)
        (content_key verdict comment : String) (posted : Fields × String)
        → do_attach_review p key now config rpc content_key verdict comment ≡ ok posted
        → IsReviewOf rpc content_key verdict posted.0 posted.1
    unfolding do_attach_review
    do_attach_review-IsReviewOf config rpc content_key verdict comment posted e =
        let (good, e₁) = if_verdict (is_verdict (str verdict)) _ posted e in
        let (naming, _, e₂) = >>=-eq-ok (require_naming config) _ e₁ in
        let (review, review_at, e₃) =
          >>=-eq-ok (signed_review p key now content_key verdict comment) _ e₂ in
        taken→ rpc content_key verdict comment posted good (
          ap (post_review rpc) (signed_review→ content_key verdict comment review good review_at)
          ∙ e₃)
