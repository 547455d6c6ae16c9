-- ===== src/Peer/Publish/Laws.antt =====
-- The assignment that a publisher posts: what it names, who is asked, and that it verifies.
use mdp2p.Review.Selection.Ranks.{AllDifferent}
use mdp2p.Review.Selection.Lowest.{select_reviewers-AllDifferent}
use mdp2p.Peer.Publish.{deadline_in}
use mdp2p.Prelude.{length}
use mdp2p.Prelude.Int.{pos_part}
use mdp2p.Review.Selection.Every.{select_reviewers-AllOf}
use mdp2p.Bundle.Signed.Laws.{within}
use mdp2p.Review.Record.Laws.{→verify_review_assignment}
use mdp2p.Py.Number.{to_int}
use mdp2p.Py.Json.{canonical_json}
use mdp2p.Py.Value.Laws.{as_key-ok}
use mdp2p.Prelude.Int.{distance, leb_ℤ}
use mdp2p.Peer.Publish.{
  pool_keys, Value, ℤ, Fields, as_key, pos, assign, compute_content_key, solicit_reviews,
  sign_review_assignment, to_int, build_review_assignment, own_key, select_and_assign, Result, int,
  is_text, raise, get_attr, records_of, extract_fresh_reviewer_pool, value_error,
}
use mdp2p.Platform.{Platform, IsSound}
use mdp2p.Peer.Reviews.Pool.{IsCandidate, extract_fresh_reviewer_pool-IsCandidate}
use mdp2p.Prelude.{
  [], ◌∷◌, some, true, false, AllOf, ◌==◌, ℕ, String, Option, List, Bool, ◌≡◌, subst, refl,
  if◌then◌else◌, ◌≤◌, ◌||◌, eq_refl, sym, ◌∙◌, some_injective,
}
use mdp2p.Bundle.Signed.{valid}
use mdp2p.Review.Record.{
  verify_review_assignment, max_review_drift_seconds, build_review_assignment, is_text_list,
  is_bad_deadline, sign_review_assignment,
}
use mdp2p.Py.Value.{
  str, arr, obj, all_str, texts, is_str, item, field, contains, get_or, get, end, is_text, get_attr,
}
use mdp2p.Py.Result.{ok, >>=-eq-ok, ok_injective, ◌>>=◌}

pool_keys-AllOf :
    (P : Value → Type 0) (pool : List Value) (keys : List String)
    → AllOf P pool
    → pool_keys pool ≡ ok keys
    → AllOf (λ k. P (str k)) keys
unfolding pool_keys
pool_keys-AllOf P [] keys all e = subst (AllOf (λ k. P (str k))) (ok_injective _ _ e) tt
pool_keys-AllOf P (v ∷ vs) keys all e =
    let (key, key_at, e₁) = >>=-eq-ok (as_key v) _ e in
    let (rest, rest_at, e₂) = >>=-eq-ok (pool_keys vs) _ e₁ in
    subst (AllOf (λ k. P (str k))) (ok_injective _ _ e₂)
      (subst P (as_key-ok v key key_at) all.0, pool_keys-AllOf P vs rest all.1 rest_at)

all_str-texts : (ss : List String) → all_str (texts ss) ≡ true
unfolding all_str texts is_str
all_str-texts [] = refl
all_str-texts (s ∷ ss) = all_str-texts ss

module _ (p : Platform) (now : ℕ) (key : p.PrivateKey) (freshness : Option ℕ)
    (categories : Option (List String)) where
  -- It names the address, the publisher and their content key; who is asked has opted in, lately enough
  -- and for such contents, and is asked once; and it verifies by a clock at most five minutes off.
  pub record IsPosted (uri : String) (count : ℤ) (assignment : Fields) (signature : String)
      : Type 0 where
    pub uri_at : item (obj assignment) "uri" ≡ ok (str uri)
    pub publisher_at :
        item (obj assignment) "publisher_public_key"
        ≡ ok (str (p.public_key_to_b64 (p.public_key key)))
    pub content_key_at :
        item (obj assignment) "content_key"
        ≡ ok (str (compute_content_key p (str uri) (str (p.public_key_to_b64 (p.public_key key)))))
    pub reviewers : List String
    pub reviewers_at : item (obj assignment) "reviewer_public_keys" ≡ ok (arr (texts reviewers))
    pub candidates : AllOf (λ k. IsCandidate p (pos now) freshness categories (str k)) reviewers
    pub different : AllDifferent reviewers
    pub at_most : length reviewers ≤ pos_part count
    pub accepted :
        (t : ℤ)
        → distance t (pos now) ≤ max_review_drift_seconds
        → verify_review_assignment p t
            (some max_review_drift_seconds)
            (obj assignment)
            (str signature)
          ≡ ok valid

  -- The assignment that the publisher builds
  abbrev own_assignment : String → List String → ℤ → Fields
  own_assignment uri reviewers deadline = field "uri" (str uri) (
      field "content_key" (str (compute_content_key p (str uri) (str (own_key p now key)))) (
        field "publisher_public_key" (str (own_key p now key)) (
          field "reviewer_public_keys" (arr (texts reviewers))
            (field "deadline" (int deadline) (field "timestamp" (int (pos now)) end)))))

  own_signature : Fields → String
  own_signature rec = p.b64encode (p.sign key (canonical_json rec))

  module _ (sound : IsSound p) where
    own_assignment-IsPosted :
        (uri : String) (count : ℤ) (reviewers : List String) (deadline : ℤ)
        → AllOf (λ k. IsCandidate p (pos now) freshness categories (str k)) reviewers
        → AllDifferent reviewers
        → length reviewers ≤ pos_part count
        → leb_ℤ deadline (pos 0) ≡ false
        → IsPosted uri count
            (own_assignment uri reviewers deadline)
            (own_signature (own_assignment uri reviewers deadline))
    unfolding own_signature canonical_json contains item to_int get get_attr get_or is_text
        is_text_list is_bad_deadline
    own_assignment-IsPosted uri count reviewers deadline all different at_most positive =
        let rec : Fields = own_assignment uri reviewers deadline in
        record {
          uri_at = refl;
          publisher_at = refl;
          content_key_at = refl;
          reviewers = reviewers;
          reviewers_at = refl;
          candidates = all;
          different = different;
          at_most = at_most;
          accepted = λ t near.
              →verify_review_assignment p (obj rec) (str (own_signature rec)) t
                (some max_review_drift_seconds)
                (within max_review_drift_seconds (int (pos now)) (pos now) refl refl near)
                record {
                  present = (refl, (refl, (refl, (refl, (refl, (refl, tt))))));
                  reviewers = arr (texts reviewers);
                  reviewers_at = refl;
                  reviewers_texts = all_str-texts reviewers;
                  deadline = int deadline;
                  deadline_at = refl;
                  deadline_positive = positive;
                  uri = str uri;
                  uri_at = refl;
                  publisher = str (own_key p now key);
                  publisher_at = refl;
                  content_key = str (compute_content_key p (str uri) (str (own_key p now key)));
                  content_key_at = refl;
                  content_key_of = eq_refl _;
                  signed = record {
                    key_text = own_key p now key;
                    key = p.public_key key;
                    signature_text = own_signature rec;
                    bytes = p.sign key (canonical_json rec);
                    key_at = refl;
                    key_read = sound.key-b64 (p.public_key key);
                    signature_at = refl;
                    signature_read = sound.decode-encode (p.sign key (canonical_json rec));
                    verified = sound.verify-sign key (canonical_json rec);
                  };
                };
        }

    sign-own_assignment :
        (uri : String) (reviewers : List String) (deadline : ℤ)
        → sign_review_assignment p (own_assignment uri reviewers deadline) key
          ≡ ok (own_signature (own_assignment uri reviewers deadline))
    unfolding sign_review_assignment own_signature get_or get is_text
    sign-own_assignment uri reviewers deadline = rw (eq_refl (own_key p now key)) refl

    assign-IsPosted :
        (uri : String) (count : ℤ) (days : ℤ) (reviewers : List String) (posted : Fields × String)
        → AllOf (λ k. IsCandidate p (pos now) freshness categories (str k)) reviewers
        → AllDifferent reviewers
        → length reviewers ≤ pos_part count
        → assign p now key uri days reviewers ≡ ok (some posted)
        → IsPosted uri count posted.0 posted.1
    unfolding assign build_review_assignment
    assign-IsPosted uri count days [] posted all different at_most e = absurd (cc)
    assign-IsPosted uri count days (r ∷ rs) posted all different at_most e =
        go (leb_ℤ (deadline_in now days) (pos 0)) (uri == "") refl e
      where
        rec : Fields
        rec = own_assignment uri (r ∷ rs) (deadline_in now days)

        go :
            (b c : Bool)
            → leb_ℤ (deadline_in now days) (pos 0) ≡ b
            → ((if b || c then raise value_error else ok rec) >>= λ a.
                (sign_review_assignment p a key >>= λ s. ok (some (a, s))))
              ≡ ok (some posted)
            → IsPosted uri count posted.0 posted.1
        go true c at e = absurd (cc)
        go false true at e = absurd (cc)
        go false false at e =
            let (signature, signature_at, e₁) = >>=-eq-ok (sign_review_assignment p rec key) _ e in
            let is_own =
              ok_injective _ _
                (sym (sign-own_assignment uri (r ∷ rs) (deadline_in now days)) ∙ signature_at) in
            subst (λ q. IsPosted uri count q.0 q.1) (some_injective _ _ (ok_injective _ _ e₁))
              (subst (IsPosted uri count rec) is_own (
                own_assignment-IsPosted uri count (r ∷ rs) (deadline_in now days) all different
                  at_most at))

    -- Whatever the naming server lists: an assignment that a publisher posts names the address, the
    -- publisher's own key and the content key of both; each reviewer in it stands in an opt-in that the
    -- reviewer signed, not too old and for such contents; no reviewer stands in it twice, and no more
    -- than asked for; and it verifies, with its signature, by each clock that is at most five minutes
    -- off.
    pub solicit_reviews-IsPosted :
        (listing : Result Fields) (uri : String) (count : ℤ) (days : ℤ) (posted : Fields × String)
        → solicit_reviews p now key listing uri categories count days freshness ≡ ok (some posted)
        → IsPosted uri count posted.0 posted.1
    unfolding solicit_reviews select_and_assign
    solicit_reviews-IsPosted (raise x) uri count days posted e = absurd (cc)
    solicit_reviews-IsPosted (ok reply) uri count days posted e =
        let (entries, _, e₁) = >>=-eq-ok (records_of reply) _ e in
        let (pool, pool_at, e₂) =
          >>=-eq-ok (extract_fresh_reviewer_pool p (pos now) freshness categories entries) _ e₁ in
        let (keys, keys_at, e₃) = >>=-eq-ok (pool_keys pool) _ e₂ in
        let good = IsCandidate p (pos now) freshness categories in
        let chosen = select_reviewers-AllDifferent p _ keys count in
        assign-IsPosted uri count days _ posted
          (select_reviewers-AllOf (λ k. good (str k)) p _ keys count
            (pool_keys-AllOf good pool keys
              (extract_fresh_reviewer_pool-IsCandidate p (pos now) freshness categories entries pool
                pool_at)
              keys_at))
          chosen.0 chosen.1 e₃
