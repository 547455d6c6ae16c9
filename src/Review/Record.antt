-- ===== src/Review/Record.antt =====
-- review/record.py: reviewer opt-ins, review assignments and review records.
pub mod Laws
use mdp2p.Prelude.{
  ℕ, Bool, true, false, not, ◌||◌, ◌==◌, Option, none, some, List, [], ◌∷◌, String, if◌then◌else◌,
}
use mdp2p.Prelude.Int.{ℤ, pos, leb_ℤ}
use mdp2p.Platform.{Platform}
use mdp2p.Py.Result.{Result, ok, ◌>>=◌, raise, value_error, ◌>>◌}
use mdp2p.Py.Value.{
  Value, null, bool, int, str, arr, truthy, is_str, is_list, all_str, item, get_attr, is_text,
  Fields, Items, nil, cons, field, end, texts,
}
use mdp2p.Review.Taxonomy.{validate_categories}
use mdp2p.Bundle.Manifest.{compute_content_key}
use mdp2p.Bundle.Signed.{
  Verification, refused, missing_fields, categories_not_a_list, addrs_not_texts, bad_peer_id,
  reviewers_not_texts, bad_deadline, wrong_content_key, bad_verdict, require, check_signature,
  sign_record,
}

abbrev pub max_review_drift_seconds : ℕ
max_review_drift_seconds = 300

abbrev pub opt_in_fields : List String
opt_in_fields = "public_key" ∷ "peer_id" ∷ "addrs" ∷ "categories" ∷ "timestamp" ∷ []

-- `timestamp if timestamp is not None else int(time.time())`
abbrev pub or_now : Option ℤ → ℤ → ℤ
or_now none now = now
or_now (some t) now = t

-- `build_reviewer_opt_in(public_key_b64, peer_id, addrs, categories, timestamp)`
unfoldable pub build_reviewer_opt_in :
    String → String → List String → List String → Option ℤ → ℤ → Result Fields
unfolding validate_categories
build_reviewer_opt_in key peer_id addrs categories timestamp now = do
  validate_categories categories
  ok (
      field "public_key" (str key) (
        field "peer_id" (str peer_id) (
          field "addrs" (arr (texts addrs)) (
            field "categories" (arr (texts categories))
              (field "timestamp" (int (or_now timestamp now)) end)))))

-- `sign_reviewer_opt_in(record, private_key)`
unfoldable pub sign_reviewer_opt_in : (p : Platform) → Fields → p.PrivateKey → Result String
unfolding sign_record
sign_reviewer_opt_in p = sign_record p "public_key"

-- `isinstance(v, list) and all(isinstance(x, str) for x in v)`
unfoldable pub is_text_list : Value → Bool
unfolding all_str
is_text_list (arr xs) = all_str xs
is_text_list _ = false

-- The checks of an opt-in on the types of its fields.
unfoldable pub check_opt_in : Platform → ℤ → Option ℕ → Value → Value → Result Verification
check_opt_in p now max_drift rec signature = do
  categories ← item rec "categories"
  if not (is_list categories) then ok (refused categories_not_a_list) else do
    addrs ← item rec "addrs"
    if not (is_text_list addrs) then ok (refused addrs_not_texts) else do
      peer_id ← item rec "peer_id"
      if not (is_str peer_id) || not (truthy peer_id)
          then ok (refused bad_peer_id)
          else ok (check_signature p now max_drift "public_key" rec signature)

-- `verify_reviewer_opt_in(record, signature_b64, max_drift)`
unfoldable pub verify_reviewer_opt_in :
    Platform → ℤ → Option ℕ → Value → Value → Result Verification
unfolding check_opt_in require
verify_reviewer_opt_in p now max_drift rec signature =
    require rec opt_in_fields (check_opt_in p now max_drift rec signature)

abbrev pub assignment_fields : List String
assignment_fields =
    "uri" ∷ "content_key" ∷ "publisher_public_key" ∷ "reviewer_public_keys" ∷ "deadline"
    ∷ "timestamp" ∷ []

-- `build_review_assignment(uri, publisher_pubkey_b64, reviewer_pubkeys_b64, deadline, timestamp)`
unfoldable pub build_review_assignment :
    Platform → String → String → List String → ℤ → Option ℤ → ℤ → Result Fields
build_review_assignment p uri publisher reviewers deadline timestamp now =
    if leb_ℤ deadline (pos 0) || uri == ""
    then raise value_error
    else ok (
        field "uri" (str uri) (
          field "content_key" (str (compute_content_key p (str uri) (str publisher))) (
            field "publisher_public_key" (str publisher) (
              field "reviewer_public_keys" (arr (texts reviewers)) (
                field "deadline" (int deadline)
                  (field "timestamp" (int (or_now timestamp now)) end))))))

-- `sign_review_assignment(record, private_key)`
unfoldable pub sign_review_assignment : (p : Platform) → Fields → p.PrivateKey → Result String
unfolding sign_record
sign_review_assignment p = sign_record p "publisher_public_key"

-- `not isinstance(v, int) or v <= 0`; a Boolean is an `int` in Python.
unfoldable pub is_bad_deadline : Value → Bool
is_bad_deadline (int z) = leb_ℤ z (pos 0)
is_bad_deadline (bool b) = not b
is_bad_deadline _ = true

unfoldable pub check_assignment : Platform → ℤ → Option ℕ → Value → Value → Result Verification
check_assignment p now max_drift rec signature = do
  reviewers ← item rec "reviewer_public_keys"
  if not (is_text_list reviewers) then ok (refused reviewers_not_texts) else do
    deadline ← item rec "deadline"
    if is_bad_deadline deadline then ok (refused bad_deadline) else do
      uri ← get_attr rec "uri" (str "")
      publisher ← get_attr rec "publisher_public_key" (str "")
      content_key ← get_attr rec "content_key" null
      if not (is_text content_key (compute_content_key p uri publisher))
          then ok (refused wrong_content_key)
          else ok (check_signature p now max_drift "publisher_public_key" rec signature)

-- `verify_review_assignment(record, signature_b64, max_drift)`
unfoldable pub verify_review_assignment :
    Platform → ℤ → Option ℕ → Value → Value → Result Verification
unfolding check_assignment require
verify_review_assignment p now max_drift rec signature =
    require rec assignment_fields (check_assignment p now max_drift rec signature)

abbrev pub review_fields : List String
review_fields = "content_key" ∷ "reviewer_public_key" ∷ "verdict" ∷ "comment" ∷ "timestamp" ∷ []

-- `v in VALID_VERDICTS`
unfoldable pub is_verdict : Value → Bool
unfolding is_text
is_verdict v = is_text v "ok" || is_text v "warn" || is_text v "reject"

-- `build_review_record(content_key, reviewer_pubkey_b64, verdict, comment, timestamp)`
unfoldable pub build_review_record :
    String → String → String → String → Option ℤ → ℤ → Result Fields
unfolding is_verdict
build_review_record content_key reviewer verdict comment timestamp now =
    if not (is_verdict (str verdict))
    then raise value_error
    else ok (
        field "content_key" (str content_key) (
          field "reviewer_public_key" (str reviewer) (
            field "verdict" (str verdict) (
              field "comment" (str comment) (field "timestamp" (int (or_now timestamp now)) end)))))

-- `sign_review_record(record, private_key)`
unfoldable pub sign_review_record : (p : Platform) → Fields → p.PrivateKey → Result String
unfolding sign_record
sign_review_record p = sign_record p "reviewer_public_key"

unfoldable pub check_review : Platform → ℤ → Option ℕ → Value → Value → Result Verification
check_review p now max_drift rec signature = do
  verdict ← item rec "verdict"
  if not (is_verdict verdict)
      then ok (refused bad_verdict)
      else ok (check_signature p now max_drift "reviewer_public_key" rec signature)

-- `verify_review_record(record, signature_b64, max_drift)`
unfoldable pub verify_review_record : Platform → ℤ → Option ℕ → Value → Value → Result Verification
unfolding check_review require
verify_review_record p now max_drift rec signature =
    require rec review_fields (check_review p now max_drift rec signature)
