-- ===== src/Tests/Records.antt =====
-- Names, paths, records and categories at concrete inputs.
use mdp2p.Review.Record.Laws.{IsReview, review_records_iff}
use mdp2p.Bundle.NameRecord.Laws.{verify_name_record_iff, own_record, verify-sign_name_record}
use mdp2p.Py.Result.{ok}
use mdp2p.Bundle.Paths.Laws.{IsAddress, validate_uri_iff}
use mdp2p.Bundle.Paths.Files.{validate_path_injective, validate_path_inside}
use mdp2p.Tests.Toy.{toy, toy-IsSound}
use mdp2p.Prelude.Int.{distance, pos}
use mdp2p.Bundle.Signed.Laws.{IsFresh, IsSigned}
use mdp2p.Py.Text.{codes, str_leb}
use mdp2p.Py.Json.{canonical_json}
use mdp2p.Bundle.Signed.{check_signature, valid}
use mdp2p.Bundle.Signed.Required.{HasFields}
use mdp2p.Bundle.NameRecord.{
  verify_name_record, sign_name_record, name_record_fields, max_timestamp_drift_seconds,
}
use mdp2p.Bundle.Paths.{
  validate_path, validate_uri, Location, any_dotted, split, max_path_depth, has_char,
}
use mdp2p.Py.Value.{Fields, obj, field, str, arr, int, end, nil, cons}
use mdp2p.Review.Record.{verify_review_record, max_review_drift_seconds}
use mdp2p.Prelude.{refl, [], ◌∷◌, String, ◌≡◌, List, some, ℕ, ◌++◌, ◌<◌, length, false, ◌≤◌, arith}

abbrev pub alice_record : Fields
alice_record = field "uri" (str "alice-site") (
    field "author" (str "Alice") (
      field "public_key" (str "alice")
        (field "manifest_ref" (str "aa11") (field "timestamp" (int (pos 1000)) end))))

abbrev pub bob_opt_in : Fields
bob_opt_in = field "public_key" (str "bob") (
    field "peer_id" (str "12D3") (
      field "addrs" (arr nil) (
        field "categories" (arr (cons (str "math") nil)) (field "timestamp" (int (pos 1000)) end))))

abbrev pub assignment : Fields
assignment = field "uri" (str "alice-site") (
    field "content_key" (str "/mdp2p/00") (
      field "publisher_public_key" (str "alice") (
        field "reviewer_public_keys" (arr (cons (str "bob") nil))
          (field "deadline" (int (pos 2000)) (field "timestamp" (int (pos 1000)) end)))))

abbrev pub review : Fields
review = field "content_key" (str "/mdp2p/00") (
    field "reviewer_public_key" (str "bob") (
      field "verdict" (str "ok")
        (field "comment" (str "fine") (field "timestamp" (int (pos 1000)) end))))

-- The toy signature of a record
unfoldable pub signed : Fields → String
unfolding canonical_json str_leb
signed rec = toy.b64encode (toy.sign "" (canonical_json rec))

pub alice_verifies :
    verify_name_record toy
      (pos 1010)
      (some max_timestamp_drift_seconds)
      (obj alice_record)
      (str (signed alice_record))
    ≡ ok valid
unfolding verify_name_record distance signed mdp2p.Py.Text.codes_eqb
alice_verifies = refl

verify_name_record_iff_example :
    HasFields (obj alice_record) name_record_fields
    × IsFresh (pos 1010) (obj alice_record) (some max_timestamp_drift_seconds)
    × IsSigned toy "public_key" (obj alice_record) (str (signed alice_record))
verify_name_record_iff_example =
    (verify_name_record_iff toy (pos 1010) (some max_timestamp_drift_seconds) (obj alice_record)
        (str (signed alice_record))).0
      alice_verifies

verify-sign_name_record_example :
    (sig : String) × (sign_name_record toy
        (own_record toy toy-IsSound "alice" "alice-site" "Alice" "aa11" (pos 1000))
        "alice"
      ≡ ok sig)
    × (verify_name_record toy
          (pos 1010)
          (some max_timestamp_drift_seconds)
          (obj (own_record toy toy-IsSound "alice" "alice-site" "Alice" "aa11" (pos 1000)))
          (str sig)
        ≡ ok valid)
unfolding distance
verify-sign_name_record_example =
    verify-sign_name_record toy toy-IsSound "alice" "alice-site" "Alice" "aa11" (pos 1000)
      (pos 1010) (omega arith)

review_verifies :
    verify_review_record toy
      (pos 1010)
      (some max_review_drift_seconds)
      (obj review)
      (str (signed review))
    ≡ ok valid
unfolding verify_review_record mdp2p.Py.Value.item mdp2p.Review.Record.is_verdict check_signature
    distance signed mdp2p.Py.Text.codes_eqb
review_verifies = refl

review_records_iff_example :
    IsFresh (pos 1010) (obj review) (some max_review_drift_seconds)
    × IsReview toy (obj review) (str (signed review))
review_records_iff_example =
    (review_records_iff toy (obj review) (str (signed review)) (pos 1010)
        (some max_review_drift_seconds)).2.0
      review_verifies

validate_uri_iff_example : (str "alice-site" ≡ str "alice-site") × IsAddress (codes "alice-site")
unfolding validate_uri codes has_char mdp2p.Bundle.Paths.is_dot mdp2p.Bundle.Paths.has_dots
    mdp2p.Bundle.Paths.matches_uri mdp2p.Bundle.Paths.is_alnum mdp2p.Bundle.Paths.all_uri_chars
    mdp2p.Bundle.Paths.is_uri_char
validate_uri_iff_example = (validate_uri_iff (str "alice-site") "alice-site").0 refl

abbrev page_path : List ℕ
unfolding codes
page_path = codes "a/b"

abbrev page_location : Location
page_location = (b'w' ∷ []) ∷ (b'a' ∷ []) ∷ (b'b' ∷ []) ∷ []

validate_path_inside_example :
    (rest : Location) × (page_location ≡ ((b'w' ∷ []) ∷ []) ++ rest)
    × (0 < length rest)
    × (any_dotted (split b'/' page_path) ≡ false)
    × (length (split b'/' page_path) ≤ max_path_depth)
    × (has_char b'\\' page_path ≡ false)
    × (has_char 0 page_path ≡ false)
unfolding validate_path has_char page_path
validate_path_inside_example =
    validate_path_inside (λ l. l) ((b'w' ∷ []) ∷ []) page_path page_location refl

validate_path_injective_example : page_path ≡ page_path
unfolding validate_path has_char page_path
validate_path_injective_example =
    validate_path_injective (λ l. l) ((b'w' ∷ []) ∷ []) (λ segs h. refl) page_path page_path
      page_location refl refl
