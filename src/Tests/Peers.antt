-- ===== src/Tests/Peers.antt =====
-- Selection, frames, bundles and downloads at concrete inputs.
use mdp2p.Bundle.Manifest.Laws.{verify-sign_manifest}
use mdp2p.Review.Selection.Lowest.{IsLowest, select_reviewers-IsLowest}
use mdp2p.Wire.Frames.{AllSmall, recv-send_framed_json}
use mdp2p.Wire.Reads.{join, AllFull, read_exact-front}
use mdp2p.Review.Selection.Pool.{select_reviewers-members}
use mdp2p.Py.Result.{ok, Result, ◌>>=◌}
use mdp2p.Prelude.Int.{pos}
use mdp2p.Tests.Records.{signed}
use mdp2p.Peer.Accepted.{IsAccepted, check_downloaded_bundle-IsAccepted}
use mdp2p.Tests.Toy.{toy, toy-IsSound}
use mdp2p.Bundle.Payload.Laws.{IsBundle, validate_bundle_payload-IsBundle}
use mdp2p.Py.Value.{Fields, field, str, obj, end, arr, cons, nil, Value}
use mdp2p.Bundle.Manifest.{verify_manifest, sign_manifest, is_manifest_expired}
use mdp2p.Py.Json.{canonical_json}
use mdp2p.Review.Selection.{select_reviewers}
use mdp2p.Wire.{Stream, read_exact, send_framed_json, recv_framed_json}
use mdp2p.Bundle.Paths.{Location}
use mdp2p.Review.Taxonomy.{mem_text}
use mdp2p.Bundle.Payload.{validate_bundle_payload}
use mdp2p.Peer.Check.{check_downloaded_bundle}
use mdp2p.Prelude.{
  [], ◌∷◌, refl, List, length, ◌≤◌, ℕ, String, arith, ◌≡◌, some, true, ◌++◌, none, false,
}

swap_same : (z : String) → mem_text z ("bob" ∷ "eve" ∷ []) ≡ mem_text z ("eve" ∷ "bob" ∷ "eve" ∷ [])
unfolding mem_text
swap_same z = ground arith

select_reviewers-members_example :
    select_reviewers toy "/mdp2p/00" ("bob" ∷ "eve" ∷ []) (pos 1)
    ≡ select_reviewers toy "/mdp2p/00" ("eve" ∷ "bob" ∷ "eve" ∷ []) (pos 1)
select_reviewers-members_example =
    select_reviewers-members toy "/mdp2p/00" ("bob" ∷ "eve" ∷ []) ("eve" ∷ "bob" ∷ "eve" ∷ [])
      (pos 1) swap_same

select_reviewers-IsLowest_example :
    IsLowest toy "/mdp2p/00"
      ("eve" ∷ "bob" ∷ "eve" ∷ [])
      1
      (select_reviewers toy "/mdp2p/00" ("eve" ∷ "bob" ∷ "eve" ∷ []) (pos 1))
select_reviewers-IsLowest_example =
    select_reviewers-IsLowest toy "/mdp2p/00" ("eve" ∷ "bob" ∷ "eve" ∷ []) 1 (omega arith)

abbrev first_three : List ℕ
first_three = 1 ∷ 2 ∷ 3 ∷ []

read_exact-front_example :
    (s' : Stream) × (read_exact (length first_three) ((1 ∷ []) ∷ (2 ∷ 3 ∷ 4 ∷ []) ∷ [])
      ≡ (some first_three, s'))
    × (join s' ≡ 4 ∷ [])
    × AllFull s'
read_exact-front_example =
    read_exact-front first_three (4 ∷ []) ((1 ∷ []) ∷ (2 ∷ 3 ∷ 4 ∷ []) ∷ [])
      (omega arith, (omega arith, tt)) refl

abbrev ping : Fields
ping = field "type" (str "list") end

ping_fits : length (canonical_json ping) ≤ 65536
unfolding canonical_json
ping_fits = omega arith

recv-send_framed_json_example :
    (writes : List (List ℕ)) × (send_framed_json ping 65536 ≡ ok writes)
    × AllSmall writes
    × ((loads : List ℕ → Result Value) (s : Stream) (rest : List ℕ)
        → AllFull s
        → join s ≡ join writes ++ rest
        → (s' : Stream) × (recv_framed_json loads 65536 s
            ≡ ((loads (canonical_json ping) >>= λ v. ok (some v)), s'))
          × (join s' ≡ rest))
recv-send_framed_json_example = recv-send_framed_json ping 65536 (omega arith) ping_fits

verify-sign_manifest_example :
    verify_manifest toy
      (sign_manifest toy ping "alice").0
      (str (sign_manifest toy ping "alice").1)
      (toy.public_key "alice")
    ≡ ok true
verify-sign_manifest_example = verify-sign_manifest toy toy-IsSound ping "alice"

abbrev manifest : Fields
manifest = field "uri" (str "alice-site") (
    field "public_key" (str "alice") (
      field "files" (arr (cons (obj (field "path" (str "a.md") (field "hash" (str "00") end))) nil))
        end))

abbrev response : Fields
response = field "type" (str "bundle") (
    field "manifest" (obj manifest) (
      field "signature" (str (signed manifest))
        (field "files" (obj (field "a.md" (str "hello") end)) end)))

abbrev hello : List (String × List ℕ)
hello = ("a.md", 104 ∷ 101 ∷ 108 ∷ 108 ∷ 111 ∷ []) ∷ []

abbrev root : Location
root = (115 ∷ []) ∷ []

payload_valid : validate_bundle_payload toy (λ l. l) root (obj response) ≡ ok hello
unfolding validate_bundle_payload mdp2p.Py.Value.item mdp2p.Bundle.Payload.len
    mdp2p.Py.Value.get_attr mdp2p.Bundle.Payload.greater mdp2p.Bundle.Payload.check_counts
    mdp2p.Bundle.Payload.count_fields mdp2p.Bundle.Payload.files_of mdp2p.Bundle.Payload.gather
    mdp2p.Bundle.Payload.text_of mdp2p.Bundle.Payload.or_value_error
    mdp2p.Bundle.Paths.validate_path mdp2p.Bundle.Paths.has_char mdp2p.Py.Text.codes
    mdp2p.Bundle.Payload.utf8_length mdp2p.Bundle.Payload.entries_of
    mdp2p.Bundle.Payload.expected_of mdp2p.Bundle.Payload.entry_of mdp2p.Bundle.Paths.any_dotted
    mdp2p.Bundle.Paths.is_dotted mdp2p.Bundle.Paths.is_relative_to mdp2p.Bundle.Paths.push
    mdp2p.Bundle.Paths.split mdp2p.Bundle.Payload.all_expected mdp2p.Bundle.Payload.all_present
    mdp2p.Bundle.Payload.check_hashes mdp2p.Bundle.Payload.check_names
    mdp2p.Bundle.Payload.is_markdown mdp2p.Bundle.Payload.is_there mdp2p.Bundle.Payload.matches_hash
    mdp2p.Dict.has mdp2p.Dict.insert mdp2p.Dict.lookup mdp2p.Py.Text.codes_eqb mdp2p.Py.Value.as_key
    mdp2p.Py.Value.get mdp2p.Py.Value.get_or mdp2p.Py.Value.is_text
payload_valid = refl

validate_bundle_payload-IsBundle_example : IsBundle toy (λ l. l) root (obj response) hello
validate_bundle_payload-IsBundle_example =
    validate_bundle_payload-IsBundle toy (λ l. l) root (obj response) hello payload_valid

manifest_valid : verify_manifest toy manifest (str (signed manifest)) "alice" ≡ ok true
unfolding verify_manifest signed mdp2p.Py.Value.get_or mdp2p.Py.Value.is_text
    mdp2p.Bundle.Signed.decode mdp2p.Py.Text.codes_eqb
manifest_valid = refl

manifest_fresh : is_manifest_expired toy (pos 1010) manifest ≡ ok false
unfolding is_manifest_expired mdp2p.Bundle.Manifest.is_expired_at mdp2p.Py.Value.get
manifest_fresh = refl

response_accepted :
    check_downloaded_bundle toy (λ l. l) root (pos 1010) response "alice-site" "alice" "00"
    ≡ ok none
unfolding check_downloaded_bundle mdp2p.Peer.Check.check_shape mdp2p.Peer.Check.check_manifest
    mdp2p.Peer.Check.check_verified mdp2p.Peer.Check.check_expiry mdp2p.Peer.Check.check_content
    mdp2p.Py.Value.get_or mdp2p.Py.Value.is_dict mdp2p.Py.Value.is_text
    mdp2p.Bundle.Manifest.compute_manifest_ref
response_accepted = rw (manifest_valid, manifest_fresh, payload_valid) refl

check_downloaded_bundle-IsAccepted_example :
    IsAccepted toy (λ l. l) root (pos 1010) response "alice-site" "alice" "00"
check_downloaded_bundle-IsAccepted_example =
    check_downloaded_bundle-IsAccepted toy (λ l. l) root (pos 1010) response "alice-site" "alice"
      "00" response_accepted
