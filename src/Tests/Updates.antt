-- ===== src/Tests/Updates.antt =====
-- Updates and solicited reviews at concrete inputs.
use mdp2p.Peer.Publish.Laws.{IsPosted, solicit_reviews-IsPosted}
use mdp2p.Peer.Publish.{solicit_reviews}
use mdp2p.Peer.Update.Laws.{IsUpdate, check_for_update-IsUpdate}
use mdp2p.Peer.Update.{check_for_update}
use mdp2p.Bundle.Manifest.{compute_content_key}
use mdp2p.Bundle.Disk.{Site}
use mdp2p.Naming.Stores.Disk.{absent}
use mdp2p.Peer.Fetch.{Client}
use mdp2p.Prelude.Int.{pos}
use mdp2p.Tests.Records.{signed, bob_opt_in}
use mdp2p.Tests.Toy.{toy, toy-IsSound}
use mdp2p.Prelude.{[], ◌∷◌, none, some, refl, true, String, ◌≡◌}
use mdp2p.Py.Value.{obj, str, arr, int, field, cons, nil, end, Fields, Value}
use mdp2p.Py.Result.{ok}

-- A site of Alice, and a later manifest of hers
abbrev local : Fields
local = field "public_key" (str "alice") (field "timestamp" (int (pos 1000)) end)

abbrev remote : Fields
remote =
    field "uri" (str "alice-site")
      (field "public_key" (str "alice") (field "timestamp" (int (pos 1500)) end))

abbrev site : Site
site = record { manifest = obj local; signature = ""; files = []; attachments = none }

abbrev client : Client
client = record {
  pins = absent;
  sites = ("alice-site", "data/alice-site") ∷ [];
  spots = ("data/alice-site", record { current = some site; staging = none; backup = none }) ∷ [];
}

abbrev brought : Value
brought = obj (
    field "type" (str "manifest")
      (field "manifest" (obj remote) (field "signature" (str (signed remote)) end)))

newer_there : check_for_update toy (λ v. "") "alice-site" client (ok brought) ≡ ok true
unfolding mdp2p.Peer.Update.timestamp_in mdp2p.Peer.Update.to_text mdp2p.Peer.Update.false_if_raised
    mdp2p.Peer.Update.compare_remote mdp2p.Peer.Update.check_remote mdp2p.Peer.Update.check_response
    mdp2p.Peer.Update.check_site mdp2p.Peer.Update.check_dir mdp2p.Peer.Update.check_for_update
    mdp2p.Peer.Fetch.spot_in mdp2p.Peer.Fetch.spot_of mdp2p.Bundle.Signed.check_signature
    mdp2p.Review.Taxonomy.labeled_categories mdp2p.Bundle.Manifest.verify_manifest
    mdp2p.Py.Value.get_attr mdp2p.Py.Value.is_text mdp2p.Py.Text.codes_eqb
    mdp2p.Tests.Records.signed
newer_there = refl

check_for_update-IsUpdate_example : IsUpdate toy (λ v. "") "alice-site" client (ok brought)
check_for_update-IsUpdate_example =
    check_for_update-IsUpdate toy (λ v. "") "alice-site" client (ok brought) newer_there

-- The naming server lists Bob, who has opted in.
abbrev bob_listing : Fields
bob_listing =
    field "records"
      (arr (
        cons
          (obj (field "record" (obj bob_opt_in) (field "signature" (str (signed bob_opt_in)) end)))
          nil))
      end

abbrev posted : Fields
posted = field "uri" (str "alice-site") (
    field "content_key" (str (compute_content_key toy (str "alice-site") (str "alice"))) (
      field "publisher_public_key" (str "alice") (
        field "reviewer_public_keys" (arr (cons (str "bob") nil))
          (field "deadline" (int (pos 88000)) (field "timestamp" (int (pos 1600)) end)))))

bob_asked :
    solicit_reviews toy 1600 "alice"
      (ok bob_listing)
      "alice-site"
      (some ("math" ∷ []))
      (pos 3)
      (pos 1)
      (some 900)
    ≡ ok (some (posted, signed posted))
unfolding mdp2p.Peer.Publish.deadline_in mdp2p.Peer.Publish.pool_keys mdp2p.Peer.Publish.assign
    mdp2p.Peer.Publish.select_and_assign mdp2p.Peer.Publish.solicit_reviews
    mdp2p.Peer.Score.records_of mdp2p.Peer.Reviews.pair_at mdp2p.Peer.Reviews.pair_of
    mdp2p.Peer.Reviews.is_stale mdp2p.Peer.Reviews.overlaps mdp2p.Peer.Reviews.is_interested
    mdp2p.Peer.Reviews.keep_if mdp2p.Peer.Reviews.if_opted_in mdp2p.Peer.Reviews.candidate_of
    mdp2p.Peer.Reviews.add_candidate mdp2p.Peer.Reviews.extract_fresh_reviewer_pool
    mdp2p.Naming.Client.iterate mdp2p.Bundle.Signed.check_signature mdp2p.Review.Record.is_text_list
    mdp2p.Review.Record.verify_reviewer_opt_in mdp2p.Review.Record.build_review_assignment
    mdp2p.Review.Record.sign_review_assignment mdp2p.Review.Selection.insert_unique
    mdp2p.Review.Selection.sorted_set mdp2p.Review.Selection.insert_ranked
    mdp2p.Review.Selection.sort_by_rank mdp2p.Review.Selection.select_reviewers
    mdp2p.Review.Taxonomy.mem_text mdp2p.Py.Value.is_list mdp2p.Py.Value.as_key
    mdp2p.Py.Value.or_empty mdp2p.Py.Value.is_text mdp2p.Py.Value.texts mdp2p.Py.Text.codes_eqb
    mdp2p.Prelude.Int.distance mdp2p.Tests.Records.signed
bob_asked = refl

solicit_reviews-IsPosted_example :
    IsPosted toy 1600 "alice"
      (some 900)
      (some ("math" ∷ []))
      "alice-site"
      (pos 3)
      posted
      (signed posted)
solicit_reviews-IsPosted_example =
    solicit_reviews-IsPosted toy 1600 "alice" (some 900) (some ("math" ∷ [])) toy-IsSound
      (ok bob_listing) "alice-site" (pos 3) (pos 1) (posted, signed posted) bob_asked
