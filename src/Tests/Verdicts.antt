-- ===== src/Tests/Verdicts.antt =====
-- The inbox of a reviewer, and a verdict, at concrete inputs.
use mdp2p.Bundle.Manifest.{compute_content_key}
use mdp2p.Prelude.Int.{pos}
use mdp2p.Prelude.{[], ◌∷◌, refl, ◌≡◌, AllOf, if◌then◌else◌}
use mdp2p.Py.Result.{Result, ok}
use mdp2p.Py.Value.{Value, Fields, null, str, obj, arr, int, nil, cons, end, field, get_or, is_text}
use mdp2p.Reader.Config.{ClientConfig, Home, new_config}
use mdp2p.Reader.Flows.{Pending, do_list_inbox, do_attach_review}
use mdp2p.Reader.Flows.Laws.{IsPending, do_list_inbox-IsPending}
use mdp2p.Reader.Flows.Posted.{IsReviewOf, do_attach_review-IsReviewOf}
use mdp2p.Tests.Records.{signed}
use mdp2p.Tests.Toy.{toy, toy-IsSound}

abbrev config : ClientConfig
config =
    new_config
      record { keys = "~/.mdp2p/keys"; sites = "~/.mdp2p/sites"; reviewer = "~/.mdp2p/reviewer" }
      "bob"

-- Alice asks Bob for a review of her site.
abbrev asked_of_bob : Fields
asked_of_bob = field "uri" (str "alice-site") (
    field "content_key" (str (compute_content_key toy (str "alice-site") (str "alice"))) (
      field "publisher_public_key" (str "alice") (
        field "reviewer_public_keys" (arr (cons (str "bob") nil))
          (field "deadline" (int (pos 2000)) (field "timestamp" (int (pos 1000)) end)))))

abbrev bob_inbox : Fields
bob_inbox = field "type" (str "assignments") (
    field "records"
      (arr (
        cons
          (obj
            (field "record" (obj asked_of_bob) (field "signature" (str (signed asked_of_bob)) end)))
          nil))
      end)

-- A naming server that has the assignment and takes any review
abbrev naming_server : Fields → Result Fields
naming_server request = ok (
    if is_text (get_or request "type" null) "list_assignments"
    then bob_inbox
    else field "type" (str "ok") end)

abbrev pending : Pending
pending = record { rec = obj asked_of_bob; signature = str (signed asked_of_bob) }

inbox_read : do_list_inbox toy (pos 1500) config naming_server "bob" ≡ ok (pending ∷ [])
unfolding mdp2p.Reader.Flows.require_naming mdp2p.Reader.Flows.keep_due
    mdp2p.Reader.Flows.append_pending mdp2p.Reader.Flows.pending_of mdp2p.Reader.Flows.pending_in
    mdp2p.Reader.Flows.inbox_in mdp2p.Reader.Flows.do_list_inbox mdp2p.Reader.Config.with_author
    mdp2p.Reader.Config.new_config mdp2p.Peer.Daemon.deadline_of mdp2p.Peer.Score.records_of
    mdp2p.Naming.Client.iterate mdp2p.Naming.Client.key_request
    mdp2p.Naming.Client.client_list_assignments mdp2p.Bundle.Signed.check_signature
    mdp2p.Review.Record.is_text_list mdp2p.Review.Record.is_bad_deadline
    mdp2p.Review.Record.verify_review_assignment mdp2p.Bundle.Manifest.compute_content_key
    mdp2p.Py.Value.get_attr mdp2p.Py.Value.or_empty mdp2p.Py.Value.is_text mdp2p.Py.Json.same_value
    mdp2p.Tests.Records.signed
inbox_read = refl

do_list_inbox-IsPending_example : AllOf (IsPending toy (pos 1500)) (pending ∷ [])
do_list_inbox-IsPending_example =
    do_list_inbox-IsPending toy (pos 1500) config naming_server "bob" (pending ∷ []) inbox_read

abbrev bob_verdict : Fields
bob_verdict = field "content_key" (str "/mdp2p/00") (
    field "reviewer_public_key" (str "bob") (
      field "verdict" (str "warn")
        (field "comment" (str "old links") (field "timestamp" (int (pos 1500)) end))))

verdict_posted :
    do_attach_review toy "bob" (pos 1500) config naming_server "/mdp2p/00" "warn" "old links"
    ≡ ok (bob_verdict, signed bob_verdict)
unfolding mdp2p.Reader.Flows.require_naming mdp2p.Reader.Flows.post_review
    mdp2p.Reader.Flows.signed_review mdp2p.Reader.Flows.do_attach_review
    mdp2p.Reader.Config.with_author mdp2p.Reader.Config.new_config
    mdp2p.Naming.Client.signed_request mdp2p.Naming.Client.client_attach_review
    mdp2p.Review.Record.build_review_record mdp2p.Review.Record.sign_review_record
    mdp2p.Py.Value.or_empty mdp2p.Tests.Records.signed
verdict_posted = refl

do_attach_review-IsReviewOf_example :
    IsReviewOf toy "bob"
      (pos 1500)
      naming_server
      "/mdp2p/00"
      "warn"
      bob_verdict
      (signed bob_verdict)
do_attach_review-IsReviewOf_example =
    do_attach_review-IsReviewOf toy "bob" (pos 1500) toy-IsSound config naming_server "/mdp2p/00"
      "warn" "old links" (bob_verdict, signed bob_verdict) verdict_posted
