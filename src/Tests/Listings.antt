-- ===== src/Tests/Listings.antt =====
-- Signals and pools from listings at concrete inputs.
use mdp2p.Py.Result.{ok}
use mdp2p.Prelude.Int.{pos}
use mdp2p.Peer.Reviews.Pool.{IsCandidate, extract_fresh_reviewer_pool-IsCandidate}
use mdp2p.Tests.Toy.{toy}
use mdp2p.Py.Value.{Fields, Value, str, cons, obj, null, field, end, nil}
use mdp2p.Peer.Reviews.Laws.{IsAuthentic, attachments_to_signals-IsAuthentic}
use mdp2p.Trust.Signal.{Signal}
use mdp2p.Peer.Reviews.{attachments_to_signals, extract_fresh_reviewer_pool}
use mdp2p.Prelude.{[], ◌∷◌, refl, some, ◌≡◌, AllOf}
use mdp2p.Tests.Records.{review, bob_opt_in, signed}

abbrev entry : Fields → Value
entry rec = obj (field "record" (obj rec) (field "signature" (str (signed rec)) end))

abbrev bob_signal : Signal
bob_signal = record {
  content_key = "/mdp2p/00";
  source_pubkey = str "bob";
  verdict = str "ok";
  reason = str "fine";
  timestamp = pos 1000;
}

review_kept :
    attachments_to_signals toy (cons null (cons (entry review) nil)) "/mdp2p/00"
    ≡ ok (bob_signal ∷ [])
unfolding attachments_to_signals mdp2p.Peer.Reviews.signal_of mdp2p.Peer.Reviews.pair_of
    mdp2p.Peer.Reviews.pair_at mdp2p.Py.Value.get_or mdp2p.Py.Value.truthy signed
    mdp2p.Review.Record.verify_review_record mdp2p.Py.Value.item mdp2p.Review.Record.is_verdict
    mdp2p.Peer.Reviews.if_verified mdp2p.Bundle.Signed.check_signature mdp2p.Py.Text.codes_eqb
    mdp2p.Peer.Reviews.prepend mdp2p.Peer.Reviews.new_signal
review_kept = refl

attachments_to_signals-IsAuthentic_example : AllOf (IsAuthentic toy "/mdp2p/00") (bob_signal ∷ [])
attachments_to_signals-IsAuthentic_example =
    attachments_to_signals-IsAuthentic toy (cons null (cons (entry review) nil)) "/mdp2p/00"
      (bob_signal ∷ []) review_kept

opt_in_kept :
    extract_fresh_reviewer_pool toy
      (pos 1500)
      (some 600)
      (some ("math" ∷ []))
      (cons (entry bob_opt_in) nil)
    ≡ ok (str "bob" ∷ [])
unfolding extract_fresh_reviewer_pool mdp2p.Peer.Reviews.candidate_of mdp2p.Peer.Reviews.pair_of
    mdp2p.Peer.Reviews.pair_at mdp2p.Py.Value.get_or mdp2p.Py.Value.truthy signed
    mdp2p.Review.Record.verify_reviewer_opt_in mdp2p.Py.Value.item mdp2p.Py.Value.is_list
    mdp2p.Review.Record.is_text_list mdp2p.Peer.Reviews.if_opted_in
    mdp2p.Bundle.Signed.check_signature mdp2p.Py.Text.codes_eqb mdp2p.Peer.Reviews.is_stale
    mdp2p.Prelude.Int.distance mdp2p.Peer.Reviews.is_interested mdp2p.Peer.Reviews.overlaps
    mdp2p.Peer.Reviews.keep_if mdp2p.Peer.Reviews.add_candidate mdp2p.Review.Taxonomy.mem_text
opt_in_kept = refl

extract_fresh_reviewer_pool-IsCandidate_example :
    AllOf (IsCandidate toy (pos 1500) (some 600) (some ("math" ∷ []))) (str "bob" ∷ [])
extract_fresh_reviewer_pool-IsCandidate_example =
    extract_fresh_reviewer_pool-IsCandidate toy (pos 1500) (some 600) (some ("math" ∷ []))
      (cons (entry bob_opt_in) nil) (str "bob" ∷ []) opt_in_kept
