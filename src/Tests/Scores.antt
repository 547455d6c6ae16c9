-- ===== src/Tests/Scores.antt =====
-- Scores from the naming server and from the cache at concrete reviews.
use mdp2p.Reader.Laws.{score_from_cache-score_record}
use mdp2p.Trust.Scorer.Outcome.{HasDistinctSources}
use mdp2p.Reader.{score_from_cache}
use mdp2p.Peer.Score.Laws.{IsScored, compute_score-IsScored}
use mdp2p.Bundle.Manifest.{compute_content_key}
use mdp2p.Bundle.Disk.{Site}
use mdp2p.Naming.Client.{client_get_attachments}
use mdp2p.Peer.Fetch.{Client, spot_of, cache_attachments}
use mdp2p.Bundle.Paths.{validate_uri}
use mdp2p.Prelude.Int.{pos}
use mdp2p.Naming.Stores.Disk.{absent}
use mdp2p.Trust.Scorer.{ScoreResult, show, hide}
use mdp2p.Peer.Score.{compute_score, score_record}
use mdp2p.Tests.Records.{signed, review}
use mdp2p.Tests.Toy.{toy}
use mdp2p.Tests.Trusts.{toy_floats, toy_IsFloats}
use mdp2p.Prelude.{[], ◌∷◌, none, some, refl, String, if◌then◌else◌, ◌≡◌, inr}
use mdp2p.Py.Value.{null, obj, str, arr, int, field, cons, nil, end, Fields, is_text, get_or, item}
use mdp2p.Py.Result.{ok, Result}

abbrev alice_record : Fields
alice_record = field "public_key" (str "alice") end

abbrev attachments : Fields
attachments =
    field "records"
      (arr (
        cons (obj (field "record" (obj review) (field "signature" (str (signed review)) end))) nil))
      end

abbrev resolved : Fields
resolved = field "type" (str "record") (field "record" (obj alice_record) end)

-- The naming server resolves Alice's site, and has one review of it, by Bob.
abbrev naming : Fields → Result Fields
naming request =
    ok (if is_text (get_or request "type" null) "resolve" then resolved else attachments)

abbrev score : ScoreResult toy_floats
score = record {
  score = "1";
  decision = hide;
  breakdown =
      record {
        source_pubkey = "bob";
        verdict = str "ok";
        weight = "1";
        severity = "0";
        decay = "1";
        contribution = "1";
      }
      ∷ [];
}

scored : compute_score toy toy_floats absent absent (pos 2000) (some naming) "alice-site" ≡ ok score
unfolding mdp2p.Peer.Score.records_of mdp2p.Peer.Score.entries_listed mdp2p.Peer.Score.score_signals
    mdp2p.Peer.Score.score_record mdp2p.Peer.Score.score_reply mdp2p.Peer.Score.score_uri
    mdp2p.Peer.Score.compute_score mdp2p.Peer.Reviews.pair_at mdp2p.Peer.Reviews.pair_of
    mdp2p.Peer.Reviews.new_signal mdp2p.Peer.Reviews.if_verified mdp2p.Peer.Reviews.signal_of
    mdp2p.Peer.Reviews.prepend mdp2p.Peer.Reviews.attachments_to_signals mdp2p.Naming.Client.iterate
    mdp2p.Naming.Client.key_request mdp2p.Naming.Client.client_resolve
    mdp2p.Naming.Client.client_get_attachments mdp2p.Trust.Policy.default_policy
    mdp2p.Trust.Policy.weight_in mdp2p.Trust.Policy.is_subscribed_moderator
    mdp2p.Trust.Policy.load_policy mdp2p.Trust.Store.load_store mdp2p.Trust.Scorer.decide
    mdp2p.Trust.Scorer.severity_at mdp2p.Trust.Scorer.severity_of mdp2p.Trust.Scorer.keep_severest
    mdp2p.Trust.Scorer.best_of mdp2p.Trust.Scorer.dedupe_by_source mdp2p.Trust.Scorer.record_weight
    mdp2p.Trust.Scorer.weight_from mdp2p.Trust.Scorer.weight_for mdp2p.Trust.Scorer.time_decay
    mdp2p.Trust.Scorer.contribution_of mdp2p.Trust.Scorer.add_up mdp2p.Trust.Scorer.score_content
    mdp2p.Bundle.Signed.check_signature mdp2p.Review.Record.build_review_record
    mdp2p.Review.Record.verify_review_record mdp2p.Bundle.Manifest.compute_content_key
    mdp2p.Py.Value.get_attr mdp2p.Py.Value.as_key mdp2p.Py.Value.read_key mdp2p.Py.Value.or_empty
    mdp2p.Py.Text.codes_eqb mdp2p.Dict.insert mdp2p.Dict.values mdp2p.Dict.has
    mdp2p.Bundle.Paths.validate_uri mdp2p.Bundle.Paths.has_char mdp2p.Bundle.Paths.has_dots
    mdp2p.Bundle.Paths.is_dot mdp2p.Bundle.Paths.matches_uri mdp2p.Bundle.Paths.all_uri_chars
    mdp2p.Bundle.Paths.is_uri_char mdp2p.Tests.Records.signed
scored = refl

compute_score-IsScored_example :
    (u : String) × (validate_uri (str "alice-site") ≡ inr u)
    × IsScored toy toy_floats absent absent (pos 2000) toy_IsFloats naming u score
    × HasDistinctSources toy_floats score.breakdown
compute_score-IsScored_example =
    compute_score-IsScored toy toy_floats absent absent (pos 2000) toy_IsFloats naming "alice-site"
      score scored

-- A client that has fetched the site
abbrev site : Site
site = record { manifest = obj end; signature = ""; files = []; attachments = none }

abbrev client : Client
client = record {
  pins = absent;
  sites = [];
  spots = ("data/alice-site", record { current = some site; staging = none; backup = none }) ∷ [];
}

in_place : (spot_of client.spots "data/alice-site").current ≡ some site
unfolding spot_of mdp2p.Peer.Fetch.spot_in mdp2p.Dict.lookup
in_place = refl

alice_key : item (obj alice_record) "public_key" ≡ ok (str "alice")
unfolding item
alice_key = refl

listed_there :
    client_get_attachments naming (compute_content_key toy (str "alice-site") (str "alice"))
    ≡ ok attachments
unfolding client_get_attachments is_text get_or mdp2p.Naming.Client.key_request
listed_there = refl

score_from_cache-score_record_example :
    (cached : Site) × ((spot_of
        (cache_attachments "data/alice-site"
          (compute_content_key toy (str "alice-site") (str "alice"))
          (client_get_attachments naming (compute_content_key toy (str "alice-site") (str "alice")))
          client).spots
        "data/alice-site").current
      ≡ some cached)
    × (score_from_cache toy toy_floats (pos 2000) cached (some absent) (some absent)
        ≡ score_record toy toy_floats absent absent
            (pos 2000)
            naming
            "alice-site"
            (obj alice_record))
score_from_cache-score_record_example =
    score_from_cache-score_record toy toy_floats absent absent (pos 2000) client "data/alice-site"
      "alice-site" (obj alice_record) (str "alice") attachments site naming in_place alice_key
      listed_there
