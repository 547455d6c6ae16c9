-- ===== src/Peer/Publish.antt =====
-- `publish` and `_solicit_reviews` of peer/peer.py: an author signs a site, registers it and asks for
-- reviews. The scan of the site's directory, the naming server, the DHT and the clock are arguments.
pub mod Laws
use mdp2p.Py.Number.{to_int}
use mdp2p.Prelude.Int.{ℤ, pos, negsuc, minus_ℤ, succ_ℤ}
use mdp2p.Platform.{Platform}
use mdp2p.Bundle.Disk.{Site, Spot}
use mdp2p.Bundle.Manifest.{
  SiteFile, create_manifest, sign_manifest, compute_manifest_ref, compute_content_key,
  categories_or_other,
}
use mdp2p.Bundle.NameRecord.{build_name_record, sign_name_record}
use mdp2p.Bundle.Paths.{UriError, validate_uri}
use mdp2p.Dict.{insert, lookup}
use mdp2p.Naming.Client.{client_register, client_list_reviewers}
use mdp2p.Peer.Fetch.{Client, Dht, spot_of, announce}
use mdp2p.Peer.Reviews.{extract_fresh_reviewer_pool}
use mdp2p.Peer.Score.{records_of}
use mdp2p.Prelude.{
  suc, none, some, [], ◌∷◌, Option, List, ℕ, String, ◌⊎◌, Bool, if◌then◌else◌, ◌+◌, inl, not, ◌*◌,
  inr,
}
use mdp2p.Review.Record.{build_review_assignment, sign_review_assignment}
use mdp2p.Review.Selection.{select_reviewers}
use mdp2p.Py.Value.{null, str, int, obj, nil, Value, Fields, as_key, get_attr, is_text, get_or}
use mdp2p.Py.Result.{Result, ok, raise, ◌>>=◌, value_error, runtime_error}

unfoldable pub pool_keys : List Value → Result (List String)
pool_keys [] = ok []
pool_keys (v ∷ vs) = do key ← as_key v; keys ← pool_keys vs; ok (key ∷ keys)

-- The version after the one that the directory holds; one that cannot be read starts anew.
unfoldable pub next_version : Result ℤ → ℤ
next_version (raise x) = pos 1
next_version (ok z) = succ_ℤ z

unfoldable pub version_for : Option Site → ℤ
version_for none = pos 1
version_for (some site) =
    next_version (do v ← get_attr site.manifest "version" (int (pos 0)); to_int v)

-- `save_bundle(site_dir, manifest, signature)`: the other files stay.
unfoldable pub with_manifest : Value → String → Option Site → Site
with_manifest manifest signature none = record {
  manifest = manifest;
  signature = signature;
  files = [];
  attachments = none;
}
with_manifest manifest signature (some site) = record site {
  manifest = manifest;
  signature = signature;
}

-- `int(_time.time()) + review_deadline_days * 86400`
unfoldable pub deadline_in : ℕ → ℤ → ℤ
deadline_in now (pos days) = pos (now + days * 86400)
deadline_in now (negsuc days) = minus_ℤ (pos now) (pos (suc days * 86400))

module _ (p : Platform) (now : ℕ) (key : p.PrivateKey) where
  abbrev pub own_key : String
  own_key = p.public_key_to_b64 (p.public_key key)

  -- The assignment with its signature, which is posted then
  unfoldable pub assign : String → ℤ → List String → Result (Option (Fields × String))
  assign uri days [] = ok none
  assign uri days (r ∷ reviewers) = do
    assignment ←
        build_review_assignment p uri own_key (r ∷ reviewers) (deadline_in now days) none (pos now)
    signature ← sign_review_assignment p assignment key
    ok (some (assignment, signature))

  unfoldable pub select_and_assign : String → ℤ → ℤ → List Value → Result (Option (Fields × String))
  select_and_assign uri days count pool = do
    keys ← pool_keys pool
    assign uri days (select_reviewers p (compute_content_key p (str uri) (str own_key)) keys count)

  -- `_solicit_reviews(…)`: the assignment that it posts, if it does. A listing that fails ends it; the
  -- answer to the posting, or its failure, goes to a log line only.
  unfoldable pub solicit_reviews :
      Result Fields
      → String
      → Option (List String)
      → ℤ
      → ℤ
      → Option ℕ
      → Result (Option (Fields × String))
  solicit_reviews (raise x) uri categories count days freshness = ok none
  solicit_reviews (ok reply) uri categories count days freshness = do
    entries ← records_of reply
    pool ← extract_fresh_reviewer_pool p (pos now) freshness categories entries
    select_and_assign uri days count pool

  -- The manifest with its signature
  unfoldable pub signed_bundle :
      List SiteFile → String → String → ℤ → ℕ → List String → Result (Fields × String)
  signed_bundle scan uri author version ttl categories = do
    manifest ← create_manifest scan uri author version ttl categories now
    ok (sign_manifest p manifest key)

  -- The naming record goes to the server, which has to answer "ok".
  unfoldable pub register_name :
      (Fields → Result Fields) → String → String → Fields → Result (Unit {0})
  register_name rpc uri author manifest =
      let rec =
        build_name_record uri author own_key (compute_manifest_ref p manifest) none (pos now) in
      (do
        signature ← sign_name_record p rec key
        reply ← client_register rpc (obj rec) signature
        if not (is_text (get_or reply "type" null) "ok") then raise runtime_error else ok tt)

module _ (p : Platform) (uri dir : String) (manifest : Fields) (signature : String) where
  unfoldable pub after_announce : Client → Result Bool → Client × Result (Fields × String)
  after_announce c (raise x) = (c, raise x)
  after_announce c (ok b) = (c, ok (manifest, signature))

  unfoldable pub after_solicit :
      Option Dht → Client → Result (Option (Fields × String)) → Client × Result (Fields × String)
  after_solicit dht c (raise x) = (c, raise x)
  after_solicit dht c (ok posted) =
      let seeding = record c { sites = insert uri dir c.sites } in
      after_announce seeding (announce p dht seeding uri)

  unfoldable pub after_register :
      Option Dht
      → Client
      → Result (Unit {0})
      → Result (Option (Fields × String))
      → Client × Result (Fields × String)
  after_register dht c (raise x) solicited = (c, raise x)
  after_register dht c (ok done) solicited = after_solicit dht c solicited

  -- `save_bundle` in the state of the client
  unfoldable pub save_bundle : Client → Client
  save_bundle c =
      let spot = spot_of c.spots dir in
      record c {
        spots =
            insert dir
              (record spot { current = some (with_manifest (obj manifest) signature spot.current) })
              c.spots;
      }

-- What an author publishes: the scan of the site, the lifetime, and how reviews are asked for
pub record Publication : Type 0 where
  pub scan : List SiteFile
  pub author : String
  pub ttl : ℕ
  pub categories : List String
  pub review_count : ℤ
  pub review_deadline_days : ℤ
  pub freshness : Option ℕ

module _ (p : Platform) (now : ℕ) (key : p.PrivateKey) (rpc : Fields → Result Fields)
    (dht : Option Dht) (b : Publication) where
  unfoldable pub publish_signed :
      Client → String → String → Result (Fields × String) → Client × Result (Fields × String)
  publish_signed c uri dir (raise x) = (c, raise x)
  publish_signed c uri dir (ok (manifest, signature)) =
      after_register p uri dir manifest signature dht (save_bundle p uri dir manifest signature c)
        (register_name p now key rpc uri b.author manifest)
        (solicit_reviews p now key (client_list_reviewers rpc) uri
          (some (categories_or_other b.categories)) b.review_count b.review_deadline_days
          b.freshness)

  unfoldable pub publish_uri :
      Client → String → UriError ⊎ String → Client × Result (Fields × String)
  publish_uri c dir (inl e) = (c, raise value_error)
  publish_uri c dir (inr uri) = publish_signed c uri dir (
      signed_bundle p now key b.scan uri b.author (version_for (spot_of c.spots dir).current) b.ttl
        b.categories)

  -- `publish(uri, author, site_dir, …)`, with a naming server and the author's key
  unfoldable pub publish : Client → String → String → Client × Result (Fields × String)
  publish c uri dir = publish_uri c dir (validate_uri (str uri))
