-- ===== src/Peer/Update/Laws.antt =====
-- What it takes for an update to be reported.
use mdp2p.Peer.Update.{
  check_for_update, check_dir, check_site, false_if_raised, Fields, ℤ, timestamp_in,
  attribute_error, check_response, is_text, check_remote, truthy, compare_remote, to_text,
}
use mdp2p.Platform.{Platform}
use mdp2p.Bundle.Manifest.{verify_manifest}
use mdp2p.Bundle.Signed.{load_key}
use mdp2p.Bundle.Disk.{Site}
use mdp2p.Peer.Fetch.{Client, spot_of}
use mdp2p.Dict.{lookup}
use mdp2p.Prelude.{
  true, false, none, some, String, Bool, ◌≡◌, if◌then◌else◌, ap, Option, arith, not, refl, ◌∙◌,
}
use mdp2p.Prelude.Int.{ltb_ℤ→<ℤ, ◌<ℤ◌}
use mdp2p.Py.Value.{null, str, int, obj, arr, bool, float, Value, get_or, item}
use mdp2p.Py.Result.{Result, ok, raise, >>=-eq-ok, ok_injective}

module _ (p : Platform) (show : Value → String) (uri : String) where
  -- The site that is here, and a manifest for the address, signed by the key of the one here and newer
  pub record IsUpdate (c : Client) (answer : Result Value) : Type 0 where
    pub dir : String
    pub seeded : lookup uri c.sites ≡ some dir
    pub site : Site
    pub site_at : (spot_of c.spots dir).current ≡ some site
    pub response : Fields
    pub answered : answer ≡ ok (obj response)
    pub remote : Fields
    pub remote_at : get_or response "manifest" null ≡ obj remote
    pub same_uri : is_text (get_or remote "uri" null) uri ≡ true
    pub key_text : Value
    pub key_at : item site.manifest "public_key" ≡ ok key_text
    pub key : p.PublicKey
    pub loaded : load_key p key_text ≡ ok key
    pub signature : Value
    pub signed : verify_manifest p remote signature key ≡ ok true
    pub local_ts : ℤ
    pub local_at : timestamp_in site.manifest ≡ ok local_ts
    pub remote_ts : ℤ
    pub remote_ts_at : timestamp_in (obj remote) ≡ ok remote_ts
    pub newer : local_ts <ℤ remote_ts

  false_if_raised→ : (r : Result Bool) → false_if_raised r ≡ true → r ≡ ok true
  unfolding false_if_raised
  false_if_raised→ (raise x) e = cc
  false_if_raised→ (ok b) e = ap ok e

  unless :
      (b : Bool) (next : Result Bool)
      → (if not b then ok false else next) ≡ ok true
      → (b ≡ true) × (next ≡ ok true)
  unless true next e = (refl, e)
  unless false next e = absurd (ground (arith, e))

  when :
      (b : Bool) (next : Result Bool)
      → (if b then next else ok false) ≡ ok true
      → (b ≡ true) × (next ≡ ok true)
  when true next e = (refl, e)
  when false next e = absurd (ground (arith, e))

  module _ (c : Client) (answer : Result Value) (dir : String)
      (seeded : lookup uri c.sites ≡ some dir) (site : Site)
      (site_at : (spot_of c.spots dir).current ≡ some site) (local_ts : ℤ)
      (local_at : timestamp_in site.manifest ≡ ok local_ts) where
    check_remote→ :
        (response : Fields) (v : Value)
        → answer ≡ ok (obj response)
        → get_or response "manifest" null ≡ v
        → check_remote p show uri local_ts site.manifest response v ≡ ok true
        → IsUpdate c answer
    unfolding check_remote compare_remote
    check_remote→ response (obj remote) answered remote_at e =
        let (same_uri, e₁) = unless (is_text (get_or remote "uri" null) uri) _ e in
        let (key_text, key_at, e₂) = >>=-eq-ok (item site.manifest "public_key") _ e₁ in
        let (key, loaded, e₃) = >>=-eq-ok (load_key p key_text) _ e₂ in
        let signature = str (to_text show (get_or response "signature" (str ""))) in
        let (signed, signed_at, e₄) = >>=-eq-ok (verify_manifest p remote signature key) _ e₃ in
        let (is_signed, e₅) = unless signed _ e₄ in
        let (remote_ts, remote_ts_at, e₆) = >>=-eq-ok (timestamp_in (obj remote)) _ e₅ in
        record {
          dir = dir;
          seeded = seeded;
          site = site;
          site_at = site_at;
          response = response;
          answered = answered;
          remote = remote;
          remote_at = remote_at;
          same_uri = same_uri;
          key_text = key_text;
          key_at = key_at;
          key = key;
          loaded = loaded;
          signature = signature;
          signed = signed_at ∙ ap ok is_signed;
          local_ts = local_ts;
          local_at = local_at;
          remote_ts = remote_ts;
          remote_ts_at = remote_ts_at;
          newer = ltb_ℤ→<ℤ local_ts remote_ts (ok_injective _ _ e₆);
        }
    check_remote→ response null answered remote_at e = absurd (ground (arith, e))
    check_remote→ response (bool b) answered remote_at e = absurd (ground (arith, e))
    check_remote→ response (int z) answered remote_at e = absurd (ground (arith, e))
    check_remote→ response (float r t) answered remote_at e = absurd (ground (arith, e))
    check_remote→ response (str s) answered remote_at e = absurd (ground (arith, e))
    check_remote→ response (arr xs) answered remote_at e = absurd (ground (arith, e))

    not_true : (b : Bool) → (if b then raise attribute_error else ok false) ≡ ok true → ⊥
    not_true true e = cc
    not_true false e = ground (arith, e)

    check_response→ :
        (v : Value)
        → answer ≡ ok v
        → check_response p show uri local_ts site.manifest v ≡ ok true
        → IsUpdate c answer
    unfolding check_response
    check_response→ (obj response) answered e =
        let (_, e₁) = when (is_text (get_or response "type" null) "manifest") _ e in
        check_remote→ response (get_or response "manifest" null) answered refl e₁
    check_response→ null answered e = absurd (not_true (truthy null) e)
    check_response→ (bool b) answered e = absurd (not_true (truthy (bool b)) e)
    check_response→ (int z) answered e = absurd (not_true (truthy (int z)) e)
    check_response→ (float r t) answered e = absurd (not_true (truthy (float r t)) e)
    check_response→ (str s) answered e = absurd (not_true (truthy (str s)) e)
    check_response→ (arr xs) answered e = absurd (not_true (truthy (arr xs)) e)

  check_site→ :
      (c : Client) (answer : Result Value) (dir : String) (o : Option Site)
      → lookup uri c.sites ≡ some dir
      → (spot_of c.spots dir).current ≡ o
      → check_site p show uri o answer ≡ ok true
      → IsUpdate c answer
  unfolding check_site
  check_site→ c answer dir none seeded at e = cc
  check_site→ c answer dir (some site) seeded at e =
      let (local_ts, local_at, e₁) = >>=-eq-ok (timestamp_in site.manifest) _ e in
      let (v, answered, e₂) =
        >>=-eq-ok answer (check_response p show uri local_ts site.manifest)
          (false_if_raised→ _ (ok_injective _ _ e₁)) in
      check_response→ c answer dir seeded site at local_ts local_at v answered e₂

  check_dir→ :
      (c : Client) (answer : Result Value) (o : Option String)
      → lookup uri c.sites ≡ o
      → check_dir p show uri c.spots o answer ≡ ok true
      → IsUpdate c answer
  unfolding check_dir
  check_dir→ c answer none seeded e = absurd (ground (arith, e))
  check_dir→ c answer (some dir) seeded e = check_site→ c answer dir _ seeded refl e

  -- Whatever a seeder answers: an update is reported only for a site that is here, and only if the
  -- answer brings a manifest for the address that the key of the manifest here has signed, with a time
  -- stamp that is later than the one here.
  pub check_for_update-IsUpdate :
      (c : Client) (answer : Result Value)
      → check_for_update p show uri c answer ≡ ok true
      → IsUpdate c answer
  unfolding check_for_update
  check_for_update-IsUpdate c answer e = check_dir→ c answer (lookup uri c.sites) refl e
