-- ===== src/Peer/Accepted.antt =====
-- What a response that `_check_downloaded_bundle` of peer/peer.py accepts is.
use mdp2p.Bundle.Payload.{validate_bundle_payload}
use mdp2p.Bundle.Payload.Laws.{IsBundle, validate_bundle_payload-IsBundle}
use mdp2p.Py.Json.{canonical_json}
use mdp2p.Bundle.Signed.{decode}
use mdp2p.Bundle.Manifest.{verify_manifest, compute_manifest_ref, is_manifest_expired}
use mdp2p.Py.Result.{Result, ok, >>=-eq-ok, raise, ok_injective}
use mdp2p.Py.Value.{Fields, is_text, Value, str, get_or, null, obj, is_dict}
use mdp2p.Peer.Check.{
  check_expiry, check_verified, check_content, Rejection, check_downloaded_bundle, check_shape,
  check_manifest,
}
use mdp2p.Prelude.Int.{ℤ}
use mdp2p.Bundle.Paths.{Location}
use mdp2p.Platform.{Platform}
use mdp2p.Prelude.{
  ◌≡◌, refl, true, false, ◌==◌, Bool, String, Option, List, if◌then◌else◌, ap, not, ℕ, some, eq_iff,
  arith, none, ◌∙◌,
}

module _ (p : Platform) (resolve : Location → Location) (out : Location) (now : ℤ) where
  -- The manifest is signed by the trusted key, it is the one that the naming record refers to, for the
  -- address asked for and not expired, and the files are the ones that it lists.
  pub record IsAccepted (response : Fields) (uri : String) (key : p.PublicKey)
      (expected_ref : String) : Type 0 where
    pub manifest : Fields
    pub manifest_at : get_or response "manifest" null ≡ obj manifest
    pub names_key : get_or manifest "public_key" (str "") ≡ str (p.public_key_to_b64 key)
    pub signature : List ℕ
    pub signature_at : decode p (get_or response "signature" null) ≡ ok signature
    pub signed : p.verify key signature (canonical_json manifest) ≡ true
    pub uri_at : get_or manifest "uri" null ≡ str uri
    pub ref_of : compute_manifest_ref p manifest ≡ expected_ref
    pub not_expired : is_manifest_expired p now manifest ≡ ok false
    pub files : List (String × List ℕ)
    pub is_bundle : IsBundle p resolve out (obj response) files

  unless :
      (b : Bool) (r : Rejection) (next : Result (Option Rejection))
      → (if not b then ok (some r) else next) ≡ ok none
      → (b ≡ true) × (next ≡ ok none)
  unless true r next h = (refl, h)
  unless false r next h = absurd (ground (arith, h))

  unless_false :
      (b : Bool) (next : Result Bool)
      → (if not b then ok false else next) ≡ ok true
      → (b ≡ true) × (next ≡ ok true)
  unless_false true next h = (refl, h)
  unless_false false next h = absurd (ground (arith, h))

  text_at : (v : Value) (s : String) → is_text v s ≡ true → v ≡ str s
  unfolding is_text
  text_at (str t) s h = ap str ((eq_iff t s).0 h)
  text_at null s h = cc
  text_at _ s h = cc

  content :
      (r : Result (List (String × List ℕ)))
      → check_content r ≡ ok none
      → (files : List (String × List ℕ)) × (r ≡ ok files)
  unfolding check_content
  content (ok files) h = (files, refl)
  content (raise x) h = absurd (ground (arith, h))

  expiry :
      (r : Result Bool) (next : Result (Option Rejection))
      → check_expiry r next ≡ ok none
      → (r ≡ ok false) × (next ≡ ok none)
  unfolding check_expiry
  expiry (raise x) next h = cc
  expiry (ok true) next h = cc
  expiry (ok false) next h = (refl, h)

  verified :
      (r : Result Bool) (next : Result (Option Rejection))
      → check_verified r next ≡ ok none
      → (r ≡ ok true) × (next ≡ ok none)
  unfolding check_verified
  verified (raise x) next h = cc
  verified (ok false) next h = cc
  verified (ok true) next h = (refl, h)

  module _ (response : Fields) (uri : String) (key : p.PublicKey) (expected_ref : String) where
    manifest→ :
        (manifest : Fields) (v : Value)
        → get_or response "manifest" null ≡ obj manifest
        → get_or response "signature" null ≡ v
        → check_manifest p resolve out now response manifest v uri key expected_ref ≡ ok none
        → IsAccepted response uri key expected_ref
    unfolding check_manifest verify_manifest
    manifest→ manifest v at sig_at h =
        let (v_ok, h₁) = verified (verify_manifest p manifest v key) _ h in
        let (named, v₁) =
          unless_false (is_text (get_or manifest "public_key" (str "")) (p.public_key_to_b64 key)) _
            v_ok in
        let (bytes, decoded, v₂) = >>=-eq-ok (decode p v) _ v₁ in
        let (uri_ok, h₂) = unless (is_text (get_or manifest "uri" null) uri) _ _ h₁ in
        let (ref_ok, h₃) = unless (compute_manifest_ref p manifest == expected_ref) _ _ h₂ in
        let (fresh, h₄) = expiry (is_manifest_expired p now manifest) _ h₃ in
        let (files, validated) =
          content (validate_bundle_payload p resolve out (obj response)) h₄ in
        record {
          manifest = manifest;
          manifest_at = at;
          names_key = text_at _ _ named;
          signature = bytes;
          signature_at = ap (decode p) sig_at ∙ decoded;
          signed = ok_injective _ _ v₂;
          uri_at = text_at _ _ uri_ok;
          ref_of = (eq_iff (compute_manifest_ref p manifest) expected_ref).0 ref_ok;
          not_expired = fresh;
          files = files;
          is_bundle = validate_bundle_payload-IsBundle p resolve out (obj response) files validated;
        }

    shape→ :
        (m v : Value)
        → get_or response "manifest" null ≡ m
        → get_or response "signature" null ≡ v
        → check_shape p resolve out now response m v uri key expected_ref ≡ ok none
        → IsAccepted response uri key expected_ref
    unfolding check_shape
    shape→ (obj manifest) (str s) at sig_at h =
        manifest→ manifest (str s) at sig_at
          (unless (is_dict (get_or response "files" null)) _ _ h).1
    shape→ (obj manifest) null at sig_at h = cc
    shape→ (obj manifest) _ at sig_at h = cc
    shape→ null v at sig_at h = cc
    shape→ _ v at sig_at h = cc

    -- Whatever a seeder sends, a response that the client accepts carries a manifest that the trusted
    -- key signed, that is the one of the naming record, for the address asked for and not expired, and
    -- files that are exactly those of the manifest, each with its SHA-256 and a path inside the site's
    -- directory.
    pub check_downloaded_bundle-IsAccepted :
        check_downloaded_bundle p resolve out now response uri key expected_ref ≡ ok none
        → IsAccepted response uri key expected_ref
    unfolding check_downloaded_bundle
    check_downloaded_bundle-IsAccepted h =
        shape→ (get_or response "manifest" null) (get_or response "signature" null) refl refl h
