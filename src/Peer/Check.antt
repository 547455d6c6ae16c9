-- ===== src/Peer/Check.antt =====
-- `_check_downloaded_bundle` of peer/peer.py: the checks on the response of a seeder.
use mdp2p.Bundle.Manifest.{is_manifest_expired, verify_manifest, compute_manifest_ref}
use mdp2p.Bundle.Payload.{validate_bundle_payload}
use mdp2p.Py.Value.{Fields, get_or, Value, obj, null, str, is_text, is_dict}
use mdp2p.Prelude.Int.{ℤ}
use mdp2p.Bundle.Paths.{Location}
use mdp2p.Prelude.{Bool, List, String, true, Option, false, ℕ, some, none, if◌then◌else◌, not, ◌==◌}
use mdp2p.Platform.{Platform}
use mdp2p.Py.Result.{Exc, Result, raise, ok, value_error, key_error, type_error}

pub data Rejection : Type 0 where
  malformed_response malformed_files signature_invalid : Rejection
  verification_failed : Exc → Rejection
  wrong_uri ref_mismatch manifest_expired : Rejection
  content_rejected : Exc → Rejection

-- `except (ValueError, KeyError, TypeError)`
unfoldable pub is_content_error : Exc → Bool
is_content_error value_error = true
is_content_error key_error = true
is_content_error type_error = true
is_content_error _ = false

unfoldable pub check_content : Result (List (String × List ℕ)) → Result (Option Rejection)
check_content (ok files) = ok none
check_content (raise x) = if is_content_error x then ok (some (content_rejected x)) else raise x

unfoldable pub check_expiry : Result Bool → Result (Option Rejection) → Result (Option Rejection)
check_expiry (raise x) next = raise x
check_expiry (ok true) next = ok (some manifest_expired)
check_expiry (ok false) next = next

unfoldable pub check_verified : Result Bool → Result (Option Rejection) → Result (Option Rejection)
check_verified (raise x) next = ok (some (verification_failed x))
check_verified (ok false) next = ok (some signature_invalid)
check_verified (ok true) next = next

module _ (p : Platform) (resolve : Location → Location) (out : Location) (now : ℤ) where
  unfoldable pub check_manifest :
      Fields → Fields → Value → String → p.PublicKey → String → Result (Option Rejection)
  check_manifest response manifest signature uri key expected_ref =
      let content = check_content (validate_bundle_payload p resolve out (obj response)) in
      let expiry = check_expiry (is_manifest_expired p now manifest) content in
      check_verified (verify_manifest p manifest signature key) (
        if not (is_text (get_or manifest "uri" null) uri)
        then ok (some wrong_uri)
        else if not (compute_manifest_ref p manifest == expected_ref)
        then ok (some ref_mismatch)
        else expiry)

  unfoldable pub check_shape :
      Fields → Value → Value → String → p.PublicKey → String → Result (Option Rejection)
  check_shape response (obj manifest) (str s) uri key expected_ref =
      if not (is_dict (get_or response "files" null))
      then ok (some malformed_files)
      else check_manifest response manifest (str s) uri key expected_ref
  check_shape response _ _ uri key expected_ref = ok (some malformed_response)

  -- `_check_downloaded_bundle(bundle_data, uri, trusted_key, expected_ref, site_dir)`
  unfoldable pub check_downloaded_bundle :
      Fields → String → p.PublicKey → String → Result (Option Rejection)
  check_downloaded_bundle response uri key expected_ref =
      check_shape response (get_or response "manifest" null) (get_or response "signature" null) uri
        key expected_ref
