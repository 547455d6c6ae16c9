-- ===== src/Bundle/NameRecord.antt =====
-- bundle/name_records.py: naming records, which bind an address to a key and a manifest.
pub mod Laws
pub mod Proof
use mdp2p.Prelude.{ℕ, String, Option, none, some, List, [], ◌∷◌}
use mdp2p.Prelude.Int.{ℤ}
use mdp2p.Platform.{Platform}
use mdp2p.Py.Result.{Result, ok, ◌>>=◌}
use mdp2p.Py.Value.{Value, Fields, int, str, end, field}
use mdp2p.Bundle.Signed.{Verification, refused, require, check_signature, sign_record}

abbrev pub max_timestamp_drift_seconds : ℕ
max_timestamp_drift_seconds = 300

abbrev pub name_record_fields : List String
name_record_fields = "uri" ∷ "author" ∷ "public_key" ∷ "manifest_ref" ∷ "timestamp" ∷ []

-- `build_name_record(uri, author, public_key_b64, manifest_ref, timestamp)`; without a time stamp it
-- takes the clock's.
unfoldable pub build_name_record : String → String → String → String → Option ℤ → ℤ → Fields
build_name_record uri author key ref timestamp now = field "uri" (str uri) (
    field "author" (str author) (
      field "public_key" (str key) (
        field "manifest_ref" (str ref)
          (field "timestamp" (int (elim timestamp [ none ↦ now | some t ↦ t ])) end))))

-- `sign_name_record(record, private_key)`
unfoldable pub sign_name_record : (p : Platform) → Fields → p.PrivateKey → Result String
unfolding sign_record
sign_name_record p = sign_record p "public_key"

-- `verify_name_record(record, signature_b64, max_drift)`
unfoldable pub verify_name_record : Platform → ℤ → Option ℕ → Value → Value → Result Verification
unfolding require check_signature
verify_name_record p now max_drift rec signature =
    require rec name_record_fields (ok (check_signature p now max_drift "public_key" rec signature))
