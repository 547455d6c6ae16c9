-- ===== src/Bundle/NameRecord/Laws.antt =====
-- What a verified naming record is, and that a record which its author builds and signs verifies.
use mdp2p.Prelude.{ℕ, ◌≤◌, ◌≡◌, refl, ap, ◌↔◌, String, eq_refl, Option, none, some}
use mdp2p.Prelude.Int.{ℤ, distance}
use mdp2p.Platform.{Platform, IsSound}
use mdp2p.Py.Result.{ok, ok_injective}
use mdp2p.Py.Value.{Value, Fields, int, str, obj, get, contains, item, is_text}
use mdp2p.Py.Number.{to_int}
use mdp2p.Py.Json.{canonical_json}
use mdp2p.Bundle.Signed.{valid}
use mdp2p.Bundle.Signed.Laws.{
  IsSigned, IsFresh, within, unchecked, check_signature→, →check_signature,
}
use mdp2p.Bundle.Signed.Required.{HasFields, require→, →require}
use mdp2p.Bundle.NameRecord.{
  name_record_fields, max_timestamp_drift_seconds, build_name_record, sign_name_record,
  verify_name_record,
}

module _ (p : Platform) (now : ℤ) (d : Option ℕ) (rec signature : Value) where
  -- `verify_name_record` returns True exactly for a record that has its five fields, a time stamp
  -- within the drift that is allowed (any, if none is given), and a signature of the key that it names
  -- over its canonical JSON.
  pub verify_name_record_iff : (verify_name_record p now d rec signature ≡ ok valid) ↔ (
      HasFields rec name_record_fields × IsFresh now rec d × IsSigned p "public_key" rec signature)
  unfolding verify_name_record
  verify_name_record_iff = (
    λ h.
        let (present, checked) = require→ rec name_record_fields _ h in
        let (fresh, signed) =
          check_signature→ p "public_key" rec signature now d (ok_injective _ _ checked) in
        (present, fresh, signed),
    λ h.
        →require rec name_record_fields _ h.0
          (ap ok (→check_signature p "public_key" rec signature now d h.1 h.2)),
  )

-- A record that passes the check of the server passes that of a client, at any later time: the client
-- skips the drift.
pub verify_name_record_later :
    (p : Platform) (now later : ℤ) (d : Option ℕ) (rec signature : Value)
    → verify_name_record p now d rec signature ≡ ok valid
    → verify_name_record p later none rec signature ≡ ok valid
verify_name_record_later p now later d rec signature h =
    let (present, fresh, signed) = (verify_name_record_iff p now d rec signature).0 h in
    (verify_name_record_iff p later none rec signature).1 (present, unchecked, signed)

module _ (p : Platform) (sound : IsSound p) (k : p.PrivateKey) where
  abbrev pub own_record : String → String → String → ℤ → Fields
  own_record uri author ref now =
      build_name_record uri author (p.public_key_to_b64 (p.public_key k)) ref none now

  -- An author can sign the record that he builds with his own key, and `verify_name_record` returns True
  -- for the record and the signature by each clock that is at most five minutes off.
  pub verify-sign_name_record :
      (uri author ref : String) (signed_at now : ℤ)
      → distance now signed_at ≤ max_timestamp_drift_seconds
      → (sig : String) × (sign_name_record p (own_record uri author ref signed_at) k ≡ ok sig)
        × (verify_name_record p now
              (some max_timestamp_drift_seconds)
              (obj (own_record uri author ref signed_at))
              (str sig)
            ≡ ok valid)
  unfolding sign_name_record canonical_json build_name_record contains item to_int get is_text
  verify-sign_name_record uri author ref signed_at now near =
      let rec : Fields = own_record uri author ref signed_at in
      let sig : String = p.b64encode (p.sign k (canonical_json rec)) in
      (
        sig,
        rw (eq_refl (p.public_key_to_b64 (p.public_key k))) refl,
        (verify_name_record_iff p now (some max_timestamp_drift_seconds) (obj rec) (str sig)).1 (
          (refl, (refl, (refl, (refl, (refl, tt))))),
          within max_timestamp_drift_seconds (int signed_at) signed_at refl refl near,
          record {
            key_text = p.public_key_to_b64 (p.public_key k);
            key = p.public_key k;
            signature_text = sig;
            bytes = p.sign k (canonical_json rec);
            key_at = refl;
            key_read = sound.key-b64 (p.public_key k);
            signature_at = refl;
            signature_read = sound.decode-encode (p.sign k (canonical_json rec));
            verified = sound.verify-sign k (canonical_json rec);
          },
        ),
      )
