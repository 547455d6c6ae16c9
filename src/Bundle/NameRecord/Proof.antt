-- ===== src/Bundle/NameRecord/Proof.antt =====
-- The registration proofs of bundle/name_records.py: a signature over an author, an address and a time.
use mdp2p.Prelude.{
  ℕ, String, Option, none, some, List, [], ◌∷◌, ◌++◌, ◌+◌, ltb, if◌then◌else◌, refl, ◌≡◌, ◌≤◌,
  arith, ◌/◌, ◌%◌, ap, ◌∙◌,
}
use mdp2p.Prelude.Int.{ℤ, distance}
use mdp2p.Platform.{Platform, IsSound}
use mdp2p.Py.Json.{write_int}
use mdp2p.Py.Text.{codes}
use mdp2p.Py.Result.{◌>>=◌, catch}
use mdp2p.Py.Value.{str}
use mdp2p.Bundle.Signed.Laws.{load_key-eq, decode-eq}
use mdp2p.Bundle.Signed.{
  Verification, valid, refused, drift_too_large, load_key, decode, verify_bytes, refusal,
}
use mdp2p.Review.Record.{or_now}
use mdp2p.Bundle.NameRecord.{max_timestamp_drift_seconds}

-- The bytes of one code point in UTF-8
unfoldable pub utf8_bytes : ℕ → List ℕ
utf8_bytes c =
    if ltb c 128
    then c ∷ []
    else if ltb c 2048
    then (192 + c / 64) ∷ (128 + c % 64) ∷ []
    else if ltb c 65536
    then (224 + c / 4096) ∷ (128 + c / 64 % 64) ∷ (128 + c % 64) ∷ []
    else (240 + c / 262144) ∷ (128 + c / 4096 % 64) ∷ (128 + c / 64 % 64) ∷ (128 + c % 64) ∷ []

-- `.encode("utf-8")`
unfoldable pub utf8 : List ℕ → List ℕ
utf8 [] = []
utf8 (c ∷ cs) = utf8_bytes c ++ utf8 cs

-- `f"REGISTER:{author}:{uri}:{timestamp}".encode("utf-8")`
unfoldable pub register_message : String → String → ℤ → List ℕ
register_message uri author timestamp =
    utf8 (codes "REGISTER:" ++ codes author ++ (b':' ∷ codes uri) ++ (b':' ∷ write_int timestamp))

-- `create_register_proof(uri, author, private_key, timestamp)`
unfoldable pub create_register_proof :
    (p : Platform) → String → String → p.PrivateKey → Option ℤ → ℤ → String × ℤ
create_register_proof p uri author key timestamp now =
    let stamp = or_now timestamp now in
    (p.b64encode (p.sign key (register_message uri author stamp)), stamp)

-- The drift, where one is allowed and it is too large
unfoldable pub proof_drift : ℤ → ℤ → Option ℕ → Option ℕ
proof_drift now timestamp none = none
proof_drift now timestamp (some max_drift) =
    if ltb max_drift (distance now timestamp) then some (distance now timestamp) else none

module _ (p : Platform) (uri author key_text proof : String) (timestamp : ℤ) where
  unfoldable pub check_proof : Option ℕ → Verification
  check_proof (some drift) = refused (drift_too_large drift)
  check_proof none =
      catch
        (do
          key ← load_key p (str key_text)
          bytes ← decode p (str proof)
          verify_bytes p key bytes (register_message uri author timestamp))
        refusal

  -- `verify_register_proof(uri, author, public_key_b64, proof_b64, timestamp, max_drift)`
  unfoldable pub verify_register_proof : ℤ → Option ℕ → Verification
  verify_register_proof now max_drift = check_proof (proof_drift now timestamp max_drift)

proof_drift-near :
    (now created : ℤ)
    → distance now created ≤ max_timestamp_drift_seconds
    → proof_drift now created (some max_timestamp_drift_seconds) ≡ none
unfolding proof_drift
proof_drift-near now created near = ground (arith, near)

module _ (p : Platform) (sound : IsSound p) (k : p.PrivateKey) (uri author : String) where
  check_proof-own :
      (created : ℤ)
      → check_proof p uri author
          (p.public_key_to_b64 (p.public_key k))
          (p.b64encode (p.sign k (register_message uri author created)))
          created
          none
        ≡ valid
  unfolding check_proof verify_bytes
  check_proof-own created =
      let message = register_message uri author created in
      rw
        (
          load_key-eq p _ _ (sound.key-b64 (p.public_key k)),
          decode-eq p _ _ (sound.decode-encode (p.sign k message)),
          sound.verify-sign k message,
        )
        refl

  -- A proof that an author creates verifies with his public key for five minutes around its time.
  pub verify-create_register_proof :
      (created now : ℤ)
      → distance now created ≤ max_timestamp_drift_seconds
      → verify_register_proof p uri author
          (p.public_key_to_b64 (p.public_key k))
          (create_register_proof p uri author k none created).0
          (create_register_proof p uri author k none created).1
          now
          (some max_timestamp_drift_seconds)
        ≡ valid
  unfolding verify_register_proof create_register_proof
  verify-create_register_proof created now near =
      ap (check_proof p uri author _ _ created) (proof_drift-near now created near)
      ∙ check_proof-own created
