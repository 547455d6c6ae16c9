-- ===== src/Bundle/Manifest/Laws.antt =====
-- Signed manifests.
use mdp2p.Py.Value.Laws.{get-with_field}
use mdp2p.Bundle.Signed.{decode}
use mdp2p.Platform.{IsSound}
use mdp2p.Py.Value.{get_or, is_text}
use mdp2p.Bundle.Manifest.{
  verify_manifest, sign_manifest, Fields, Platform, decode, is_text, with_field, str, ok,
  canonical_json, Value,
}
use mdp2p.Prelude.{◌≡◌, refl, String, arith, true, List, ℕ, some, eq_refl, subst, sym}

is_text_of : (v : Value) (s : String) → v ≡ str s → is_text v s ≡ true
unfolding is_text
is_text_of v s e = subst (λ w. is_text w s ≡ true) (sym e) (eq_refl s)

decoded_of :
    (p : Platform) (signature : String) (bytes : List ℕ)
    → p.b64decode signature ≡ some bytes
    → decode p (str signature) ≡ ok bytes
unfolding decode
decoded_of p signature bytes e = ground (arith, e)

verified :
    (p : Platform) (manifest : Fields) (signature : String) (bytes : List ℕ) (key : p.PublicKey)
    → get_or manifest "public_key" (str "") ≡ str (p.public_key_to_b64 key)
    → p.b64decode signature ≡ some bytes
    → p.verify key bytes (canonical_json manifest) ≡ true
    → verify_manifest p manifest (str signature) key ≡ ok true
unfolding verify_manifest
verified p manifest signature bytes key named decoded signed =
    rw (is_text_of _ _ named, decoded_of p signature bytes decoded, signed) refl

named_after :
    (manifest : Fields) (b64 : String)
    → get_or (with_field manifest "public_key" (str b64)) "public_key" (str "") ≡ str b64
unfolding get_or
named_after manifest b64 =
    ground (arith, get-with_field manifest "public_key" "public_key" (str b64))

-- A manifest that its author signs verifies under his public key, whatever key it named before.
pub verify-sign_manifest :
    (p : Platform) (sound : IsSound p) (manifest : Fields) (key : p.PrivateKey)
    → verify_manifest p
        (sign_manifest p manifest key).0
        (str (sign_manifest p manifest key).1)
        (p.public_key key)
      ≡ ok true
unfolding sign_manifest
verify-sign_manifest p sound manifest key =
    let signed : Fields =
      with_field manifest "public_key" (str (p.public_key_to_b64 (p.public_key key))) in
    verified p signed (p.b64encode (p.sign key (canonical_json signed)))
      (p.sign key (canonical_json signed)) (p.public_key key)
      (named_after manifest (p.public_key_to_b64 (p.public_key key)))
      (sound.decode-encode (p.sign key (canonical_json signed)))
      (sound.verify-sign key (canonical_json signed))
