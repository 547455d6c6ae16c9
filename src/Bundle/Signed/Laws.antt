-- ===== src/Bundle/Signed/Laws.antt =====
-- What the shared check of signed records establishes.
use mdp2p.Prelude.{ℕ, ◌≤◌, ◌≡◌, refl, true, ◌↔◌, String, List, ap, ◌∙◌, Option, none, some, arith}
use mdp2p.Prelude.Int.{ℤ, distance}
use mdp2p.Platform.{Platform}
use mdp2p.Py.Result.{Exc, Result, ok, raise, catch, >>=-eq-ok}
use mdp2p.Py.Value.{Value, null, str, item}
use mdp2p.Py.Number.{to_int}
use mdp2p.Py.Json.{dumps}
use mdp2p.Bundle.Signed.{
  Verification, valid, load_key, decode, drift_of, verify_bytes, after_drift, refusal, attempt,
  check_signature,
}

-- The record names a key under `key_field`, and the signature is one of that key over the canonical
-- JSON of the record.
pub record IsSigned (p : Platform) (key_field : String) (rec signature : Value) : Type 0 where
  pub key_text : String
  pub key : p.PublicKey
  pub signature_text : String
  pub bytes : List ℕ
  pub key_at : item rec key_field ≡ ok (str key_text)
  pub key_read : p.b64_to_public_key key_text ≡ some key
  pub signature_at : signature ≡ str signature_text
  pub signature_read : p.b64decode signature_text ≡ some bytes
  pub verified : p.verify key bytes (dumps rec) ≡ true

-- The time stamp is an integer that is at most `max_drift` seconds from the clock.
pub data IsFresh (now : ℤ) (rec : Value) : Option ℕ → Type 0 where
  unchecked : IsFresh now rec none
  within :
      (max_drift : ℕ) (stamp : Value) (t : ℤ)
      → item rec "timestamp" ≡ ok stamp
      → to_int stamp ≡ ok t
      → distance now t ≤ max_drift
      → IsFresh now rec (some max_drift)

module _ (p : Platform) where
  load_key-ok :
      (v : Value) (k : p.PublicKey)
      → load_key p v ≡ ok k
      → (s : String) × (v ≡ str s) × (p.b64_to_public_key s ≡ some k)
  unfolding load_key
  load_key-ok (str s) k h = (s, refl, ground arith)
  load_key-ok null k h = cc
  load_key-ok _ k h = cc

  decode-ok :
      (v : Value) (b : List ℕ)
      → decode p v ≡ ok b
      → (s : String) × (v ≡ str s) × (p.b64decode s ≡ some b)
  unfolding decode
  decode-ok (str s) k h = (s, refl, ground arith)
  decode-ok null k h = cc
  decode-ok _ k h = cc

  pub load_key-eq :
      (s : String) (k : p.PublicKey) → p.b64_to_public_key s ≡ some k → load_key p (str s) ≡ ok k
  unfolding load_key
  load_key-eq s k h = ground arith

  pub decode-eq : (s : String) (b : List ℕ) → p.b64decode s ≡ some b → decode p (str s) ≡ ok b
  unfolding decode
  decode-eq s b h = ground arith

catch-refusal : (m : Result Verification) → catch m refusal ≡ valid → m ≡ ok valid
unfolding refusal
catch-refusal (ok v) h = ap ok h
catch-refusal (raise Exc.invalid_signature) h = cc
catch-refusal (raise Exc.type_error) h = cc
catch-refusal (raise _) h = cc

drift-none :
    (now : ℤ) (rec : Value) (d : Option ℕ) → drift_of now d rec ≡ ok none → IsFresh now rec d
unfolding drift_of
drift-none now rec none h = unchecked
drift-none now rec (some m) h =
    let (stamp, at, h') = >>=-eq-ok (item rec "timestamp") _ h in
    let (t, read, h'') = >>=-eq-ok (to_int stamp) _ h' in within m stamp t at read (ground arith)

IsFresh→drift :
    (now : ℤ) (rec : Value) (d : Option ℕ) → IsFresh now rec d → drift_of now d rec ≡ ok none
unfolding drift_of
IsFresh→drift now rec none f = refl
IsFresh→drift now rec (some m) (within _ stamp t at read near) = rw (at, read) (ground arith)

module _ (p : Platform) (key_field : String) (rec signature : Value) where
  after_drift→IsSigned :
      (d : Option ℕ)
      → after_drift p key_field rec signature d ≡ ok valid
      → (d ≡ none) × IsSigned p key_field rec signature
  unfolding after_drift verify_bytes
  after_drift→IsSigned (some d) h = cc
  after_drift→IsSigned none h =
      let (v, at, h₁) = >>=-eq-ok (item rec key_field) _ h in
      let (key, loaded, h₂) = >>=-eq-ok (load_key p v) _ h₁ in
      let (bytes, decoded, h₃) = >>=-eq-ok (decode p signature) _ h₂ in
      let (text, is_text, read) = load_key-ok p v key loaded in
      let (sig, is_sig, sig_read) = decode-ok p signature bytes decoded in
      (
        refl,
        record {
          key_text = text;
          key = key;
          signature_text = sig;
          bytes = bytes;
          key_at = at ∙ ap ok is_text;
          key_read = read;
          signature_at = is_sig;
          signature_read = sig_read;
          verified = ground arith;
        },
      )

  IsSigned→after_drift :
      IsSigned p key_field rec signature → after_drift p key_field rec signature none ≡ ok valid
  unfolding after_drift verify_bytes
  IsSigned→after_drift s = rw (
    s.key_at,
    load_key-eq p s.key_text s.key s.key_read,
    s.signature_at,
    decode-eq p s.signature_text s.bytes s.signature_read,
    s.verified,
  )

  module _ (now : ℤ) (d : Option ℕ) where
    pub check_signature→ :
        check_signature p now d key_field rec signature ≡ valid
        → IsFresh now rec d × IsSigned p key_field rec signature
    unfolding check_signature
    check_signature→ h =
        let (drift, found, rest) =
          >>=-eq-ok (drift_of now d rec) _
            (catch-refusal (attempt p now d key_field rec signature) h) in
        let (fresh, signed) = after_drift→IsSigned drift rest in
        (drift-none now rec d (found ∙ ap ok fresh), signed)

    pub →check_signature :
        IsFresh now rec d
        → IsSigned p key_field rec signature
        → check_signature p now d key_field rec signature ≡ valid
    unfolding check_signature
    →check_signature f s = rw (IsFresh→drift now rec d f, IsSigned→after_drift s)

    -- The `try` block ends in `True` exactly when the time stamp is fresh, the key of the record can be
    -- read and the signature is one of that key over the canonical JSON of the record.
    pub check_signature_iff :
        (check_signature p now d key_field rec signature ≡ valid)
        ↔ (IsFresh now rec d × IsSigned p key_field rec signature)
    check_signature_iff = (check_signature→, λ h. →check_signature h.0 h.1)
