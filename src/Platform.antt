-- ===== src/Platform.antt =====
-- What the program takes from the cryptography, hashing and encoding libraries that it calls:
-- parameters of the model, with the behaviour that their documentation promises.
use mdp2p.Prelude.Int.{ℤ}
use mdp2p.Prelude.{ℕ, String, ◌≡◌, Bool, true, Option, some, List}
use mdp2p.Py.Value.{Value}

pub record Platform : Type 1 where
  -- Ed25519 keys
  pub PrivateKey : Type 0
  pub PublicKey : Type 0
  pub public_key : PrivateKey → PublicKey
  pub sign : PrivateKey → List ℕ → List ℕ
  pub verify : PublicKey → List ℕ → List ℕ → Bool
  -- base64 of bytes and of raw public keys; none where the library raises
  pub b64encode : List ℕ → String
  pub b64decode : String → Option (List ℕ)
  pub public_key_to_b64 : PublicKey → String
  pub b64_to_public_key : String → Option PublicKey
  -- SHA-256 of the UTF-8 encoding of a text, as bytes and in hexadecimal
  pub sha256 : List ℕ → List ℕ
  pub sha256_hex : List ℕ → String
  -- `repr` of a float, a list or a dictionary
  pub repr : Value → List ℕ
  -- whether the float with this text is greater than a number
  pub float_gt : String → ℕ → Bool
  -- whether it is less than an integer
  pub float_lt : String → ℤ → Bool

-- What the libraries document.
pub record IsSound (p : Platform) : Type 0 where
  pub verify-sign :
      (k : p.PrivateKey) (m : List ℕ) → p.verify (p.public_key k) (p.sign k m) m ≡ true
  pub decode-encode : (bytes : List ℕ) → p.b64decode (p.b64encode bytes) ≡ some bytes
  pub key-b64 : (k : p.PublicKey) → p.b64_to_public_key (p.public_key_to_b64 k) ≡ some k
