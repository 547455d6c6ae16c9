-- ===== src/Tests/Toy.antt =====
-- A platform that computes: a signature is the length of the message, and bytes are written in unary.
use mdp2p.Platform.{Platform, IsSound}
use mdp2p.Py.Text.{codes_eqb}
use mdp2p.Prelude.{
  ◌≡◌, refl, ap, [], ◌∷◌, zero, suc, true, none, some, ◌+◌, Option, ◌∙◌, length, if◌then◌else◌,
  arith, eqb, false,
}
use mdp2p.Prelude.{ℕ, String, code, List}

abbrev pub ones : ℕ → String → String
ones zero s = String.◌∷◌ "0" s
ones (suc n) s = String.◌∷◌ "1" (ones n s)

abbrev pub unary : List ℕ → String
unary [] = ""
unary (n ∷ ns) = ones n (unary ns)

abbrev pub push : Option (List ℕ) → ℕ → Option (List ℕ)
push none n = none
push (some ns) n = some (n ∷ ns)

abbrev pub ended : ℕ → Option (List ℕ)
ended zero = some []
ended (suc n) = none

abbrev pub read_from : ℕ → String → Option (List ℕ)
read_from n String.[] = ended n
read_from n (String.◌∷◌ c s) =
    let zero_read = push (read_from 0 s) n in
    let one_read = read_from (suc n) s in if eqb (code c) b'0' then zero_read else one_read

abbrev pub toy : Platform
toy = record {
  PrivateKey = String;
  PublicKey = String;
  public_key = λ k. k;
  sign = λ k m. length m ∷ [];
  verify = λ k bytes m. codes_eqb bytes (length m ∷ []);
  b64encode = unary;
  b64decode = read_from 0;
  public_key_to_b64 = λ k. k;
  b64_to_public_key = λ s. some s;
  sha256 = λ m. m;
  sha256_hex = λ m. "00";
  repr = λ v. [];
  float_gt = λ r n. false;
  float_lt = λ r z. false;
}

codes_eqb_refl : (xs : List ℕ) → codes_eqb xs xs ≡ true
unfolding codes_eqb
codes_eqb_refl [] = refl
codes_eqb_refl (x ∷ xs) = ground (arith, codes_eqb_refl xs)

read-ones : (n m : ℕ) (s : String) → read_from m (ones n s) ≡ push (read_from 0 s) (m + n)
read-ones zero m s = let e : m ≡ m + 0 = omega arith in ap (push (read_from 0 s)) e
read-ones (suc n) m s =
    let e : suc m + n ≡ m + suc n = omega arith in
    read-ones n (suc m) s ∙ ap (push (read_from 0 s)) e

decode-unary : (bytes : List ℕ) → read_from 0 (unary bytes) ≡ some bytes
decode-unary [] = refl
decode-unary (n ∷ ns) =
    read-ones n 0 (unary ns)
    ∙ (let e : 0 + n ≡ n = omega arith in
        ap (push (read_from 0 (unary ns))) e ∙ ap (λ r. push r n) (decode-unary ns))

pub toy-IsSound : IsSound toy
toy-IsSound = record {
  verify-sign = λ k m. codes_eqb_refl (length m ∷ []);
  decode-encode = decode-unary;
  key-b64 = λ k. refl;
}
