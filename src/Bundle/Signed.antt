-- ===== src/Bundle/Signed.antt =====
-- The check that the four `verify_*` functions of bundle/name_records.py and review/record.py share:
-- required fields, drift of the time stamp, and the signature over the canonical JSON.
pub mod Laws
pub mod Required
use mdp2p.Prelude.{ℕ, String, not, Option, none, some, List, [], ◌∷◌, ltb, if◌then◌else◌}
use mdp2p.Prelude.Int.{ℤ, distance}
use mdp2p.Platform.{Platform}
use mdp2p.Py.Result.{
  Exc, Result, ok, raise, type_error, value_error, invalid_signature, library_error, catch, ◌>>=◌,
}
use mdp2p.Py.Value.{Value, Fields, null, str, contains, item, get_or, is_text}
use mdp2p.Py.Number.{to_int}
use mdp2p.Py.Json.{dumps, canonical_json}

-- The texts that come with a refusal.
pub data Reason : Type 0 where
  missing_fields : List String → Reason
  drift_too_large : ℕ → Reason
  bad_signature : Reason
  verification_error : Exc → Reason
  categories_not_a_list addrs_not_texts bad_peer_id : Reason
  reviewers_not_texts bad_deadline wrong_content_key bad_verdict : Reason

-- `(True, "")` or `(False, reason)`
pub data Verification : Type 0 where
  valid : Verification
  refused : Reason → Verification

-- `[f for f in required if f not in record]`
unfoldable pub missing : Value → List String → Result (List String)
unfolding contains
missing rec [] = ok []
missing rec (f ∷ fs) = do
  there ← contains rec f
  rest ← missing rec fs
  ok (if there then rest else f ∷ rest)

unfoldable pub if_none_missing : List String → Result Verification → Result Verification
if_none_missing [] next = next
if_none_missing (f ∷ fs) next = ok (refused (missing_fields (f ∷ fs)))

-- `if missing: return False, …`, then the other checks
unfoldable pub require : Value → List String → Result Verification → Result Verification
unfolding missing if_none_missing
require rec required next = do gone ← missing rec required; if_none_missing gone next

-- `b64_to_public_key(v)`
unfoldable pub load_key : (p : Platform) → Value → Result p.PublicKey
load_key p (str s) = elim (p.b64_to_public_key s) [ none ↦ raise library_error | some k ↦ ok k ]
load_key p _ = raise type_error

-- `base64.b64decode(v)`
unfoldable pub decode : (p : Platform) → Value → Result (List ℕ)
decode p (str s) = elim (p.b64decode s) [ none ↦ raise library_error | some b ↦ ok b ]
decode p _ = raise type_error

-- `if max_drift is not None: …`: the drift, where it is too large
unfoldable pub drift_of : ℤ → Option ℕ → Value → Result (Option ℕ)
unfolding item to_int
drift_of now none rec = ok none
drift_of now (some max_drift) rec = do
  stamp ← item rec "timestamp"
  t ← to_int stamp
  let drift = distance now t
  ok (if ltb max_drift drift then some drift else none)

-- `public_key.verify(signature, message)`: raises `InvalidSignature`
unfoldable pub verify_bytes : (p : Platform) → p.PublicKey → List ℕ → List ℕ → Result Verification
verify_bytes p key signature message =
    if p.verify key signature message then ok valid else raise invalid_signature

unfoldable pub refusal : Exc → Verification
refusal invalid_signature = refused bad_signature
refusal e = refused (verification_error e)

-- The `try` from the drift on.
unfoldable pub after_drift : Platform → String → Value → Value → Option ℕ → Result Verification
unfolding item load_key decode verify_bytes
after_drift p key_field rec signature (some d) = ok (refused (drift_too_large d))
after_drift p key_field rec signature none = do
  key_text ← item rec key_field
  key ← load_key p key_text
  bytes ← decode p signature
  verify_bytes p key bytes (dumps rec)

-- The body of the `try`, which ends in `return True, ""`.
unfoldable pub attempt : Platform → ℤ → Option ℕ → String → Value → Value → Result Verification
unfolding drift_of after_drift
attempt p now max_drift key_field rec signature = do
  drift ← drift_of now max_drift rec
  after_drift p key_field rec signature drift

-- The `try` with its two handlers.
unfoldable pub check_signature : Platform → ℤ → Option ℕ → String → Value → Value → Verification
unfolding attempt refusal
check_signature p now max_drift key_field rec signature =
    catch (attempt p now max_drift key_field rec signature) refusal

-- The four `sign_*` functions: the record must name the key that signs it.
unfoldable pub sign_record : (p : Platform) → String → Fields → p.PrivateKey → Result String
unfolding get_or canonical_json
sign_record p key_field rec key =
    if not (is_text (get_or rec key_field null) (p.public_key_to_b64 (p.public_key key)))
    then raise value_error
    else ok (p.b64encode (p.sign key (canonical_json rec)))
