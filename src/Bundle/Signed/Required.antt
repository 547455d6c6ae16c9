-- ===== src/Bundle/Signed/Required.antt =====
-- The test for required fields.
use mdp2p.Prelude.{◌≡◌, refl, true, String, List, [], ◌∷◌, arith}
use mdp2p.Py.Result.{Result, ok, >>=-eq-ok}
use mdp2p.Py.Value.{Value, contains}
use mdp2p.Bundle.Signed.{Verification, valid, missing, if_none_missing, require}

-- Each of the fields is there.
abbrev pub HasFields : Value → List String → Type 0
HasFields rec [] = Unit
HasFields rec (f ∷ fs) = (contains rec f ≡ ok true) × HasFields rec fs

missing→ : (rec : Value) (fs : List String) → missing rec fs ≡ ok [] → HasFields rec fs
unfolding missing
missing→ rec [] h = tt
missing→ rec (f ∷ fs) h =
    let (there, found, h') = >>=-eq-ok (contains rec f) _ h in
    let (rest, none_missing, h'') = >>=-eq-ok (missing rec fs) _ h' in
    (ground arith, missing→ rec fs (ground arith))

→missing : (rec : Value) (fs : List String) → HasFields rec fs → missing rec fs ≡ ok []
unfolding missing
→missing rec [] h = refl
→missing rec (f ∷ fs) h = rw (h.0, →missing rec fs h.1)

module _ (rec : Value) (fs : List String) (next : Result Verification) where
  pub require→ : require rec fs next ≡ ok valid → HasFields rec fs × (next ≡ ok valid)
  unfolding require
  require→ h = let (gone, found, rest) = >>=-eq-ok (missing rec fs) _ h in on_gone gone found rest
    where
      on_gone :
          (gone : List String)
          → missing rec fs ≡ ok gone
          → if_none_missing gone next ≡ ok valid
          → HasFields rec fs × (next ≡ ok valid)
      on_gone [] e h' = (missing→ rec fs e, h')
      on_gone (f ∷ more) e h' = cc

  pub →require : HasFields rec fs → next ≡ ok valid → require rec fs next ≡ ok valid
  unfolding require
  →require present h = rw (→missing rec fs present) h
