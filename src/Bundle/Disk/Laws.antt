-- ===== src/Bundle/Disk/Laws.antt =====
-- What a write of a bundle leaves on the disk, whatever the disk refuses.
use mdp2p.Py.Value.{item}
use mdp2p.Prelude.{
  Bool, Option, ◌≡◌, some, if◌then◌else◌, none, ◌⊎◌, List, inl, true, String, ℕ, inr, sym, false,
  refl, subst, ap, ◌∙◌,
}
use mdp2p.Bundle.Disk.{
  Operation, Site, swap_into_place, Spot, drop_staging, Platform, swap_in, Location, Value,
  write_site, library_error, move_backup, dict_to_bundle, write_validated, move_staging,
  validate_bundle_payload, move_current, staged, write_staging, swap_onto, text_of_signature, str,
  is_stuck, remove_backup, remove_staging,
}
use mdp2p.Py.Result.{Result, ok, raise, >>=-eq-ok, ok_injective}

-- A write that raised: the directory is as it was, or, where the disk has refused to move it back as
-- well, the site is in the backup.
abbrev pub IsUntouched : (Operation → Bool) → Spot → Spot → Type 0
IsUntouched refuses before after =
    (after.current ≡ before.current)
    ⊎ ((refuses move_backup ≡ true) × (after.backup ≡ before.current))

-- The directory holds the manifest and the signature of the payload, these files, and no attachments.
pub record IsCopy (payload : Value) (files : List (String × List ℕ)) (site : Site) : Type 0 where
  pub manifest_at : item payload "manifest" ≡ ok site.manifest
  pub signature_at : item payload "signature" ≡ ok (str site.signature)
  pub files_at : site.files ≡ files
  pub no_attachments : site.attachments ≡ none

text_of_signature→ : (v : Value) (s : String) → text_of_signature v ≡ ok s → v ≡ str s
unfolding text_of_signature
text_of_signature→ (str t) s e = ap str (ok_injective t s e)
text_of_signature→ v s e = absurd cc

staged-IsCopy :
    (payload : Value) (files : List (String × List ℕ)) (new : Site)
    → staged payload files ≡ ok new
    → IsCopy payload files new
unfolding staged
staged-IsCopy payload files new e =
    let (manifest, manifest_at, e₁) = >>=-eq-ok (item payload "manifest") _ e in
    let (v, v_at, e₂) = >>=-eq-ok (item payload "signature") _ e₁ in
    let (signature, signature_at, e₃) = >>=-eq-ok (text_of_signature v) _ e₂ in
    subst (IsCopy payload files) (ok_injective _ new e₃) record {
      manifest_at = manifest_at;
      signature_at = v_at ∙ ap ok (text_of_signature→ v signature signature_at);
      files_at = refl;
      no_attachments = refl;
    }

module _ (refuses : Operation → Bool) where
  -- What the steps after the validation leave
  abbrev IsSwapped : Site → Spot → Spot × Result (Unit {0}) → Type 0
  IsSwapped new before (after, ok done) = (after.current ≡ some new) × (after.staging ≡ none)
  IsSwapped new before (after, raise x) = IsUntouched refuses before after

  swap_in-IsSwapped :
      (old new : Site) (before : Spot)
      → before.current ≡ some old
      → IsSwapped new before (swap_in refuses old new)
  unfolding swap_in
  swap_in-IsSwapped old new before at = go (refuses move_staging) (refuses move_backup) refl
    where
      go :
          (b c : Bool)
          → refuses move_backup ≡ c
          → IsSwapped new before (
              if b
              then (
                if c
                    then record { current = none; staging = some new; backup = some old }
                    else record { current = some old; staging = some new; backup = none },
                raise library_error,
              )
              else (record { current = some new; staging = none; backup = none }, ok tt))
      go true true e = inr (e, sym at)
      go true false e = inl (sym at)
      go false c e = (refl, refl)

  swap_onto-IsSwapped :
      (new : Site) (spot : Spot) (o : Option Site)
      → spot.current ≡ o
      → IsSwapped new spot (swap_onto refuses o new spot)
  unfolding swap_onto
  swap_onto-IsSwapped new spot none at = (go (refuses move_staging))
    where
      go :
          (b : Bool)
          → IsSwapped new spot (
              if b
              then (record spot { staging = some new }, raise library_error)
              else (record spot { current = some new; staging = none }, ok tt))
      go true = inl refl
      go false = (refl, refl)
  swap_onto-IsSwapped new spot (some old) at =
      go (is_stuck refuses remove_backup spot.backup) (refuses move_current)
    where
      go :
          (b c : Bool)
          → IsSwapped new spot (
              if b
              then (record spot { staging = some new }, raise library_error)
              else if c
              then (
                record { current = some old; staging = some new; backup = none },
                raise library_error,
              )
              else swap_in refuses old new)
      go true c = inl refl
      go false true = inl (sym at)
      go false false = swap_in-IsSwapped old new spot at

  drop_staging-IsSwapped :
      (new : Site) (before : Spot) (r : Spot × Result (Unit {0}))
      → IsSwapped new before r
      → IsSwapped new before (drop_staging refuses r)
  unfolding drop_staging
  drop_staging-IsSwapped new before (after, ok done) h = h
  drop_staging-IsSwapped new before (after, raise x) h = h

  module _ (p : Platform) (resolve : Location → Location) (out : Location) (payload : Value)
      (before : Spot) where
    -- What a write leaves
    abbrev pub IsWritten : Spot × Result (Unit {0}) → Type 0
    IsWritten (after, ok done) =
        (files : List (String × List ℕ)) × (new : Site) × (validate_bundle_payload p resolve out
            payload
          ≡ ok files)
        × IsCopy payload files new
        × (after.current ≡ some new)
        × (after.staging ≡ none)
    IsWritten (after, raise x) = IsUntouched refuses before after

    write_site-IsWritten :
        (files : List (String × List ℕ)) (made : Result Site)
        → validate_bundle_payload p resolve out payload ≡ ok files
        → staged payload files ≡ made
        → IsWritten (write_site refuses made before)
    unfolding write_site swap_into_place
    write_site-IsWritten files (raise x) valid at = inl refl
    write_site-IsWritten files (ok new) valid at = go (refuses write_staging)
      where
        swapped : (r : Spot × Result (Unit {0})) → IsSwapped new before r → IsWritten r
        swapped (after, ok done) h =
            (files, new, valid, staged-IsCopy payload files new at, h.0, h.1)
        swapped (after, raise x) h = h

        go :
            (b : Bool)
            → IsWritten (
                if b
                then (record before { staging = none }, raise library_error)
                else drop_staging refuses (swap_into_place refuses new before))
        go true = inl refl
        go false = swapped _ (
            drop_staging-IsSwapped new before _
              (swap_onto-IsSwapped new before before.current refl))

    unless_stuck :
        (b : Bool) (r : Spot × Result (Unit {0}))
        → IsWritten r
        → IsWritten (if b then (before, raise library_error) else r)
    unless_stuck true r h = inl refl
    unless_stuck false r h = h

    -- Whatever comes over the network and whatever the disk refuses: when `dict_to_bundle` returns, the
    -- directory holds the manifest and the signature of the payload, the validated files and nothing
    -- else, and there is no staging directory; when it raises, it holds what it held before, or, if the disk refuses to move the backup back too, the backup holds it.
    pub dict_to_bundle-IsWritten : IsWritten (dict_to_bundle refuses p resolve out payload before)
    unfolding dict_to_bundle write_validated
    dict_to_bundle-IsWritten = go (validate_bundle_payload p resolve out payload) refl
      where
        go :
            (validated : Result (List (String × List ℕ)))
            → validate_bundle_payload p resolve out payload ≡ validated
            → IsWritten (write_validated refuses payload validated before)
        go (raise x) valid = inl refl
        go (ok files) valid =
            unless_stuck (is_stuck refuses remove_staging before.staging) _
              (write_site-IsWritten files (staged payload files) valid refl)
