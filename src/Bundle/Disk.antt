-- ===== src/Bundle/Disk.antt =====
-- bundle/serialization.py and `verify_files` of bundle/manifest.py: bundles on the disk. A site is known
-- by what its directory holds; a file's bytes are those of the text with these code points.
pub mod Laws
use mdp2p.Review.Taxonomy.{mem_text}
use mdp2p.Py.Text.{codes}
use mdp2p.Bundle.Payload.{validate_bundle_payload, entries_of, or_value_error, is_markdown}
use mdp2p.Bundle.Paths.{Location, PathError, validate_path}
use mdp2p.Prelude.{
  Option, none, String, Bool, List, false, ℕ, if◌then◌else◌, some, ◌⊎◌, [], ◌∷◌, inl, ◌++◌, code,
  ◌&&◌, inr, not,
}
use mdp2p.Platform.{Platform}
use mdp2p.Py.Value.{
  null, str, obj, arr, nil, cons, end, field, bool, Value, item, Items, is_text, Fields, as_key,
  with_field,
}
use mdp2p.Py.Result.{Result, ok, raise, ◌>>=◌, type_error, library_error, value_error}
use mdp2p.Dict.{lookup, insert, Dict}

-- The directory of a site: manifest.json, manifest.sig, the other files by their paths, and what
-- attachments.json holds
pub record Site : Type 0 where
  pub manifest : Value
  pub signature : String
  pub files : Dict (List ℕ)
  pub attachments : Option Value

-- An output directory, and the two siblings that a write of it uses. The three have distinct names.
pub record Spot : Type 0 where
  pub current : Option Site
  pub staging : Option Site
  pub backup : Option Site

abbrev pub empty_spot : Spot
empty_spot = record { current = none; staging = none; backup = none }

-- The operations of a write that the disk may refuse. `write_staging` is all from the making of the
-- staging directory to the signature in it, a path that `validate_path` refuses there included.
pub data Operation : Type 0 where
  remove_staging write_staging : Operation
  remove_backup move_staging move_current move_backup : Operation

-- `write_text(signature)` takes a text only.
unfoldable pub text_of_signature : Value → Result String
text_of_signature (str s) = ok s
text_of_signature _ = raise type_error

-- What `dict_to_bundle` writes into the staging directory
unfoldable pub staged : Value → List (String × List ℕ) → Result Site
staged payload files = do
  manifest ← item payload "manifest"
  v ← item payload "signature"
  signature ← text_of_signature v
  ok record { manifest = manifest; signature = signature; files = files; attachments = none }

module _ (refuses : Operation → Bool) where
  -- `if d.exists(): shutil.rmtree(d)`, whether it raises
  unfoldable pub is_stuck : Operation → Option Site → Bool
  is_stuck op none = false
  is_stuck op (some stale) = refuses op

  -- `staging.rename(out)` where `out` was moved away, with its `except`
  unfoldable pub swap_in : Site → Site → Spot × Result (Unit {0})
  swap_in old new =
      if refuses move_staging
      then (
        if refuses move_backup
            then record { current = none; staging = some new; backup = some old }
            else record { current = some old; staging = some new; backup = none },
        raise library_error,
      )
      else (record { current = some new; staging = none; backup = none }, ok tt)

  unfoldable pub swap_onto : Option Site → Site → Spot → Spot × Result (Unit {0})
  swap_onto none new spot =
      if refuses move_staging
      then (record spot { staging = some new }, raise library_error)
      else (record spot { current = some new; staging = none }, ok tt)
  swap_onto (some old) new spot =
      if is_stuck remove_backup spot.backup
      then (record spot { staging = some new }, raise library_error)
      else if refuses move_current
      then (record { current = some old; staging = some new; backup = none }, raise library_error)
      else swap_in old new

  -- `_swap_into_place(staging, out)`
  unfoldable pub swap_into_place : Site → Spot → Spot × Result (Unit {0})
  swap_into_place new spot = swap_onto spot.current new spot

  -- `except BaseException: shutil.rmtree(staging); raise`
  unfoldable pub drop_staging : Spot × Result (Unit {0}) → Spot × Result (Unit {0})
  drop_staging (spot, ok done) = (spot, ok done)
  drop_staging (spot, raise x) = (record spot { staging = none }, raise x)

  unfoldable pub write_site : Result Site → Spot → Spot × Result (Unit {0})
  write_site (raise x) spot = (record spot { staging = none }, raise x)
  write_site (ok new) spot =
      if refuses write_staging
      then (record spot { staging = none }, raise library_error)
      else drop_staging (swap_into_place new spot)

  unfoldable pub write_validated :
      Value → Result (List (String × List ℕ)) → Spot → Spot × Result (Unit {0})
  write_validated payload (raise x) spot = (spot, raise x)
  write_validated payload (ok files) spot =
      if is_stuck remove_staging spot.staging
      then (spot, raise library_error)
      else write_site (staged payload files) spot

  -- `dict_to_bundle(data, output_dir)`
  unfoldable pub dict_to_bundle :
      Platform → (Location → Location) → Location → Value → Spot → Spot × Result (Unit {0})
  dict_to_bundle p resolve out payload spot =
      write_validated payload (validate_bundle_payload p resolve out payload) spot

-- The errors of `verify_files`
pub data FileError : Type 0 where
  invalid_path missing corrupted unauthorized : String → FileError

unfoldable pub compare_hash : Platform → String → List ℕ → Value → Option FileError
compare_hash p path raw hash =
    if is_text hash (p.sha256_hex raw) then none else some (corrupted path)

module _ (p : Platform) (resolve : Location → Location) (out : Location)
    (files : Dict (List ℕ)) where
  unfoldable pub check_there : Value → String → Option (List ℕ) → Result (Option FileError)
  check_there entry path none = ok (some (missing path))
  check_there entry path (some raw) = do hash ← item entry "hash"; ok (compare_hash p path raw hash)

  unfoldable pub check_listed : Value → String → PathError ⊎ Location → Result (Option FileError)
  check_listed entry path (inl e) = ok (some (invalid_path path))
  check_listed entry path (inr place) = check_there entry path (lookup path files)

  -- One turn of the first loop: the path of the entry, and what is wrong with it
  unfoldable pub check_entry_file : Value → Result (String × Option FileError)
  check_entry_file entry = do
    v ← item entry "path"
    path ← as_key v
    e ← check_listed entry path (validate_path resolve out (codes path))
    ok (path, e)

  unfoldable pub add_error : Option FileError → List FileError → List FileError
  add_error none es = es
  add_error (some e) es = e ∷ es

  -- The first loop: the paths of the manifest, and the errors
  unfoldable pub check_entries : Items → Result (List String × List FileError)
  check_entries nil = ok ([], [])
  check_entries (cons entry entries) = do
    one ← check_entry_file entry
    rest ← check_entries entries
    ok (one.0 ∷ rest.0, add_error one.1 rest.1)

  -- The second loop: the .md files that the manifest does not list
  unfoldable pub unlisted : List String → Dict (List ℕ) → List FileError
  unlisted paths [] = []
  unlisted paths ((path, raw) ∷ rest) =
      let others = unlisted paths rest in
      if is_markdown path && not (mem_text path paths) then unauthorized path ∷ others else others

  -- `verify_files(manifest, site_dir)`
  unfoldable pub verify_files : Value → Result (List FileError)
  verify_files manifest = do
    listed ← item manifest "files"
    entries ← entries_of listed
    checked ← check_entries entries
    ok (checked.1 ++ unlisted checked.0 files)

  -- The loop of `bundle_to_dict`; `decode` is that of UTF-8.
  unfoldable pub read_files : (List ℕ → Option String) → Items → Fields → Result Fields
  read_files decode nil found = ok found
  read_files decode (cons entry entries) found = do
    v ← item entry "path"
    path ← as_key v
    place ← or_value_error (validate_path resolve out (codes path))
    raw ← elim (lookup path files) [ none ↦ raise library_error | some raw ↦ ok raw ]
    content ← elim (decode raw) [ none ↦ raise value_error | some s ↦ ok s ]
    read_files decode entries (with_field found path (str content))

-- `bundle_to_dict(site_dir)`
unfoldable pub bundle_to_dict :
    Platform → (Location → Location) → Location → (List ℕ → Option String) → Site → Result Fields
bundle_to_dict p resolve out decode site = do
  listed ← item site.manifest "files"
  entries ← entries_of listed
  files ← read_files p resolve out site.files decode entries end
  ok (
      field "manifest" site.manifest
        (field "signature" (str site.signature) (field "files" (obj files) end)))
