-- ===== src/Bundle/Payload.antt =====
-- `validate_bundle_payload` of bundle/serialization.py: a bundle that came over the network, checked in
-- memory. The file system's `resolve` and the output directory are arguments. The exceptions are those
-- of Python up to their class where an entry's path is a number.
pub mod Laws
use mdp2p.Bundle.Manifest.{max_bundle_total_size, max_bundle_files}
use mdp2p.Prelude.Int.{ltb_ℤ, pos}
use mdp2p.Py.Text.{codes_eqb, codes}
use mdp2p.Py.Result.{◌>>◌, Result, ◌>>=◌, ok, raise, type_error, attribute_error, value_error}
use mdp2p.Dict.{Dict, has, insert, lookup}
use mdp2p.Bundle.Paths.{Location, PathError, validate_path}
use mdp2p.Platform.{Platform}
use mdp2p.Prelude.{
  Option, List, String, Bool, ℕ, ◌∷◌, true, false, ◌⊎◌, if◌then◌else◌, inl, suc, drop, some, none,
  ltb, eqb, ◌&&◌, not, [], ◌||◌, length, ◌+◌, ◌-◌, inr,
}
use mdp2p.Py.Value.{
  Value, Fields, Items, cons, field, str, obj, arr, int, get, end, nil, is_text, item, as_key,
  get_attr, bool, float,
}

-- `len(v)`
unfoldable pub count_items : Items → ℕ
count_items nil = 0
count_items (cons x xs) = suc (count_items xs)

unfoldable pub count_fields : Fields → ℕ
count_fields end = 0
count_fields (field k v fs) = suc (count_fields fs)

unfoldable pub len : Value → Result ℕ
len (arr xs) = ok (count_items xs)
len (str s) = ok (length (codes s))
len (obj fs) = ok (count_fields fs)
len _ = raise type_error

-- `v > n` for a number n
unfoldable pub greater : Platform → Value → ℕ → Result Bool
greater p (int z) n = ok (ltb_ℤ (pos n) z)
greater p (bool true) n = ok (ltb n 1)
greater p (bool false) n = ok false
greater p (float r t) n = ok (p.float_gt r n)
greater p _ n = raise type_error

-- `len(content.encode("utf-8"))`
unfoldable pub utf8_length : List ℕ → ℕ
utf8_length [] = 0
utf8_length (c ∷ cs) =
    let rest = utf8_length cs in
    (if ltb c 128 then 1 else if ltb c 2048 then 2 else if ltb c 65536 then 3 else 4) + rest

-- `isinstance(content, str)`, and its characters
unfoldable pub text_of : Value → Result (List ℕ)
text_of (str s) = ok (codes s)
text_of _ = raise value_error

unfoldable pub or_value_error : PathError ⊎ Location → Result Location
or_value_error (inl e) = raise value_error
or_value_error (inr l) = ok l

-- The loop over `files_data.items()`, with the size of the files before
unfoldable pub gather :
    (Location → Location) → Location → Fields → ℕ → Result (List (String × List ℕ))
gather resolve out end total = ok []
gather resolve out (field path content rest) total = do
  raw ← text_of content
  place ← or_value_error (validate_path resolve out (codes path))
  let size = total + utf8_length raw
  let others = gather resolve out rest size
  if ltb max_bundle_total_size size
      then raise value_error
      else do more ← others; ok ((path, raw) ∷ more)

unfoldable pub entry_of : Value → Result (String × Value)
entry_of v = do path ← item v "path"; hash ← item v "hash"; key ← as_key path; ok (key, hash)

-- `{entry["path"]: entry["hash"] for entry in …}`
unfoldable pub expected_of : Items → Dict Value → Result (Dict Value)
expected_of nil d = ok d
expected_of (cons v vs) d = do e ← entry_of v; expected_of vs (insert e.0 e.1 d)

-- What `for entry in manifest["files"]` goes through: the keys of a dictionary and the characters of a
-- text are no entries.
unfoldable pub entries_of : Value → Result Items
entries_of (arr xs) = ok xs
entries_of (obj fs) = if eqb (count_fields fs) 0 then ok nil else raise type_error
entries_of (str s) = if eqb (length (codes s)) 0 then ok nil else raise type_error
entries_of _ = raise type_error

unfoldable pub all_expected : Dict Value → List (String × List ℕ) → Bool
all_expected expected [] = true
all_expected expected ((path, raw) ∷ files) = has path expected && all_expected expected files

unfoldable pub is_there : Option Value → Bool
is_there none = false
is_there (some v) = true

unfoldable pub all_present : Fields → Dict Value → Bool
all_present files [] = true
all_present files ((path, hash) ∷ expected) =
    is_there (get files path) && all_present files expected

-- `path.endswith(".md")`
unfoldable pub is_markdown : String → Bool
is_markdown path = codes_eqb (drop (length (codes path) - 3) (codes path)) (46 ∷ 109 ∷ 100 ∷ [])

unfoldable pub matches_hash : Option Value → String → Bool
matches_hash none digest = false
matches_hash (some v) digest = is_text v digest

-- The last loop: only .md files, each with the hash of the manifest
unfoldable pub check_hashes : Platform → Dict Value → List (String × List ℕ) → Result (Unit {0})
check_hashes p expected [] = ok tt
check_hashes p expected ((path, raw) ∷ files) =
    let rest = check_hashes p expected files in
    if not (is_markdown path)
    then raise value_error
    else if not (matches_hash (lookup path expected) (p.sha256_hex raw))
    then raise value_error
    else rest

unfoldable pub files_of : Value → Result Fields
files_of (obj fs) = ok fs
files_of _ = raise attribute_error

unfoldable pub check_counts : Bool → ℕ → Result (Unit {0})
check_counts too_many n = if too_many || ltb max_bundle_files n then raise value_error else ok tt

unfoldable pub check_names : Bool → Result (Unit {0})
check_names same = if same then ok tt else raise value_error

-- `validate_bundle_payload(data, output_dir)`
unfoldable pub validate_bundle_payload :
    Platform → (Location → Location) → Location → Value → Result (List (String × List ℕ))
validate_bundle_payload p resolve out payload = do
  manifest ← item payload "manifest"
  files_data ← item payload "files"
  n ← len files_data
  file_count ← get_attr manifest "file_count" (int (pos n))
  too_many ← greater p file_count max_bundle_files
  check_counts too_many n
  files ← files_of files_data
  gathered ← gather resolve out files 0
  listed ← item manifest "files"
  entries ← entries_of listed
  expected ← expected_of entries []
  check_names (all_expected expected gathered && all_present files expected)
  check_hashes p expected gathered
  ok gathered
