-- ===== src/Bundle/Manifest.antt =====
-- bundle/manifest.py: the content key of an address and its author, and manifests: create, sign,
-- verify.
pub mod Laws
use mdp2p.Review.Taxonomy.{validate_categories}
use mdp2p.Review.Taxonomy.{validate_categories}
use mdp2p.Bundle.Signed.{decode}
use mdp2p.Py.Result.{◌>>◌, Result, ok, ◌>>=◌, raise, type_error, value_error}
use mdp2p.Prelude.Int.{ℤ, ltb_ℤ, pos}
use Prim.Native.String.{◌++◌ as append}
use mdp2p.Prelude.{
  none, some, ℕ, String, true, false, List, ◌++◌, ◌∷◌, [], ◌+◌, Option, Bool, code, some,
  if◌then◌else◌, not, none, length, ltb, ◌||◌,
}
use mdp2p.Platform.{Platform}
use mdp2p.Py.Json.{write_int, canonical_json}
use mdp2p.Py.Text.{codes}
use mdp2p.Py.Value.{
  Value, null, bool, int, float, str, arr, obj, Fields, Items, with_field, nil, cons, field, get,
  end, is_text, get_or, texts,
}

-- `f"{v}"`
unfoldable pub format : Platform → Value → List ℕ
unfolding codes write_int
format p null = codes "None"
format p (bool true) = codes "True"
format p (bool false) = codes "False"
format p (int z) = write_int z
format p (float r t) = p.repr (float r t)
format p (str s) = codes s
format p (arr xs) = p.repr (arr xs)
format p (obj fs) = p.repr (obj fs)

-- `compute_content_key(uri, public_key_b64)`
unfoldable pub compute_content_key : Platform → Value → Value → String
unfolding format
compute_content_key p uri key =
    append "/mdp2p/" (p.sha256_hex (format p uri ++ (b':' ∷ format p key)))

-- `compute_manifest_ref(manifest)`
unfoldable pub compute_manifest_ref : Platform → Fields → String
compute_manifest_ref p manifest = p.sha256_hex (canonical_json manifest)

-- `now > expires_at`
unfoldable pub is_before : Platform → Value → ℤ → Result Bool
is_before p (int z) now = ok (ltb_ℤ z now)
is_before p (bool true) now = ok (ltb_ℤ (pos 1) now)
is_before p (bool false) now = ok (ltb_ℤ (pos 0) now)
is_before p (float r t) now = ok (p.float_lt r now)
is_before p _ now = raise type_error

unfoldable pub is_expired_at : Platform → ℤ → Option Value → Result Bool
is_expired_at p now none = ok false
is_expired_at p now (some null) = ok false
is_expired_at p now (some v) = is_before p v now

-- `is_manifest_expired(manifest)`
unfoldable pub is_manifest_expired : Platform → ℤ → Fields → Result Bool
is_manifest_expired p now manifest = is_expired_at p now (get manifest "expires_at")

-- `sign_manifest(manifest, private_key)`
unfoldable pub sign_manifest : (p : Platform) → Fields → p.PrivateKey → Fields × String
sign_manifest p manifest key =
    let signed = with_field manifest "public_key" (str (p.public_key_to_b64 (p.public_key key))) in
    (signed, p.b64encode (p.sign key (canonical_json signed)))

-- `verify_manifest(manifest, signature_b64, trusted_public_key)`
unfoldable pub verify_manifest : (p : Platform) → Fields → Value → p.PublicKey → Result Bool
verify_manifest p manifest signature key =
    let checked : Result Bool = (do
      bytes ← decode p signature
      ok (p.verify key bytes (canonical_json manifest))) in
    if not (is_text (get_or manifest "public_key" (str "")) (p.public_key_to_b64 key))
    then ok false
    else checked

-- A file of the site as the scan finds it: path, SHA-256 and size
pub record SiteFile : Type 0 where
  pub path : String
  pub hash : String
  pub size : ℕ

unfoldable pub listing : List SiteFile → Items
listing [] = nil
listing (f ∷ fs) =
    cons
      (obj (
        field "path" (str f.path)
          (field "hash" (str f.hash) (field "size" (int (pos f.size)) end))))
      (listing fs)

unfoldable pub sum_sizes : List SiteFile → ℕ
sum_sizes [] = 0
sum_sizes (f ∷ fs) = f.size + sum_sizes fs

abbrev pub max_bundle_files : ℕ
max_bundle_files = 1000

abbrev pub max_bundle_total_size : ℕ
max_bundle_total_size = 52428800

-- `list(categories) if categories else ["other"]`
unfoldable pub categories_or_other : List String → List String
categories_or_other [] = "other" ∷ []
categories_or_other (c ∷ cs) = c ∷ cs

-- `create_manifest(site_dir, uri, author, version, ttl, categories)`: the sorted scan of the directory
-- is an argument.
unfoldable pub create_manifest :
    List SiteFile → String → String → ℤ → ℕ → List String → ℕ → Result Fields
create_manifest files uri author version ttl categories now = do
  validate_categories (categories_or_other categories)
  let manifest = field "uri" (str uri) (
      field "author" (str author) (
        field "version" (int version) (
          field "timestamp" (int (pos now)) (
            field "expires_at" (int (pos (now + ttl))) (
              field "categories" (arr (texts (categories_or_other categories))) (
                field "files" (arr (listing files)) (
                  field "total_size" (int (pos (sum_sizes files)))
                    (field "file_count" (int (pos (length files))) end))))))))
  if ltb max_bundle_files (length files) || ltb max_bundle_total_size (sum_sizes files)
      then raise value_error
      else ok manifest
