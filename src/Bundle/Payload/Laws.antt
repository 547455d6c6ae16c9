-- ===== src/Bundle/Payload/Laws.antt =====
-- What a bundle that `validate_bundle_payload` of bundle/serialization.py lets through is.
use mdp2p.Py.Result.{Exc, >>=-eq-ok, ok_injective, >>-eq-ok}
use mdp2p.Bundle.Paths.{Location, PathError, validate_path}
use mdp2p.Platform.{Platform}
use mdp2p.Py.Value.{is_text, Fields, end, null}
use mdp2p.Bundle.Payload.{
  all_present, matches_hash, or_value_error, check_counts, check_hashes, gather,
  validate_bundle_payload, check_names, Dict, Value, utf8_length, item, Result, field, ok, is_there,
  str, files_of, get, codes, text_of, max_bundle_files, max_bundle_total_size, is_markdown, raise,
  lookup, len, get_attr, Items, entries_of, int, pos, expected_of, greater, all_expected,
}
use mdp2p.Prelude.{
  ◌&&◌, [], ◌∷◌, true, false, List, String, Bool, Option, ℕ, ◌≡◌, ◌⊎◌, some, ◌≤◌, arith, ap,
  if◌then◌else◌, ◌+◌, refl, inr, not, inl, eq_iff, ltb, none, subst,
}

-- One file of the bundle: its path is accepted below the output directory and ends in ".md", and the
-- manifest lists it with the SHA-256 of its contents.
pub record IsListed (p : Platform) (resolve : Location → Location) (out : Location)
    (expected : Dict Value) (path : String) (raw : List ℕ) : Type 0 where
  pub place : Location
  pub accepted : validate_path resolve out (codes path) ≡ inr place
  pub markdown : is_markdown path ≡ true
  pub hash : lookup path expected ≡ some (str (p.sha256_hex raw))

abbrev pub AllListed : (String → List ℕ → Type 0) → List (String × List ℕ) → Type 0
AllListed P [] = Unit
AllListed P ((path, raw) ∷ files) = P path raw × AllListed P files

-- The files of the bundle are texts, in order, and nothing else.
abbrev pub SameFiles : Fields → List (String × List ℕ) → Type 0
SameFiles end [] = Unit
SameFiles end (f ∷ files) = ⊥
SameFiles (field path content rest) [] = ⊥
SameFiles (field path content rest) ((path', raw) ∷ files) =
    (path ≡ path') × (text_of content ≡ ok raw) × SameFiles rest files

abbrev pub total_size : List (String × List ℕ) → ℕ
total_size [] = 0
total_size ((path, raw) ∷ files) = utf8_length raw + total_size files

-- Each path of the manifest is a file of the bundle.
abbrev pub AllPresent : Fields → Dict Value → Type 0
AllPresent files [] = Unit
AllPresent files ((path, hash) ∷ expected) =
    (is_there (get files path) ≡ true) × AllPresent files expected

unless :
    {A : Type 0} (b : Bool) (x : Exc) (next : Result A) {a : A}
    → (if b then raise x else next) ≡ ok a
    → (b ≡ false) × (next ≡ ok a)
unless true x next h = absurd (ground (arith, h))
unless false x next h = (refl, h)

when :
    {A : Type 0} (b : Bool) (x : Exc) (next : Result A) {a : A}
    → (if not b then raise x else next) ≡ ok a
    → (b ≡ true) × (next ≡ ok a)
when true x next h = (refl, h)
when false x next h = absurd (ground (arith, h))

accepted-or_value_error :
    (r : PathError ⊎ Location) (l : Location) → or_value_error r ≡ ok l → r ≡ inr l
unfolding or_value_error
accepted-or_value_error (inl e) l h = cc
accepted-or_value_error (inr m) l h = ap inr (ok_injective m l h)

IsAccepted : (Location → Location) → Location → String → List ℕ → Type 0
IsAccepted resolve out path raw = (l : Location) × (validate_path resolve out (codes path) ≡ inr l)

gather→ :
    (resolve : Location → Location) (out : Location) (fs : Fields) (total : ℕ)
    (files : List (String × List ℕ))
    → total ≤ max_bundle_total_size
    → gather resolve out fs total ≡ ok files
    → SameFiles fs files
      × AllListed (IsAccepted resolve out) files
      × (total + total_size files ≤ max_bundle_total_size)
unfolding gather IsAccepted
gather→ resolve out end total [] small h = (tt, tt, omega (arith, small))
gather→ resolve out end total (f ∷ files) small h = cc
gather→ resolve out (field path content rest) total files small h =
    let (raw, is_text, h₁) = >>=-eq-ok (text_of content) _ h in
    let (place, accepted, h₂) =
      >>=-eq-ok (or_value_error (validate_path resolve out (codes path))) _ h₁ in
    let (fits, h₃) = unless (ltb max_bundle_total_size (total + utf8_length raw)) _ _ h₂ in
    let (more, gathered, h₄) = >>=-eq-ok (gather resolve out rest (total + utf8_length raw)) _ h₃ in
    let (same, listed, sum) =
      gather→ resolve out rest (total + utf8_length raw) more (ground (arith, fits)) gathered in
    subst
      (λ l.
        SameFiles (field path content rest) l
        × AllListed (IsAccepted resolve out) l
        × (total + total_size l ≤ max_bundle_total_size))
      (ok_injective _ files h₄)
      (
        (refl, is_text, same),
        ((place, accepted-or_value_error _ place accepted), listed),
        omega (arith, sum),
      )

text_at : (v : Value) (s : String) → is_text v s ≡ true → v ≡ str s
unfolding is_text
text_at (str t) s h = ap str ((eq_iff t s).0 h)
text_at null s h = cc
text_at _ s h = cc

hash_at : (o : Option Value) (s : String) → matches_hash o s ≡ true → o ≡ some (str s)
unfolding matches_hash
hash_at none s h = cc
hash_at (some v) s h = ap some (text_at v s h)

check_hashes→ :
    (p : Platform) (resolve : Location → Location) (out : Location) (expected : Dict Value)
    (files : List (String × List ℕ))
    → AllListed (IsAccepted resolve out) files
    → check_hashes p expected files ≡ ok tt
    → AllListed (IsListed p resolve out expected) files
unfolding check_hashes IsAccepted
check_hashes→ p resolve out expected [] a h = tt
check_hashes→ p resolve out expected ((path, raw) ∷ files) a h =
    let (markdown, h₁) = when (is_markdown path) _ _ h in
    let (hash, h₂) = when (matches_hash (lookup path expected) (p.sha256_hex raw)) _ _ h₁ in
    (
      record {
        place = a.0.0;
        accepted = a.0.1;
        markdown = markdown;
        hash = hash_at (lookup path expected) (p.sha256_hex raw) hash;
      },
      check_hashes→ p resolve out expected files a.1 h₂,
    )

all_present→ :
    (files : Fields) (expected : Dict Value)
    → all_present files expected ≡ true
    → AllPresent files expected
unfolding all_present
all_present→ files [] h = tt
all_present→ files ((path, hash) ∷ expected) h =
    (ground (arith, h), all_present→ files expected (ground (arith, h)))

named : (b : Bool) → check_names b ≡ ok tt → b ≡ true
unfolding check_names
named true h = refl
named false h = cc

counted : (b : Bool) (n : ℕ) → check_counts b n ≡ ok tt → n ≤ max_bundle_files
unfolding check_counts
counted b n h = ground (arith, h)

and-right : (a b : Bool) → (a && b) ≡ true → b ≡ true
and-right true b h = h
and-right false b h = cc

-- What has been let through
pub record IsBundle (p : Platform) (resolve : Location → Location) (out : Location)
    (payload : Value) (files : List (String × List ℕ)) : Type 0 where
  pub manifest : Value
  pub manifest_at : item payload "manifest" ≡ ok manifest
  pub contents : Value
  pub contents_at : item payload "files" ≡ ok contents
  pub fields : Fields
  pub fields_of : files_of contents ≡ ok fields
  pub same : SameFiles fields files
  pub count : ℕ
  pub counted_by : len contents ≡ ok count
  pub few : count ≤ max_bundle_files
  pub small : total_size files ≤ max_bundle_total_size
  pub listed : Value
  pub listed_at : item manifest "files" ≡ ok listed
  pub entries : Items
  pub entries_in : entries_of listed ≡ ok entries
  pub expected : Dict Value
  pub expected_by : expected_of entries [] ≡ ok expected
  pub all_listed : AllListed (IsListed p resolve out expected) files
  pub all_there : AllPresent fields expected

-- A bundle that `validate_bundle_payload` returns is the bundle that its manifest describes: the result
-- holds the texts of its files in order, at most 1000 files and 50 MiB of UTF-8; each path is accepted
-- below the output directory, ends in ".md" and is listed with the SHA-256 of the contents; and each
-- path that the manifest lists is there.
pub validate_bundle_payload-IsBundle :
    (p : Platform) (resolve : Location → Location) (out : Location) (payload : Value)
    (files : List (String × List ℕ))
    → validate_bundle_payload p resolve out payload ≡ ok files
    → IsBundle p resolve out payload files
unfolding validate_bundle_payload
validate_bundle_payload-IsBundle p resolve out payload files h =
    let (manifest, manifest_at, h₁) = >>=-eq-ok (item payload "manifest") _ h in
    let (contents, contents_at, h₂) = >>=-eq-ok (item payload "files") _ h₁ in
    let (n, counted_by, h₃) = >>=-eq-ok (len contents) _ h₂ in
    let (file_count, count_at, h₄) =
      >>=-eq-ok (get_attr manifest "file_count" (int (pos n))) _ h₃ in
    let (too_many, compared, h₅) = >>=-eq-ok (greater p file_count max_bundle_files) _ h₄ in
    let (few, h₆) = >>-eq-ok (check_counts too_many n) _ h₅ in
    let (fields, fields_of, h₇) = >>=-eq-ok (files_of contents) _ h₆ in
    let (gathered, got, h₈) = >>=-eq-ok (gather resolve out fields 0) _ h₇ in
    let (listed, listed_at, h₉) = >>=-eq-ok (item manifest "files") _ h₈ in
    let (entries, entries_in, h₁₀) = >>=-eq-ok (entries_of listed) _ h₉ in
    let (expected, expected_by, h₁₁) = >>=-eq-ok (expected_of entries []) _ h₁₀ in
    let (names_ok, h₁₂) =
      >>-eq-ok (check_names (all_expected expected gathered && all_present fields expected)) _
        h₁₁ in
    let (hashes_ok, h₁₃) = >>-eq-ok (check_hashes p expected gathered) _ h₁₂ in
    let (same, accepted, sum) = gather→ resolve out fields 0 gathered (omega arith) got in
    let both = named (all_expected expected gathered && all_present fields expected) names_ok in
    subst (IsBundle p resolve out payload) (ok_injective _ files h₁₃) (record {
      manifest = manifest;
      manifest_at = manifest_at;
      contents = contents;
      contents_at = contents_at;
      fields = fields;
      fields_of = fields_of;
      same = same;
      count = n;
      counted_by = counted_by;
      few = counted too_many n few;
      small = omega (arith, sum);
      listed = listed;
      listed_at = listed_at;
      entries = entries;
      entries_in = entries_in;
      expected = expected;
      expected_by = expected_by;
      all_listed = check_hashes→ p resolve out expected gathered accepted hashes_ok;
      all_there = all_present→ fields expected (and-right _ _ both);
    })
