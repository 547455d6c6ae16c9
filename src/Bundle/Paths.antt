-- ===== src/Bundle/Paths.antt =====
-- bundle/paths.py: which addresses and which file paths are accepted.
pub mod Laws
pub mod Files
use mdp2p.Prelude.{
  ℕ, String, ◌==◌, Bool, true, false, not, ◌&&◌, ◌||◌, ◌⊎◌, inl, inr, List, [], ◌∷◌, ◌++◌, length,
  Option, none, some, leb, ltb, eqb, if◌then◌else◌,
}
use mdp2p.Py.Text.{codes, codes_eqb}
use mdp2p.Py.Value.{Value, str}

-- The texts of the `ValueError`s.
pub data UriError : Type 0 where
  not_a_text too_long forbidden traversal invalid_characters : UriError

abbrev pub max_uri_length : ℕ
max_uri_length = 255

-- `c in s` for one character
unfoldable pub has_char : ℕ → List ℕ → Bool
has_char c [] = false
has_char c (x ∷ xs) = eqb x c || has_char c xs

-- `".." in s`
unfoldable pub has_dots : List ℕ → Bool
has_dots [] = false
has_dots (x ∷ []) = false
has_dots (x ∷ y ∷ rest) = eqb x b'.' && eqb y b'.' || has_dots (y ∷ rest)

-- `s == "."`
unfoldable pub is_dot : List ℕ → Bool
is_dot [] = false
is_dot (c ∷ []) = eqb c b'.'
is_dot (c ∷ d ∷ cs) = false

-- [a-zA-Z0-9]
unfoldable pub is_alnum : ℕ → Bool
is_alnum c = leb b'a' c && leb c b'z' || leb b'A' c && leb c b'Z' || leb b'0' c && leb c b'9'

-- [a-zA-Z0-9._-]
unfoldable pub is_uri_char : ℕ → Bool
unfolding is_alnum
is_uri_char c = is_alnum c || eqb c b'.' || eqb c b'_' || eqb c b'-'

unfoldable pub all_uri_chars : List ℕ → Bool
all_uri_chars [] = true
all_uri_chars (c ∷ cs) = is_uri_char c && all_uri_chars cs

-- `_VALID_URI_RE.fullmatch(uri)`
unfoldable pub matches_uri : List ℕ → Bool
matches_uri [] = false
matches_uri (c ∷ cs) = is_alnum c && all_uri_chars cs

-- The checks after the one for a non-empty text, in the order of the source; none when they pass.
unfoldable pub check_uri : List ℕ → Option UriError
check_uri cs =
    if ltb max_uri_length (length cs)
    then some too_long
    else if has_char b'/' cs || has_char b'\\' cs || has_char 0 cs
    then some forbidden
    else if is_dot cs || has_dots cs
    then some traversal
    else if matches_uri cs
    then none
    else some invalid_characters

-- `validate_uri(uri)`: the text, or the error that is raised.
unfoldable pub validate_uri : Value → UriError ⊎ String
unfolding check_uri
validate_uri (str s) =
    if s == "" then inl not_a_text else elim (check_uri (codes s)) [ none ↦ inr s | some e ↦ inl e ]
validate_uri _ = inl not_a_text

pub data PathError : Type 0 where
  forbidden_character not_normalized traversal_detected is_base too_deep : PathError

abbrev pub max_path_depth : ℕ
max_path_depth = 10

-- one more character at the front of the first piece
unfoldable pub push : ℕ → List (List ℕ) → List (List ℕ)
push c [] = (c ∷ []) ∷ []
push c (piece ∷ pieces) = (c ∷ piece) ∷ pieces

-- `s.split(sep)`
unfoldable pub split : ℕ → List ℕ → List (List ℕ)
unfolding push
split sep [] = [] ∷ []
split sep (c ∷ cs) = if eqb c sep then [] ∷ split sep cs else push c (split sep cs)

-- `seg in ("", ".", "..")`
unfoldable pub is_dotted : List ℕ → Bool
is_dotted [] = true
is_dotted (c ∷ []) = eqb c b'.'
is_dotted (c ∷ d ∷ []) = eqb c b'.' && eqb d b'.'
is_dotted (c ∷ d ∷ e ∷ cs) = false

unfoldable pub any_dotted : List (List ℕ) → Bool
unfolding is_dotted
any_dotted [] = false
any_dotted (seg ∷ segs) = is_dotted seg || any_dotted segs

-- A path of the file system, as its segments below the root.
abbrev pub Location : Type 0
Location = List (List ℕ)

-- `p.is_relative_to(base)`
unfoldable pub is_relative_to : Location → Location → Bool
unfolding codes_eqb
is_relative_to p [] = true
is_relative_to [] (y ∷ ys) = false
is_relative_to (x ∷ xs) (y ∷ ys) = codes_eqb x y && is_relative_to xs ys

-- `validate_path(base_dir, relative_path)`. `resolve` is `Path.resolve`, which follows the links of
-- the file system. A path that is normalized has its segments for parts.
unfoldable pub validate_path : (Location → Location) → Location → List ℕ → PathError ⊎ Location
unfolding any_dotted split is_relative_to
validate_path resolve base relative =
    let segments = split b'/' relative in
    let resolved = resolve (base ++ segments) in
    let base_resolved = resolve base in
    if has_char b'\\' relative || has_char 0 relative
    then inl forbidden_character
    else if any_dotted segments
    then inl not_normalized
    else if not (is_relative_to resolved base_resolved)
    then inl traversal_detected
    else if eqb (length resolved) (length base_resolved)
    then inl is_base
    else if ltb max_path_depth (length segments)
    then inl too_deep
    else inr resolved
