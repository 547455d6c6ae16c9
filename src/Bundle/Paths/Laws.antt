-- ===== src/Bundle/Paths/Laws.antt =====
-- What the two validators of bundle/paths.py let through.
use mdp2p.Prelude.{
  ℕ, ◌≤◌, String, ◌==◌, ◌≡◌, refl, true, false, ◌⊎◌, inl, inr, ◌↔◌, List, [], ◌∷◌, length, none,
  arith, eqb, Bool-cases, Option-cases, eq_iff, subst, ap, sym,
}
use mdp2p.Py.Text.{codes}
use mdp2p.Py.Value.{Value, null, str}
use mdp2p.Bundle.Paths.{
  has_char, has_dots, is_dot, is_alnum, is_uri_char, all_uri_chars, matches_uri, check_uri,
  validate_uri, max_uri_length,
}

-- [a-zA-Z0-9] and [a-zA-Z0-9._-] as predicates
abbrev pub IsAlnum : ℕ → Type 0
IsAlnum c = ((b'a' ≤ c) × (c ≤ b'z')) ⊎ ((b'A' ≤ c) × (c ≤ b'Z')) ⊎ ((b'0' ≤ c) × (c ≤ b'9'))

abbrev pub IsUriChar : ℕ → Type 0
IsUriChar c = IsAlnum c ⊎ (c ≡ b'.') ⊎ (c ≡ b'_') ⊎ (c ≡ b'-')

abbrev pub AllUriChars : List ℕ → Type 0
AllUriChars [] = Unit
AllUriChars (c ∷ cs) = IsUriChar c × AllUriChars cs

abbrev pub NoDots : List ℕ → Type 0
NoDots [] = Unit
NoDots (c ∷ []) = Unit
NoDots (c ∷ d ∷ cs) = (c ≡ b'.' → d ≡ b'.' → ⊥) × NoDots (d ∷ cs)

-- The addresses that bundle/paths.py means to accept.
abbrev pub IsAddress : List ℕ → Type 0
IsAddress [] = ⊥
IsAddress (c ∷ cs) =
    IsAlnum c × AllUriChars cs × NoDots (c ∷ cs) × (length (c ∷ cs) ≤ max_uri_length)

is_alnum→IsAlnum : (c : ℕ) → is_alnum c ≡ true → IsAlnum c
unfolding is_alnum
is_alnum→IsAlnum c h = ground arith

is_uri_char→IsUriChar : (c : ℕ) → is_uri_char c ≡ true → IsUriChar c
unfolding is_uri_char
is_uri_char→IsUriChar c h = ground arith

IsAlnum→is_alnum : (c : ℕ) → IsAlnum c → is_alnum c ≡ true
unfolding is_alnum
IsAlnum→is_alnum c h = ground arith

IsUriChar→is_uri_char : (c : ℕ) → IsUriChar c → is_uri_char c ≡ true
unfolding is_uri_char
IsUriChar→is_uri_char c h = ground arith

all_uri_chars→ : (cs : List ℕ) → all_uri_chars cs ≡ true → AllUriChars cs
unfolding all_uri_chars
all_uri_chars→ [] h = tt
all_uri_chars→ (c ∷ cs) h =
    (is_uri_char→IsUriChar c (ground arith), all_uri_chars→ cs (ground arith))

→all_uri_chars : (cs : List ℕ) → AllUriChars cs → all_uri_chars cs ≡ true
unfolding all_uri_chars
→all_uri_chars [] h = refl
→all_uri_chars (c ∷ cs) h = ground (arith, IsUriChar→is_uri_char c h.0, →all_uri_chars cs h.1)

has_dots→ : (cs : List ℕ) → has_dots cs ≡ false → NoDots cs
unfolding has_dots
has_dots→ [] h = tt
has_dots→ (c ∷ []) h = tt
has_dots→ (c ∷ d ∷ cs) h = (λ p q. ground arith, has_dots→ (d ∷ cs) (ground arith))

→has_dots : (cs : List ℕ) → NoDots cs → has_dots cs ≡ false
unfolding has_dots
→has_dots [] h = refl
→has_dots (c ∷ []) h = refl
→has_dots (c ∷ d ∷ cs) h = ground (arith, →has_dots (d ∷ cs) h.1)

-- The class leaves no room for a separator.
AllUriChars-has_char :
    (c : ℕ) (cs : List ℕ) → ¬ IsUriChar c → AllUriChars cs → has_char c cs ≡ false
unfolding has_char
AllUriChars-has_char c [] out h = refl
AllUriChars-has_char c (x ∷ cs) out h = elim (Bool-cases (eqb x c)) [
  | inl same ↦ absurd (out (let e : x ≡ c = ground arith in subst IsUriChar e h.0))
  | inr other ↦ rw (other, AllUriChars-has_char c cs out h.1)
]

alnum-is_dot : (c : ℕ) (cs : List ℕ) → IsAlnum c → is_dot (c ∷ cs) ≡ false
unfolding is_dot
alnum-is_dot c [] h = ground arith
alnum-is_dot c (d ∷ cs) h = refl

IsAddress→check_uri : (cs : List ℕ) → IsAddress cs → check_uri cs ≡ none
unfolding check_uri matches_uri is_dot
IsAddress→check_uri [] h = absurd h
IsAddress→check_uri (c ∷ cs) h =
    let all : AllUriChars (c ∷ cs) = (inl h.0, h.1) in
    ground (
      arith,
      IsAlnum→is_alnum c h.0,
      →all_uri_chars cs h.1,
      →has_dots (c ∷ cs) h.2,
      AllUriChars-has_char b'/' (c ∷ cs) (omega arith) all,
      AllUriChars-has_char b'\\' (c ∷ cs) (omega arith) all,
      AllUriChars-has_char 0 (c ∷ cs) (omega arith) all,
      alnum-is_dot c cs h.0,
    )

check_uri→IsAddress : (cs : List ℕ) → check_uri cs ≡ none → IsAddress cs
unfolding check_uri matches_uri
check_uri→IsAddress [] h = ground arith
check_uri→IsAddress (c ∷ cs) h = (
  is_alnum→IsAlnum c (ground arith),
  all_uri_chars→ cs (ground arith),
  has_dots→ (c ∷ cs) (ground arith),
  ground arith,
)

accepted→ : (v : Value) (s : String) → validate_uri v ≡ inr s → (v ≡ str s) × IsAddress (codes s)
unfolding validate_uri
accepted→ (str t) s h = elim (Option-cases (check_uri (codes t))) [
  | inl passed ↦
      let e : t ≡ s = ground arith in
      (ap str e, subst (λ u. IsAddress (codes u)) e (check_uri→IsAddress (codes t) passed))
  | inr (e, failed) ↦ absurd (ground arith)
]
accepted→ null s h = cc
accepted→ _ s h = cc

IsAddress-empty : (s : String) → IsAddress (codes s) → (s == "") ≡ false
IsAddress-empty s h = elim (Bool-cases (s == "")) [
  | inl empty ↦
      absurd (unfold codes in (subst (λ u. IsAddress (codes u)) ((eq_iff s "").0 empty) h))
  | inr full ↦ full
]

→accepted : (s : String) → IsAddress (codes s) → validate_uri (str s) ≡ inr s
unfolding validate_uri
→accepted s h = rw (IsAddress-empty s h, IsAddress→check_uri (codes s) h)

-- `validate_uri` accepts exactly the texts that begin with a letter or digit, go on with letters,
-- digits, ".", "_" and "-", hold no ".." and have at most 255 characters, and returns the text as it
-- came.
pub validate_uri_iff :
    (v : Value) (s : String) → (validate_uri v ≡ inr s) ↔ ((v ≡ str s) × IsAddress (codes s))
validate_uri_iff v s =
    (accepted→ v s, λ h. subst (λ u. validate_uri u ≡ inr s) (sym h.0) (→accepted s h.1))
