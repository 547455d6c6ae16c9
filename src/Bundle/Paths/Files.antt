-- ===== src/Bundle/Paths/Files.antt =====
-- What `validate_path` lets through: where an accepted path lies, and that no two name one file.
use mathlib.Core.List.{append_cancel_left}
use mdp2p.Prelude.{
  ℕ, ◌≢◌, ◌≤◌, ◌<◌, ◌≡◌, refl, ap, ap₂, sym, ◌∙◌, true, false, inl, inr, List, [], ◌∷◌, ◌++◌,
  length, arith, eqb, Bool-cases, length-append,
}
use mdp2p.Py.Text.{codes_eqb→}
use mdp2p.Bundle.Paths.{
  has_char, push, split, any_dotted, Location, is_relative_to, validate_path, max_path_depth,
}

-- `sep.join(pieces)`
join : ℕ → List (List ℕ) → List ℕ
join sep [] = []
join sep (piece ∷ []) = piece
join sep (piece ∷ next ∷ pieces) = piece ++ (sep ∷ join sep (next ∷ pieces))

push-ne-nil : (c : ℕ) (ps : List (List ℕ)) → push c ps ≢ []
unfolding push
push-ne-nil c [] h = cc
push-ne-nil c (p ∷ ps) h = cc

split-ne-nil : (sep : ℕ) (s : List ℕ) → split sep s ≢ []
unfolding split
split-ne-nil sep [] h = cc
split-ne-nil sep (c ∷ s) h = elim (Bool-cases (eqb c sep)) [
  | inl here ↦ ground arith
  | inr there ↦ push-ne-nil c (split sep s) (ground arith)
]

join-push : (sep c : ℕ) (ps : List (List ℕ)) → join sep (push c ps) ≡ c ∷ join sep ps
unfolding join push
join-push sep c [] = refl
join-push sep c (p ∷ []) = refl
join-push sep c (p ∷ q ∷ ps) = refl

join-nil : (sep : ℕ) (ps : List (List ℕ)) → ps ≢ [] → join sep ([] ∷ ps) ≡ sep ∷ join sep ps
unfolding join
join-nil sep [] h = absurd (h refl)
join-nil sep (p ∷ ps) h = refl

-- Joining the pieces gives the text back.
join-split : (sep : ℕ) (s : List ℕ) → join sep (split sep s) ≡ s
unfolding split join
join-split sep [] = refl
join-split sep (c ∷ s) = elim (Bool-cases (eqb c sep)) [
  | inl here ↦ rw here (
      join-nil sep (split sep s) (split-ne-nil sep s)
      ∙ ap₂ ◌∷◌ (let e : sep ≡ c = ground arith in e) (join-split sep s))
  | inr there ↦ rw there (join-push sep c (split sep s) ∙ ap (◌∷◌ c) (join-split sep s))
]

split_injective : (sep : ℕ) (s t : List ℕ) → split sep s ≡ split sep t → s ≡ t
split_injective sep s t h = sym (join-split sep s) ∙ ap (join sep) h ∙ join-split sep t

-- A path that is relative to a base is the base with something behind it.
is_relative_to→ :
    (p base : Location) → is_relative_to p base ≡ true → (rest : Location) × (p ≡ base ++ rest)
unfolding is_relative_to
is_relative_to→ p [] h = (p, refl)
is_relative_to→ [] (y ∷ ys) h = cc
is_relative_to→ (x ∷ xs) (y ∷ ys) h =
    let (rest, e) = is_relative_to→ xs ys (ground arith) in
    (rest, ap₂ ◌∷◌ (codes_eqb→ x y (ground arith)) e)

module _ (resolve : Location → Location) (base : Location) where
  -- What an accepted path has passed.
  passed :
      (r : List ℕ) (l : Location)
      → validate_path resolve base r ≡ inr l
      → (l ≡ resolve (base ++ split b'/' r))
        × (is_relative_to l (resolve base) ≡ true)
        × (length l ≢ length (resolve base))
        × (any_dotted (split b'/' r) ≡ false)
        × (length (split b'/' r) ≤ max_path_depth)
        × (has_char b'\\' r ≡ false)
        × (has_char 0 r ≡ false)
  unfolding validate_path
  passed r l h = ground arith

  -- Whatever links the file system has, an accepted path lies strictly below the base directory; its
  -- segments are none of "", "." and "..", at most ten, and it holds no backslash and no NUL.
  pub validate_path_inside :
      (r : List ℕ) (l : Location)
      → validate_path resolve base r ≡ inr l
      → (rest : Location) × (l ≡ resolve base ++ rest)
        × (0 < length rest)
        × (any_dotted (split b'/' r) ≡ false)
        × (length (split b'/' r) ≤ max_path_depth)
        × (has_char b'\\' r ≡ false)
        × (has_char 0 r ≡ false)
  validate_path_inside r l h =
      let p = passed r l h in
      let (rest, e) = is_relative_to→ l (resolve base) p.1 in
      (rest, e, omega (arith, ap length e, length-append (resolve base) rest), p.3, p.4, p.5, p.6)

  -- Below a base directory without links, two accepted paths that name one file are the same text.
  pub validate_path_injective :
      ((segs : Location) → any_dotted segs ≡ false → resolve (base ++ segs) ≡ resolve base ++ segs)
      → (r s : List ℕ) (l : Location) → validate_path resolve base r ≡ inr l
      → validate_path resolve base s ≡ inr l
      → r ≡ s
  validate_path_injective plain r s l hr hs =
      let p = passed r l hr in
      let q = passed s l hs in
      split_injective b'/' r s (
        append_cancel_left (resolve base) (split b'/' r) (split b'/' s)
          (sym (plain (split b'/' r) p.3) ∙ sym p.0 ∙ q.0 ∙ plain (split b'/' s) q.3))
