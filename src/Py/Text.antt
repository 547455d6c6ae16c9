-- ===== src/Py/Text.antt =====
-- A text as the list of its code points, and the order of texts, by code points as in Python.
use text.Mathlib.TextEquality.{Char-path}
use mdp2p.Prelude.{
  ℕ, String, code, ◌≡◌, refl, ap₂, Bool, true, false, ◌||◌, ◌&&◌, List, [], ◌∷◌, arith, ltb, eqb,
  ◌⊎◌, inl, inr,
}

unfoldable pub codes : String → List ℕ
codes String.[] = []
codes (String.◌∷◌ c s) = code c ∷ codes s

unfoldable pub codes_eqb : List ℕ → List ℕ → Bool
codes_eqb [] [] = true
codes_eqb (x ∷ xs) (y ∷ ys) = eqb x y && codes_eqb xs ys
codes_eqb _ _ = false

pub codes_eqb→ : (xs ys : List ℕ) → codes_eqb xs ys ≡ true → xs ≡ ys
unfolding codes_eqb
codes_eqb→ [] [] h = refl
codes_eqb→ [] (y ∷ ys) h = cc
codes_eqb→ (x ∷ xs) [] h = cc
codes_eqb→ (x ∷ xs) (y ∷ ys) h = ground (arith, codes_eqb→ xs ys)

-- `a <= b` on texts
unfoldable pub codes_leb : List ℕ → List ℕ → Bool
codes_leb [] ys = true
codes_leb (x ∷ xs) [] = false
codes_leb (x ∷ xs) (y ∷ ys) = ltb x y || (eqb x y && codes_leb xs ys)

unfoldable pub str_leb : String → String → Bool
unfolding codes codes_leb
str_leb s t = codes_leb (codes s) (codes t)

pub codes_injective : (s t : String) → codes s ≡ codes t → s ≡ t
unfolding codes
codes_injective String.[] String.[] h = refl
codes_injective String.[] (String.◌∷◌ d t) h = cc
codes_injective (String.◌∷◌ c s) String.[] h = cc
codes_injective (String.◌∷◌ c s) (String.◌∷◌ d t) h =
    ap₂ String.◌∷◌ (Char-path c d (ground arith)) (codes_injective s t (cc))

pub codes_total : (xs ys : List ℕ) → (codes_leb xs ys ≡ true) ⊎ (codes_leb ys xs ≡ true)
unfolding codes_leb
codes_total [] ys = inl refl
codes_total (x ∷ xs) [] = inr refl
codes_total (x ∷ xs) (y ∷ ys) = ground (arith, codes_total xs ys)

codes_antisym : (xs ys : List ℕ) → codes_leb xs ys ≡ true → codes_leb ys xs ≡ true → xs ≡ ys
unfolding codes_leb
codes_antisym [] [] h k = refl
codes_antisym [] (y ∷ ys) h k = cc
codes_antisym (x ∷ xs) [] h k = cc
codes_antisym (x ∷ xs) (y ∷ ys) h k = ground (arith, codes_antisym xs ys)

pub codes_trans :
    (xs ys zs : List ℕ) → codes_leb xs ys ≡ true → codes_leb ys zs ≡ true → codes_leb xs zs ≡ true
unfolding codes_leb
codes_trans [] ys zs h k = refl
codes_trans (x ∷ xs) [] zs h k = cc
codes_trans (x ∷ xs) (y ∷ ys) [] h k = cc
codes_trans (x ∷ xs) (y ∷ ys) (z ∷ zs) h k = ground (arith, codes_trans xs ys zs)

module _ (s t : String) where
  pub str_leb_total : (str_leb s t ≡ true) ⊎ (str_leb t s ≡ true)
  unfolding str_leb
  str_leb_total = codes_total (codes s) (codes t)

  pub str_leb_antisym : str_leb s t ≡ true → str_leb t s ≡ true → s ≡ t
  unfolding str_leb
  str_leb_antisym h k = codes_injective s t (codes_antisym (codes s) (codes t) h k)

pub str_leb_trans : (s t u : String) → str_leb s t ≡ true → str_leb t u ≡ true → str_leb s u ≡ true
unfolding str_leb
str_leb_trans s t u = codes_trans (codes s) (codes t) (codes u)
