-- ===== src/Prelude/Lists.antt =====
-- Lists measured and cut by native numbers, under the library's names.
use Prim.Native.Nat.{ℕ, zero, suc, ◌+◌, ◌-◌, min}
use mathlib.Core.Path.{◌≡◌, refl, ap, subst, sym}
use mathlib.Core.List.{List, [], ◌∷◌, ◌++◌, Memᴰ}
use native.Mathlib.Omega.{arith}

module _ {ℓ} {A : Type ℓ} where
  abbrev pub length : List A → ℕ
  length [] = 0
  length (x ∷ xs) = suc (length xs)

  abbrev pub take : ℕ → List A → List A
  take zero xs = []
  take (suc n) [] = []
  take (suc n) (x ∷ xs) = x ∷ take n xs

  abbrev pub drop : ℕ → List A → List A
  drop zero xs = xs
  drop (suc n) [] = []
  drop (suc n) (x ∷ xs) = drop n xs

  pub length-append : (xs ys : List A) → length (xs ++ ys) ≡ length xs + length ys
  length-append [] ys = omega arith
  length-append (x ∷ xs) ys = omega (arith, length-append xs ys)

  pub take-append-drop : (n : ℕ) (xs : List A) → take n xs ++ drop n xs ≡ xs
  take-append-drop zero xs = refl
  take-append-drop (suc n) [] = refl
  take-append-drop (suc n) (x ∷ xs) = ap (◌∷◌ x) (take-append-drop n xs)

  pub length-take : (n : ℕ) (xs : List A) → length (take n xs) ≡ min n (length xs)
  length-take zero xs = omega arith
  length-take (suc n) [] = omega arith
  length-take (suc n) (x ∷ xs) = omega (arith, length-take n xs)

  pub length-drop : (n : ℕ) (xs : List A) → length (drop n xs) ≡ length xs - n
  length-drop zero xs = omega arith
  length-drop (suc n) [] = omega arith
  length-drop (suc n) (x ∷ xs) = omega (arith, length-drop n xs)

-- A property of each element
abbrev pub AllOf {ℓ κ} : {A : Type ℓ} → (A → Type κ) → List A → Type κ
AllOf P [] = Unit
AllOf P (x ∷ xs) = P x × AllOf P xs

module _ {ℓ κ} {A : Type ℓ} where
  pub AllOf-append :
      (P : A → Type κ) (xs ys : List A) → AllOf P xs → AllOf P ys → AllOf P (xs ++ ys)
  AllOf-append P [] ys h k = k
  AllOf-append P (x ∷ xs) ys h k = (h.0, AllOf-append P xs ys h.1 k)

  pub AllOf-imp : (P Q : A → Type κ) (xs : List A) → ((x : A) → P x → Q x) → AllOf P xs → AllOf Q xs
  AllOf-imp P Q [] f h = tt
  AllOf-imp P Q (x ∷ xs) f h = (f x h.0, AllOf-imp P Q xs f h.1)

  pub AllOf-both :
      (P Q : A → Type κ) (xs : List A) → AllOf P xs → AllOf Q xs → AllOf (λ x. P x × Q x) xs
  AllOf-both P Q [] h k = tt
  AllOf-both P Q (x ∷ xs) h k = ((h.0, k.0), AllOf-both P Q xs h.1 k.1)

  pub AllOf-at : (P : A → Type κ) (xs : List A) (x : A) → AllOf P xs → Memᴰ x xs → P x
  AllOf-at P [] x h m = elim m [ ]
  AllOf-at P (y ∷ xs) x h (Memᴰ.head same) = subst P (sym same) h.0
  AllOf-at P (y ∷ xs) x h (Memᴰ.tail m) = AllOf-at P xs x h.1 m
