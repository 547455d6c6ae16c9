-- ===== src/Review/Selection/Pool.antt =====
-- The selection of review/selection.py depends on the members of the pool only.
use mdp2p.Py.Text.{str_leb_total, str_leb_antisym, str_leb_trans}
use mdp2p.Review.Taxonomy.{mem_text}
use mdp2p.Review.Selection.{
  sorted_set, insert_unique, str_leb, select_reviewers, Platform, ℤ, sort_by_rank, rank, leb_ℤ, pos,
  pos_part,
}
use mdp2p.Prelude.{
  [], ◌∷◌, true, false, List, String, ◌≡◌, ◌∙◌, ◌==◌, ◌||◌, ap, ◌≢◌, arith, Bool-cases, refl, inl,
  eq_iff, inr, Bool, subst, eq_refl, sym, if◌then◌else◌, take, min, length,
}

-- Strictly ascending
abbrev pub Ascending : List String → Type 0
Ascending [] = Unit
Ascending (x ∷ xs) =
    ((y : String) → mem_text y xs ≡ true → (str_leb x y ≡ true) × (x ≢ y)) × Ascending xs

mem_text-insert_unique :
    (z x : String) (ys : List String)
    → mem_text z (insert_unique x ys) ≡ ((x == z) || mem_text z ys)
unfolding mem_text insert_unique
mem_text-insert_unique z x [] = refl
mem_text-insert_unique z x (y ∷ ys) =
    ground (arith, eq_iff x y, eq_iff x z, eq_iff y z, mem_text-insert_unique z x ys)

pub mem_text-sorted_set :
    (z : String) (xs : List String) → mem_text z (sorted_set xs) ≡ mem_text z xs
unfolding mem_text sorted_set
mem_text-sorted_set z [] = refl
mem_text-sorted_set z (x ∷ xs) =
    mem_text-insert_unique z x (sorted_set xs) ∙ ap (λ b. (x == z) || b) (mem_text-sorted_set z xs)

differ : (x y : String) → (x == y) ≡ false → x ≢ y
differ x y h e = ground (arith, eq_iff x y)

module _ (x y z : String) (ys : List String)
    (up : (w : String) → mem_text w ys ≡ true → (str_leb y w ≡ true) × (y ≢ w))
    (differs : (x == y) ≡ false) where
  before-all : str_leb x y ≡ true → mem_text z (y ∷ ys) ≡ true → (str_leb x z ≡ true) × (x ≢ z)
  unfolding mem_text
  before-all before h = elim (Bool-cases (y == z)) [
    | inl here ↦
        let e : y ≡ z = (eq_iff y z).0 here in
        (subst (λ w. str_leb x w ≡ true) e before, λ k. differ x y differs (k ∙ sym e))
    | inr there ↦
        let after = up z (ground (arith, h, there)) in
        (
          str_leb_trans x y z before after.0,
          λ k.
              differ x y differs
                (str_leb_antisym x y before (subst (λ w. str_leb y w ≡ true) (sym k) after.0)),
        )
  ]

  after-all :
      str_leb x y ≡ false → mem_text z (insert_unique x ys) ≡ true → (str_leb y z ≡ true) × (y ≢ z)
  after-all after h = elim (Bool-cases (x == z)) [
    | inl here ↦
        let e : x ≡ z = (eq_iff x z).0 here in
        (
          subst (λ w. str_leb y w ≡ true) e (ground (arith, str_leb_total x y, after)),
          λ k. differ x y differs (e ∙ sym k),
        )
    | inr there ↦ up z (ground (arith, mem_text-insert_unique z x ys, h, there))
  ]

none_there : (x : String) → Ascending (x ∷ [])
unfolding mem_text
none_there x = ((λ y h. absurd (ground (arith, h))), tt)

Ascending-insert_unique :
    (x : String) (ys : List String) → Ascending ys → Ascending (insert_unique x ys)
unfolding insert_unique
Ascending-insert_unique x [] a = none_there x
Ascending-insert_unique x (y ∷ ys) a = elim (Bool-cases (x == y)) [
  | inl here ↦ rw (here, insert_unique) a
  | inr differs ↦ elim (Bool-cases (str_leb x y)) [
    | inl before ↦
        rw (differs, before, insert_unique) ((λ z h. before-all x y z ys a.0 differs before h), a)
    | inr after ↦
        rw (differs, after, insert_unique)
          ((λ z h. after-all x y z ys a.0 differs after h), Ascending-insert_unique x ys a.1)
  ]
]

pub Ascending-sorted_set : (xs : List String) → Ascending (sorted_set xs)
unfolding sorted_set
Ascending-sorted_set [] = tt
Ascending-sorted_set (x ∷ xs) = Ascending-insert_unique x (sorted_set xs) (Ascending-sorted_set xs)

-- Two strictly ascending lists with the same members are the same list.
heads :
    (x y : String) (xs ys : List String)
    → Ascending (x ∷ xs)
    → Ascending (y ∷ ys)
    → ((z : String) → mem_text z (x ∷ xs) ≡ mem_text z (y ∷ ys))
    → x ≡ y
unfolding mem_text
heads x y xs ys a b same = elim (Bool-cases (x == y)) [
  | inl here ↦ (eq_iff x y).0 here
  | inr differs ↦
      let x_in : mem_text x ys ≡ true = ground (arith, same x, eq_refl x, eq_iff x y, eq_iff y x) in
      let y_in : mem_text y xs ≡ true = ground (arith, same y, eq_refl y, eq_iff x y, eq_iff y x) in
      str_leb_antisym x y (a.0 y y_in).0 (b.0 x x_in).0
]

tails :
    (x : String) (xs ys : List String)
    → Ascending (x ∷ xs)
    → Ascending (x ∷ ys)
    → ((z : String) → mem_text z (x ∷ xs) ≡ mem_text z (x ∷ ys))
    → (z : String) → mem_text z xs ≡ mem_text z ys
unfolding mem_text
tails x xs ys a b same z = elim (Bool-cases (x == z)) [
  | inl here ↦
      let e : x ≡ z = (eq_iff x z).0 here in
      absent_both (mem_text z xs) (mem_text z ys) (λ h. (a.0 z h).1 e) (λ h. (b.0 z h).1 e)
  | inr differs ↦ ground (arith, same z, differs)
]
  where
    absent_both : (p q : Bool) → (p ≡ true → ⊥) → (q ≡ true → ⊥) → p ≡ q
    absent_both true q h k = absurd (h refl)
    absent_both false true h k = absurd (k refl)
    absent_both false false h k = refl

pub Ascending-extensional :
    (xs ys : List String)
    → Ascending xs
    → Ascending ys
    → ((z : String) → mem_text z xs ≡ mem_text z ys)
    → xs ≡ ys
unfolding mem_text
Ascending-extensional [] [] a b same = refl
Ascending-extensional [] (y ∷ ys) a b same = absurd (ground (arith, same y, eq_refl y))
Ascending-extensional (x ∷ xs) [] a b same = absurd (ground (arith, same x, eq_refl x))
Ascending-extensional (x ∷ xs) (y ∷ ys) a b same =
    let e : x ≡ y = heads x y xs ys a b same in
    let same' : (z : String) → mem_text z (x ∷ xs) ≡ mem_text z (x ∷ ys) =
      λ z. same z ∙ ap (λ w. mem_text z (w ∷ ys)) (sym e) in
    let b' : Ascending (x ∷ ys) = subst (λ w. Ascending (w ∷ ys)) (sym e) b in
    ap (◌∷◌ x) (Ascending-extensional xs ys a.1 b'.1 (tails x xs ys a b' same'))
    ∙ ap (λ w. w ∷ ys) e

-- Two pools with the same members, in whatever order and however often, give the same selection: anyone
-- can repeat a publisher's selection.
pub select_reviewers-members :
    (p : Platform) (content_key : String) (pool pool' : List String) (n : ℤ)
    → ((z : String) → mem_text z pool ≡ mem_text z pool')
    → select_reviewers p content_key pool n ≡ select_reviewers p content_key pool' n
unfolding select_reviewers
select_reviewers-members p content_key pool pool' n same =
    ap
      (λ unique.
        let ranked = sort_by_rank (rank p content_key) unique in
        if leb_ℤ n (pos 0) then [] else take (min (pos_part n) (length ranked)) ranked)
      (Ascending-extensional (sorted_set pool) (sorted_set pool') (Ascending-sorted_set pool)
        (Ascending-sorted_set pool')
        (λ z. mem_text-sorted_set z pool ∙ same z ∙ sym (mem_text-sorted_set z pool')))
