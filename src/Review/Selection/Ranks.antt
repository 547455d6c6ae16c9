-- ===== src/Review/Selection/Ranks.antt =====
-- The selection of review/selection.py takes the lowest ranks of the pool.
use mdp2p.Py.Text.{codes_total, codes_trans}
use mdp2p.Review.Selection.Pool.{Ascending}
use mdp2p.Review.Taxonomy.{mem_text}
use mdp2p.Review.Selection.{sort_by_rank, insert_ranked, codes_leb}
use mdp2p.Prelude.{
  ◌≤◌, [], ◌∷◌, true, false, String, List, ℕ, length, Bool-cases, ◌≡◌, take, arith, suc, ◌==◌, ◌∙◌,
  refl, ◌||◌, inl, zero, ap, subst, inr, eq_iff,
}

-- No element stands twice.
abbrev pub AllDifferent : List String → Type 0
AllDifferent [] = Unit
AllDifferent (x ∷ xs) = (mem_text x xs ≡ false) × AllDifferent xs

pub Ascending→AllDifferent : (xs : List String) → Ascending xs → AllDifferent xs
Ascending→AllDifferent [] a = tt
Ascending→AllDifferent (x ∷ xs) a = (
  elim (Bool-cases (mem_text x xs)) [
    | inl there ↦ absurd ((a.0 x there).1 refl)
    | inr absent ↦ absent
  ],
  Ascending→AllDifferent xs a.1,
)

module _ (rank_of : String → List ℕ) where
  -- Ascending by rank
  abbrev pub Ranked : List String → Type 0
  Ranked [] = Unit
  Ranked (x ∷ xs) =
      ((y : String) → mem_text y xs ≡ true → codes_leb (rank_of x) (rank_of y) ≡ true) × Ranked xs

  mem_text-insert_ranked :
      (z x : String) (ys : List String)
      → mem_text z (insert_ranked rank_of x ys) ≡ ((x == z) || mem_text z ys)
  unfolding mem_text insert_ranked
  mem_text-insert_ranked z x [] = refl
  mem_text-insert_ranked z x (y ∷ ys) = ground (arith, mem_text-insert_ranked z x ys)

  pub mem_text-sort_by_rank :
      (z : String) (xs : List String) → mem_text z (sort_by_rank rank_of xs) ≡ mem_text z xs
  unfolding mem_text sort_by_rank
  mem_text-sort_by_rank z [] = refl
  mem_text-sort_by_rank z (x ∷ xs) =
      mem_text-insert_ranked z x (sort_by_rank rank_of xs)
      ∙ ap (λ b. (x == z) || b) (mem_text-sort_by_rank z xs)

  length-insert_ranked :
      (x : String) (ys : List String) → length (insert_ranked rank_of x ys) ≡ suc (length ys)
  unfolding insert_ranked
  length-insert_ranked x [] = refl
  length-insert_ranked x (y ∷ ys) = ground (arith, length-insert_ranked x ys)

  length-sort_by_rank : (xs : List String) → length (sort_by_rank rank_of xs) ≡ length xs
  unfolding sort_by_rank
  length-sort_by_rank [] = refl
  length-sort_by_rank (x ∷ xs) =
      length-insert_ranked x (sort_by_rank rank_of xs) ∙ ap suc (length-sort_by_rank xs)

  module _ (x y z : String) (ys : List String)
      (up : (w : String) → mem_text w ys ≡ true → codes_leb (rank_of y) (rank_of w) ≡ true) where
    before-all :
        codes_leb (rank_of x) (rank_of y) ≡ true
        → mem_text z (y ∷ ys) ≡ true
        → codes_leb (rank_of x) (rank_of z) ≡ true
    unfolding mem_text
    before-all before h = elim (Bool-cases (y == z)) [
      | inl here ↦
          subst (λ w. codes_leb (rank_of x) (rank_of w) ≡ true) ((eq_iff y z).0 here) before
      | inr there ↦
          codes_trans (rank_of x) (rank_of y) (rank_of z) before (up z (ground (arith, h, there)))
    ]

    after-all :
        codes_leb (rank_of x) (rank_of y) ≡ false
        → mem_text z (insert_ranked rank_of x ys) ≡ true
        → codes_leb (rank_of y) (rank_of z) ≡ true
    after-all after h = elim (Bool-cases (x == z)) [
      | inl here ↦
          subst (λ w. codes_leb (rank_of y) (rank_of w) ≡ true) ((eq_iff x z).0 here)
            (ground (arith, codes_total (rank_of x) (rank_of y), after))
      | inr there ↦ up z (ground (arith, mem_text-insert_ranked z x ys, h, there))
    ]

  none_there : (x : String) → Ranked (x ∷ [])
  unfolding mem_text
  none_there x = ((λ y h. absurd (ground (arith, h))), tt)

  Ranked-insert_ranked :
      (x : String) (ys : List String) → Ranked ys → Ranked (insert_ranked rank_of x ys)
  unfolding insert_ranked
  Ranked-insert_ranked x [] r = none_there x
  Ranked-insert_ranked x (y ∷ ys) r = elim (Bool-cases (codes_leb (rank_of x) (rank_of y))) [
    | inl before ↦ rw (before, insert_ranked) ((λ z h. before-all x y z ys r.0 before h), r)
    | inr after ↦
        rw (after, insert_ranked)
          ((λ z h. after-all x y z ys r.0 after h), Ranked-insert_ranked x ys r.1)
  ]

  pub Ranked-sort_by_rank : (xs : List String) → Ranked (sort_by_rank rank_of xs)
  unfolding sort_by_rank
  Ranked-sort_by_rank [] = tt
  Ranked-sort_by_rank (x ∷ xs) =
      Ranked-insert_ranked x (sort_by_rank rank_of xs) (Ranked-sort_by_rank xs)

  pub mem_text-take :
      (n : ℕ) (z : String) (xs : List String) → mem_text z (take n xs) ≡ true → mem_text z xs ≡ true
  unfolding mem_text
  mem_text-take zero z xs h = absurd (ground (arith, h))
  mem_text-take (suc n) z [] h = h
  mem_text-take (suc n) z (x ∷ xs) h = ground (arith, mem_text-take n z xs, h)

  pub Ranked-take : (n : ℕ) (xs : List String) → Ranked xs → Ranked (take n xs)
  Ranked-take zero xs r = tt
  Ranked-take (suc n) [] r = tt
  Ranked-take (suc n) (x ∷ xs) r = ((λ y h. r.0 y (mem_text-take n y xs h)), Ranked-take n xs r.1)

  pub AllDifferent-take : (n : ℕ) (xs : List String) → AllDifferent xs → AllDifferent (take n xs)
  AllDifferent-take zero xs d = tt
  AllDifferent-take (suc n) [] d = tt
  AllDifferent-take (suc n) (x ∷ xs) d = (
    elim (Bool-cases (mem_text x (take n xs))) [
      | inl there ↦ absurd (ground (arith, mem_text-take n x xs there, d.0))
      | inr absent ↦ absent
    ],
    AllDifferent-take n xs d.1,
  )

  AllDifferent-insert_ranked :
      (x : String) (ys : List String)
      → mem_text x ys ≡ false
      → AllDifferent ys
      → AllDifferent (insert_ranked rank_of x ys)
  unfolding mem_text insert_ranked
  AllDifferent-insert_ranked x [] new d = (refl, tt)
  AllDifferent-insert_ranked x (y ∷ ys) new d =
      let rest = AllDifferent-insert_ranked x ys (ground (arith, new)) d.1 in
      let apart : mem_text y (insert_ranked rank_of x ys) ≡ false =
        ground (arith, mem_text-insert_ranked y x ys, d.0, new, eq_iff x y, eq_iff y x) in
      elim (Bool-cases (codes_leb (rank_of x) (rank_of y))) [
        | inl before ↦ rw (before, insert_ranked) (new, d)
        | inr after ↦ rw (after, insert_ranked) (apart, rest)
      ]

  pub AllDifferent-sort_by_rank :
      (xs : List String) → AllDifferent xs → AllDifferent (sort_by_rank rank_of xs)
  unfolding sort_by_rank
  AllDifferent-sort_by_rank [] d = tt
  AllDifferent-sort_by_rank (x ∷ xs) d =
      AllDifferent-insert_ranked x (sort_by_rank rank_of xs) (mem_text-sort_by_rank x xs ∙ d.0)
        (AllDifferent-sort_by_rank xs d.1)

  pub mem_text-take_all :
      (n : ℕ) (z : String) (xs : List String)
      → length xs ≤ n
      → mem_text z xs ≡ true
      → mem_text z (take n xs) ≡ true
  unfolding mem_text
  mem_text-take_all zero z [] short h = h
  mem_text-take_all zero z (x ∷ xs) short h = absurd (omega arith)
  mem_text-take_all (suc n) z [] short h = h
  mem_text-take_all (suc n) z (x ∷ xs) short h =
      ground (arith, mem_text-take_all n z xs (omega arith), h)

  -- What is cut off ranks no lower than what is kept.
  pub take-lowest :
      (n : ℕ) (z w : String) (xs : List String)
      → Ranked xs
      → mem_text z (take n xs) ≡ true
      → mem_text w xs ≡ true
      → mem_text w (take n xs) ≡ false
      → codes_leb (rank_of z) (rank_of w) ≡ true
  unfolding mem_text
  take-lowest zero z w xs r h k cut = absurd (ground (arith, h))
  take-lowest (suc n) z w [] r h k cut = absurd (ground (arith, h))
  take-lowest (suc n) z w (x ∷ xs) r h k cut =
      let w_in : mem_text w xs ≡ true = ground (arith, k, cut) in
      let w_cut : mem_text w (take n xs) ≡ false = ground (arith, cut) in
      elim (Bool-cases (x == z)) [
        | inl here ↦
            subst (λ v. codes_leb (rank_of v) (rank_of w) ≡ true) ((eq_iff x z).0 here) (r.0 w w_in)
        | inr there ↦ take-lowest n z w xs r.1 (ground (arith, h, there)) w_in w_cut
      ]
