-- ===== src/Review/Selection/Every.antt =====
-- What holds of each key in the pool holds of each reviewer that is selected.
use mdp2p.Prelude.Int.{ℤ, pos, pos_part, leb_ℤ}
use mdp2p.Py.Text.{codes_leb, str_leb}
use mdp2p.Platform.{Platform}
use mdp2p.Prelude.{
  [], ◌∷◌, true, false, AllOf, take, length, ◌==◌, ℕ, String, List, Bool, suc, zero, if◌then◌else◌,
  min,
}
use mdp2p.Review.Selection.{
  insert_unique, sorted_set, insert_ranked, sort_by_rank, select_reviewers, rank,
}

module _ (P : String → Type 0) where
  insert_unique-AllOf :
      (x : String) (xs : List String) → P x → AllOf P xs → AllOf P (insert_unique x xs)
  unfolding insert_unique
  insert_unique-AllOf x [] one all = (one, tt)
  insert_unique-AllOf x (y ∷ ys) one all =
      choose (x == y) (str_leb x y) (insert_unique-AllOf x ys one all.1)
    where
      choose :
          (b c : Bool)
          → AllOf P (insert_unique x ys)
          → AllOf P (if b then y ∷ ys else if c then x ∷ y ∷ ys else y ∷ insert_unique x ys)
      choose true c rest = all
      choose false true rest = (one, all)
      choose false false rest = (all.0, rest)

  sorted_set-AllOf : (xs : List String) → AllOf P xs → AllOf P (sorted_set xs)
  unfolding sorted_set
  sorted_set-AllOf [] all = tt
  sorted_set-AllOf (x ∷ xs) all =
      insert_unique-AllOf x (sorted_set xs) all.0 (sorted_set-AllOf xs all.1)

  insert_ranked-AllOf :
      (r : String → List ℕ) (x : String) (xs : List String)
      → P x
      → AllOf P xs
      → AllOf P (insert_ranked r x xs)
  unfolding insert_ranked
  insert_ranked-AllOf r x [] one all = (one, tt)
  insert_ranked-AllOf r x (y ∷ ys) one all =
      choose (codes_leb (r x) (r y)) (insert_ranked-AllOf r x ys one all.1)
    where
      choose :
          (b : Bool)
          → AllOf P (insert_ranked r x ys)
          → AllOf P (if b then x ∷ y ∷ ys else y ∷ insert_ranked r x ys)
      choose true rest = (one, all)
      choose false rest = (all.0, rest)

  sort_by_rank-AllOf :
      (r : String → List ℕ) (xs : List String) → AllOf P xs → AllOf P (sort_by_rank r xs)
  unfolding sort_by_rank
  sort_by_rank-AllOf r [] all = tt
  sort_by_rank-AllOf r (x ∷ xs) all =
      insert_ranked-AllOf r x (sort_by_rank r xs) all.0 (sort_by_rank-AllOf r xs all.1)

  take-AllOf : (n : ℕ) (xs : List String) → AllOf P xs → AllOf P (take n xs)
  take-AllOf zero xs all = tt
  take-AllOf (suc n) [] all = tt
  take-AllOf (suc n) (x ∷ xs) all = (all.0, take-AllOf n xs all.1)

  -- Whoever is selected is in the pool.
  pub select_reviewers-AllOf :
      (p : Platform) (content_key : String) (pool : List String) (n : ℤ)
      → AllOf P pool
      → AllOf P (select_reviewers p content_key pool n)
  unfolding select_reviewers
  select_reviewers-AllOf p content_key pool n all = choose (leb_ℤ n (pos 0))
    where
      ranked : List String
      ranked = sort_by_rank (rank p content_key) (sorted_set pool)

      choose :
          (b : Bool) → AllOf P (if b then [] else take (min (pos_part n) (length ranked)) ranked)
      choose true = tt
      choose false =
          take-AllOf _ ranked
            (sort_by_rank-AllOf (rank p content_key) (sorted_set pool) (sorted_set-AllOf pool all))
