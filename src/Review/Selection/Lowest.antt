-- ===== src/Review/Selection/Lowest.antt =====
-- What review/selection.py selects: the different members of the pool with the lowest ranks.
use mdp2p.Py.Text.{codes}
use mdp2p.Review.Selection.Pool.{mem_text-sorted_set, Ascending-sorted_set}
use mdp2p.Review.Taxonomy.{mem_text}
use mdp2p.Review.Selection.{select_reviewers, sort_by_rank, pos, codes_leb, sorted_set, rank}
use mdp2p.Prelude.Int.{ℤ, leb_ℤ, negsuc, pos, pos_part}
use mdp2p.Platform.{Platform}
use mdp2p.Prelude.{
  ◌≤◌, ltb, ◌⊎◌, ◌++◌, ◌∷◌, true, false, String, List, ℕ, ◌<◌, length, Bool-cases, ◌≡◌, take, arith,
  suc, min, ◌∙◌, inl, zero, subst, inr, length-take, sym,
}
use mdp2p.Review.Selection.Ranks.{
  Ranked, AllDifferent, Ascending→AllDifferent, mem_text-sort_by_rank, Ranked-sort_by_rank,
  mem_text-take, take-lowest, Ranked-take, AllDifferent-take, AllDifferent-sort_by_rank,
  mem_text-take_all,
}

-- SHA-256 of the content key, a NUL and the public key
abbrev pub rank_bytes : Platform → String → String → List ℕ
rank_bytes p content_key pubkey = p.sha256 (codes content_key ++ (0 ∷ codes pubkey))

selected :
    (p : Platform) (content_key : String) (pool : List String) (n : ℕ)
    → 0 < n
    → select_reviewers p content_key pool (pos n)
      ≡ take
          (min n (length (sort_by_rank (rank_bytes p content_key) (sorted_set pool))))
          (sort_by_rank (rank_bytes p content_key) (sorted_set pool))
unfolding select_reviewers rank
selected p content_key pool n h = ground (arith, h)

-- What a publisher may ask: n different members of the pool, or all members if there are fewer, in
-- ascending order of the rank that the specification fixes, and none of those left out ranks lower than
-- one of those selected
pub record IsLowest (p : Platform) (content_key : String) (pool : List String) (n : ℕ)
    (chosen : List String) : Type 0 where
  pub different : AllDifferent chosen
  pub members : (z : String) → mem_text z chosen ≡ true → mem_text z pool ≡ true
  pub enough :
      (length chosen ≡ n)
      ⊎ ((length chosen < n) × ((z : String) → mem_text z pool ≡ true → mem_text z chosen ≡ true))
  pub ascending : Ranked (rank_bytes p content_key) chosen
  pub lowest :
      (z w : String)
      → mem_text z chosen ≡ true
      → mem_text w pool ≡ true
      → mem_text w chosen ≡ false
      → codes_leb (rank_bytes p content_key z) (rank_bytes p content_key w) ≡ true

taken-IsLowest :
    (p : Platform) (content_key : String) (pool : List String) (n : ℕ)
    → IsLowest p content_key pool n (
        take
          (min n (length (sort_by_rank (rank_bytes p content_key) (sorted_set pool))))
          (sort_by_rank (rank_bytes p content_key) (sorted_set pool)))
taken-IsLowest p content_key pool n =
    let rank_of = rank_bytes p content_key in
    let ranked : List String = sort_by_rank rank_of (sorted_set pool) in
    let k : ℕ = min n (length ranked) in
    let same : (z : String) → mem_text z ranked ≡ mem_text z pool =
      λ z. mem_text-sort_by_rank rank_of z (sorted_set pool) ∙ mem_text-sorted_set z pool in
    let sorted : Ranked rank_of ranked = Ranked-sort_by_rank rank_of (sorted_set pool) in
    record {
      different = AllDifferent-take rank_of k ranked (
          AllDifferent-sort_by_rank rank_of (sorted_set pool)
            (Ascending→AllDifferent (sorted_set pool) (Ascending-sorted_set pool)));
      members = λ z h. sym (same z) ∙ mem_text-take rank_of k z ranked h;
      enough = enough rank_of ranked pool n same;
      ascending = Ranked-take rank_of k ranked sorted;
      lowest = λ z w h there cut. take-lowest rank_of k z w ranked sorted h (same w ∙ there) cut;
    }
  where
    enough :
        (rank_of : String → List ℕ) (ranked pool : List String) (n : ℕ)
        → ((z : String) → mem_text z ranked ≡ mem_text z pool)
        → (length (take (min n (length ranked)) ranked) ≡ n)
          ⊎ ((length (take (min n (length ranked)) ranked) < n)
              × ((z : String)
                  → mem_text z pool ≡ true
                  → mem_text z (take (min n (length ranked)) ranked) ≡ true))
    enough rank_of ranked pool n same = elim (Bool-cases (ltb (length ranked) n)) [
      | inl fewer ↦
          let short : length ranked < n = ground (arith, fewer) in
          inr (
            omega (arith, length-take (min n (length ranked)) ranked),
            λ z h.
                mem_text-take_all rank_of (min n (length ranked)) z ranked (omega arith)
                  (same z ∙ h),
          )
      | inr full ↦
          let long : n ≤ length ranked = ground (arith, full) in
          inl (omega (arith, length-take (min n (length ranked)) ranked))
    ]

-- A selection of n > 0 reviewers holds n different members of the pool, or all of its members if there
-- are fewer, in ascending order of the SHA-256 of the content key, a NUL and the public key; and none of
-- those left out has a lower one than one of those selected.
pub select_reviewers-IsLowest :
    (p : Platform) (content_key : String) (pool : List String) (n : ℕ)
    → 0 < n
    → IsLowest p content_key pool n (select_reviewers p content_key pool (pos n))
select_reviewers-IsLowest p content_key pool n some_asked =
    subst (IsLowest p content_key pool n) (sym (selected p content_key pool n some_asked))
      (taken-IsLowest p content_key pool n)

nobody :
    (p : Platform) (content_key : String) (pool : List String) (n : ℤ)
    → leb_ℤ n (pos 0) ≡ true
    → AllDifferent (select_reviewers p content_key pool n)
      × (length (select_reviewers p content_key pool n) ≤ pos_part n)
unfolding select_reviewers
nobody p content_key pool n e = rw e (tt, omega arith)

-- However many are asked for, none or fewer included: nobody is selected twice, and no more than asked for.
pub select_reviewers-AllDifferent :
    (p : Platform) (content_key : String) (pool : List String) (n : ℤ)
    → AllDifferent (select_reviewers p content_key pool n)
      × (length (select_reviewers p content_key pool n) ≤ pos_part n)
select_reviewers-AllDifferent p content_key pool (negsuc n) =
    nobody p content_key pool (negsuc n) (ground arith)
select_reviewers-AllDifferent p content_key pool (pos zero) =
    nobody p content_key pool (pos zero) (ground arith)
select_reviewers-AllDifferent p content_key pool (pos (suc n)) =
    let is = select_reviewers-IsLowest p content_key pool (suc n) (omega arith) in
    (is.different, at_most _ _ _ is.enough)
  where
    at_most : (B : Type 0) (l m : ℕ) → (l ≡ m) ⊎ ((l < m) × B) → l ≤ m
    at_most B l m (inl e) = omega arith
    at_most B l m (inr (h, b)) = omega arith
