-- ===== src/Review/Selection.antt =====
-- review/selection.py: which reviewers a publisher has to ask.
pub mod Pool
pub mod Ranks
pub mod Every
pub mod Lowest
use mdp2p.Py.Text.{codes_leb, codes, str_leb}
use mdp2p.Prelude.Int.{ℤ, leb_ℤ, pos, pos_part}
use mdp2p.Prelude.{List, String, ◌∷◌, ℕ, code, [], if◌then◌else◌, ◌==◌, ◌++◌, take, min, length}
use mdp2p.Platform.{Platform}

-- `sorted(set(pool))`: one element into a sorted list without duplicates
unfoldable pub insert_unique : String → List String → List String
insert_unique x [] = x ∷ []
insert_unique x (y ∷ ys) =
    if x == y then y ∷ ys else if str_leb x y then x ∷ y ∷ ys else y ∷ insert_unique x ys

unfoldable pub sorted_set : List String → List String
sorted_set [] = []
sorted_set (x ∷ xs) = insert_unique x (sorted_set xs)

-- `rank(pubkey)`: SHA-256 of the content key, a NUL and the public key
unfoldable pub rank : Platform → String → String → List ℕ
rank p content_key pubkey = p.sha256 (codes content_key ++ (0 ∷ codes pubkey))

-- `sorted(unique_pool, key=rank)`: of equal ranks the first stays first.
unfoldable pub insert_ranked : (String → List ℕ) → String → List String → List String
insert_ranked rank_of x [] = x ∷ []
insert_ranked rank_of x (y ∷ ys) =
    if codes_leb (rank_of x) (rank_of y) then x ∷ y ∷ ys else y ∷ insert_ranked rank_of x ys

unfoldable pub sort_by_rank : (String → List ℕ) → List String → List String
sort_by_rank rank_of [] = []
sort_by_rank rank_of (x ∷ xs) = insert_ranked rank_of x (sort_by_rank rank_of xs)

-- `select_reviewers(content_key, pool, n)`
unfoldable pub select_reviewers : Platform → String → List String → ℤ → List String
select_reviewers p content_key pool n =
    let ranked = sort_by_rank (rank p content_key) (sorted_set pool) in
    if leb_ℤ n (pos 0) then [] else take (min (pos_part n) (length ranked)) ranked
