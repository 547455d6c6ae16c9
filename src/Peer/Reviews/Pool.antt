-- ===== src/Peer/Reviews/Pool.antt =====
-- The pool of reviewers that `_extract_fresh_reviewer_pool` of peer/peer.py takes from a listing.
use mathlib.Core.List.{Mem}
use mdp2p.Review.Taxonomy.{mem_text}
use mdp2p.Review.Taxonomy.Laws.{mem_text→Mem}
use mdp2p.Prelude.Int.{leb_ℤ, distance}
use mdp2p.Py.Number.{to_int}
use mdp2p.Py.Value.{int, arr, bool, float, has_str, Items, truthy}
use mdp2p.Peer.Reviews.{overlaps}
use mdp2p.Prelude.{[], ◌∷◌, ◌⊎◌, inl, inr, ◌≤◌, ltb, ◌&&◌, Bool-cases, eq_refl}
use mdp2p.Py.Result.{raise, type_error}
use mdp2p.Py.Result.{>>=-eq-ok, ok_injective}
use mdp2p.Review.Record.Laws.{IsOptIn, verify_reviewer_opt_in→}
use mdp2p.Py.Value.{nil, cons, Value}
use mdp2p.Peer.Reviews.{
  if_opted_in, candidate_of, add_candidate, keep_if, extract_fresh_reviewer_pool, Result, Items,
  Fields, verify_reviewer_opt_in, ok, obj, pos, get_or, is_stale, str, is_interested, cons, pair_of,
  null, truthy,
}
use mdp2p.Prelude.Int.{ℤ}
use mdp2p.Platform.{Platform}
use mdp2p.Bundle.Signed.{valid, refused, Verification}
use mdp2p.Prelude.{
  ◌||◌, refl, true, false, Option, ℕ, List, String, Bool, ◌≡◌, if◌then◌else◌, some, some_injective,
  arith, none, subst, ◌∙◌, ap, not, AllOf,
}

if_falsy : (b : Bool) → (if b then raise type_error else ok true) ≡ ok true → b ≡ false
if_falsy true e = cc
if_falsy false e = refl

-- A time stamp that is later than the clock, or no longer ago than asked for, if that was asked
pub data IsRecent (now : ℤ) (rec : Fields) : Option ℕ → Type 0 where
  any_age : IsRecent now rec none
  recent :
      (seconds : ℕ) (t : ℤ)
      → to_int (get_or rec "timestamp" (int (pos 0))) ≡ ok t
      → (leb_ℤ t now ≡ false) ⊎ (distance now t ≤ seconds)
      → IsRecent now rec (some seconds)

-- A reviewer who takes what has these categories: all are taken if none are given, or if the reviewer
-- names none; else the two lists have one in common.
pub data IsInterested : Value → Option (List String) → Type 0 where
  any_content : (v : Value) → IsInterested v none
  takes_all :
      (v : Value) (categories : List String) → truthy v ≡ false → IsInterested v (some categories)
  shared :
      (xs : Items) (categories : List String) (c : String)
      → has_str xs c ≡ true
      → Mem c categories
      → IsInterested (arr xs) (some categories)

is_stale→ :
    (now : ℤ) (o : Option ℕ) (rec : Fields) → is_stale now o rec ≡ ok false → IsRecent now rec o
unfolding is_stale
is_stale→ now none rec e = any_age
is_stale→ now (some seconds) rec e =
    let (t, t_at, e₁) = >>=-eq-ok (to_int (get_or rec "timestamp" (int (pos 0)))) _ e in
    recent seconds t t_at (either (leb_ℤ t now) (distance now t) (ok_injective _ _ e₁))
  where
    either : (b : Bool) (n : ℕ) → (b && ltb seconds n) ≡ false → (b ≡ false) ⊎ (n ≤ seconds)
    either false n h = inl refl
    either true n h = inr (ground (arith, h))

overlaps→ :
    (xs : Items) (categories : List String)
    → overlaps xs categories ≡ ok true
    → (c : String) × (has_str xs c ≡ true) × Mem c categories
unfolding overlaps has_str
overlaps→ nil categories e = absurd (ground (arith, ok_injective _ _ e))
overlaps→ (cons (str s) xs) categories e =
    let (more, more_at, e₁) = >>=-eq-ok (overlaps xs categories) _ e in
    elim (Bool-cases (mem_text s categories)) [
      | inl here ↦ (s, ground (arith, eq_refl s), mem_text→Mem s categories here)
      | inr other ↦
          let taken : more ≡ true = ground (arith, ok_injective _ _ e₁, other) in
          let (c, c_at, c_in) = overlaps→ xs categories (more_at ∙ ap ok taken) in
          (c, ground (arith, c_at), c_in)
    ]
overlaps→ (cons (arr ys) xs) categories e = absurd cc
overlaps→ (cons (obj fs) xs) categories e = absurd cc
overlaps→ (cons null xs) categories e = overlaps→ xs categories e
overlaps→ (cons (bool b) xs) categories e = overlaps→ xs categories e
overlaps→ (cons (int z) xs) categories e = overlaps→ xs categories e
overlaps→ (cons (float r t) xs) categories e = overlaps→ xs categories e

is_interested→ :
    (v : Value) (o : Option (List String)) → is_interested v o ≡ ok true → IsInterested v o
unfolding is_interested
is_interested→ v none e = any_content v
is_interested→ (arr nil) (some categories) e =
    takes_all (arr nil) categories (unfold truthy in refl)
is_interested→ (arr (cons x xs)) (some []) e = absurd (ground (arith, ok_injective _ _ e))
is_interested→ (arr (cons x xs)) (some (k ∷ ks)) e =
    let (c, c_at, c_in) = overlaps→ (cons x xs) (k ∷ ks) e in
    shared (cons x xs) (k ∷ ks) c c_at c_in
is_interested→ null (some categories) e = takes_all null categories (if_falsy (truthy null) e)
is_interested→ (bool b) (some categories) e =
    takes_all (bool b) categories (if_falsy (truthy (bool b)) e)
is_interested→ (int z) (some categories) e =
    takes_all (int z) categories (if_falsy (truthy (int z)) e)
is_interested→ (float r t) (some categories) e =
    takes_all (float r t) categories (if_falsy (truthy (float r t)) e)
is_interested→ (str s) (some categories) e =
    takes_all (str s) categories (if_falsy (truthy (str s)) e)
is_interested→ (obj fs) (some categories) e =
    takes_all (obj fs) categories (if_falsy (truthy (obj fs)) e)

module _ (p : Platform) (now : ℤ) (freshness : Option ℕ) (categories : Option (List String)) where
  -- A verified opt-in that names the key, recent enough and interested in the content
  pub record IsCandidate (v : Value) : Type 0 where
    pub rec : Fields
    pub signature : Value
    pub opted_in : IsOptIn p (obj rec) signature
    pub key : get_or rec "public_key" (str "") ≡ v
    pub fresh : IsRecent now rec freshness
    pub interested : IsInterested (get_or rec "categories" null) categories

  or_false : (a b : Bool) → (a || b) ≡ false → a ≡ false
  or_false a b h = ground (arith, h)

  skip_none :
      {A : Type 0} (b : Bool) (next : Result (Option A)) (a : A)
      → (if b then ok none else next) ≡ ok (some a)
      → (b ≡ false) × (next ≡ ok (some a))
  skip_none true next a h = absurd (ground (arith, h))
  skip_none false next a h = (refl, h)

  kept : (b : Bool) (v w : Value) → keep_if b v ≡ some w → (b ≡ true) × (v ≡ w)
  unfolding keep_if
  kept true v w h = (refl, some_injective v w h)
  kept false v w h = absurd (ground (arith, h))

  if_opted_in-IsCandidate :
      (c : Verification) (rec : Fields) (signature v : Value)
      → verify_reviewer_opt_in p (pos 0) none (obj rec) signature ≡ ok c
      → if_opted_in p now freshness categories c rec ≡ ok (some v)
      → IsCandidate v
  unfolding if_opted_in
  if_opted_in-IsCandidate (refused r) rec signature v checked h = absurd (ground (arith, h))
  if_opted_in-IsCandidate valid rec signature v checked h =
      let (stale, fresh, h₁) = >>=-eq-ok (is_stale now freshness rec) _ h in
      let (not_stale, h₂) =
        skip_none (stale || not (truthy (get_or rec "public_key" (str "")))) _ v h₁ in
      let (b, interested, h₃) =
        >>=-eq-ok (is_interested (get_or rec "categories" null) categories) _ h₂ in
      let (taken, key) = kept b _ v (ok_injective _ _ h₃) in
      record {
        rec = rec;
        signature = signature;
        opted_in = (verify_reviewer_opt_in→ p (obj rec) signature (pos 0) none checked).1;
        key = key;
        fresh = is_stale→ now freshness rec (fresh ∙ ap ok (or_false stale _ not_stale));
        interested = is_interested→ _ categories (interested ∙ ap ok taken);
      }

  candidate_of-IsCandidate :
      (o : Option (Fields × Value)) (v : Value)
      → candidate_of p now freshness categories o ≡ ok (some v)
      → IsCandidate v
  unfolding candidate_of
  candidate_of-IsCandidate none v h = absurd (ground (arith, h))
  candidate_of-IsCandidate (some (rec, signature)) v h =
      let (c, checked, h') =
        >>=-eq-ok (verify_reviewer_opt_in p (pos 0) none (obj rec) signature) _ h in
      if_opted_in-IsCandidate c rec signature v checked h'

  add_candidate-AllOf :
      (o : Option Value) (pool : List Value)
      → ((v : Value) → o ≡ some v → IsCandidate v)
      → AllOf IsCandidate pool
      → AllOf IsCandidate (add_candidate p now freshness categories o pool)
  unfolding add_candidate
  add_candidate-AllOf none pool one all = all
  add_candidate-AllOf (some v) pool one all = (one v refl, all)

  -- Whatever a naming server lists, each key of the pool stands in an opt-in that its owner signed;
  -- whose time stamp is later than the clock or no longer ago than asked for, if a limit was asked for;
  -- and whose categories are empty or have one in common with those of the content, if those are given.
  pub extract_fresh_reviewer_pool-IsCandidate :
      (entries : Items) (pool : List Value)
      → extract_fresh_reviewer_pool p now freshness categories entries ≡ ok pool
      → AllOf IsCandidate pool
  unfolding extract_fresh_reviewer_pool
  extract_fresh_reviewer_pool-IsCandidate nil pool h =
      subst (AllOf IsCandidate) (ok_injective _ pool h) tt
  extract_fresh_reviewer_pool-IsCandidate (cons entry entries) pool h =
      let (o, first, h₁) =
        >>=-eq-ok (candidate_of p now freshness categories (pair_of entry)) _ h in
      let (more, rest, h₂) =
        >>=-eq-ok (extract_fresh_reviewer_pool p now freshness categories entries) _ h₁ in
      subst (AllOf IsCandidate) (ok_injective _ pool h₂) (
        add_candidate-AllOf o more
          (λ v e. candidate_of-IsCandidate (pair_of entry) v (first ∙ ap ok e))
          (extract_fresh_reviewer_pool-IsCandidate entries more rest))
