-- ===== src/Dict/Laws.antt =====
-- The laws of a dictionary: reads after writes, and that writes keep the keys distinct.
use mdp2p.Prelude.{
  String, ◌==◌, ◌≡◌, refl, ◌≢◌, none, some, [], ◌∷◌, arith, eq_iff, eq_refl, if◌then◌else◌,
  Bool-cases, inl, inr,
}
use mdp2p.Dict.{Dict, lookup, insert, remove, Distinct}

module _ {ℓ} {V : Type ℓ} where
  pub lookup-insert :
      (k j : String) (v : V) (d : Dict V)
      → lookup j (insert k v d) ≡ (if k == j then some v else lookup j d)
  unfolding lookup insert
  lookup-insert k j v [] = refl
  lookup-insert k j v ((i, w) ∷ d) =
      ground (arith, eq_iff k j, eq_iff i k, eq_iff i j, lookup-insert k j v d)

  pub lookup-insert_self : (k : String) (v : V) (d : Dict V) → lookup k (insert k v d) ≡ some v
  lookup-insert_self k v d = simp (lookup-insert, eq_refl)

  pub lookup-insert_ne :
      (k j : String) (v : V) (d : Dict V) → k ≢ j → lookup j (insert k v d) ≡ lookup j d
  lookup-insert_ne k j v d h = ground (arith, lookup-insert k j v d, eq_iff k j)

  pub lookup-remove :
      (k j : String) (d : Dict V)
      → Distinct d
      → lookup j (remove k d) ≡ (if k == j then none else lookup j d)
  unfolding lookup remove
  lookup-remove k j [] u = ground arith
  lookup-remove k j ((i, w) ∷ d) u =
      ground (arith, eq_iff k j, eq_iff i k, eq_iff i j, lookup-remove k j d u.1)

  pub Distinct-insert : (k : String) (v : V) (d : Dict V) → Distinct d → Distinct (insert k v d)
  unfolding insert
  Distinct-insert k v [] u = unfold lookup in (refl, tt)
  Distinct-insert k v ((i, w) ∷ d) u = elim (Bool-cases (i == k)) [
    | inl same ↦ rw (same, insert) (u.0, u.1)
    | inr new ↦
        rw (new, insert)
          (ground (arith, lookup-insert k i v d, eq_iff k i, eq_iff i k), Distinct-insert k v d u.1)
  ]

  pub Distinct-remove : (k : String) (d : Dict V) → Distinct d → Distinct (remove k d)
  unfolding remove
  Distinct-remove k [] u = tt
  Distinct-remove k ((i, w) ∷ d) u = elim (Bool-cases (i == k)) [
    | inl same ↦ rw (same, remove) u.1
    | inr new ↦ rw (new, remove) (ground (arith, lookup-remove k i d u.1), Distinct-remove k d u.1)
  ]
