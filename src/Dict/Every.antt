-- ===== src/Dict/Every.antt =====
-- A property of all entries of a dictionary, and of one whose values are dictionaries.
use mdp2p.Dict.Laws.{lookup-insert}
use mdp2p.Dict.{Dict, slot, insert, lookup}
use mdp2p.Prelude.{
  String, ◌==◌, ◌≡◌, Bool-cases, arith, if◌then◌else◌, ◌&&◌, some, inl, eq_iff, subst, inr, [],
}

module _ {ℓ} {V : Type ℓ} where
  slot-insert :
      (k i : String) (e : Dict V) (d : Dict (Dict V))
      → slot (insert k e d) i ≡ (if k == i then e else slot d i)
  unfolding slot
  slot-insert k i e d = ground (arith, lookup-insert k i e d)

module _ {ℓ κ} {V : Type ℓ} where
  abbrev pub Every : (String → V → Type κ) → Dict V → Type (ℓ ⊔ κ)
  Every P d = (k : String) (v : V) → lookup k d ≡ some v → P k v

  abbrev pub Every₂ : (String → String → V → Type κ) → Dict (Dict V) → Type (ℓ ⊔ κ)
  Every₂ P d = (k j : String) (v : V) → lookup j (slot d k) ≡ some v → P k j v

  pub Every-empty : (P : String → V → Type κ) → Every P []
  unfolding lookup
  Every-empty P k v found = cc

  pub Every₂-empty : (P : String → String → V → Type κ) → Every₂ P []
  unfolding slot lookup
  Every₂-empty P k j v found = cc

  pub Every-insert :
      (P : String → V → Type κ) (k : String) (v : V) (d : Dict V)
      → Every P d
      → P k v
      → Every P (insert k v d)
  Every-insert P k v d all one j w found = elim (Bool-cases (k == j)) [
    | inl here ↦
        let e : k ≡ j = (eq_iff k j).0 here in
        let vw : v ≡ w = ground (arith, lookup-insert k j v d) in
        subst (λ i. P i w) e (subst (P k) vw one)
    | inr other ↦ all j w (ground (arith, lookup-insert k j v d))
  ]

  -- A write into the slot of a key
  pub Every₂-insert :
      (P : String → String → V → Type κ) (k j : String) (v : V) (d : Dict (Dict V))
      → Every₂ P d
      → P k j v
      → Every₂ P (insert k (insert j v (slot d k)) d)
  Every₂-insert P k j v d all one i l w found = elim (Bool-cases (k == i)) [
    | inl here ↦
        let e : k ≡ i = (eq_iff k i).0 here in
        let there : lookup l (insert j v (slot d k)) ≡ some w =
          ground (arith, slot-insert k i (insert j v (slot d k)) d) in
        subst (λ x. P x l w) e (Every-insert (P k) j v (slot d k) (all k) one l w there)
    | inr other ↦ all i l w (ground (arith, slot-insert k i (insert j v (slot d k)) d))
  ]

  -- An empty slot changes nothing.
  pub Every₂-touch :
      (P : String → String → V → Type κ) (k : String) (d : Dict (Dict V))
      → Every₂ P d
      → Every₂ P (insert k (slot d k) d)
  Every₂-touch P k d all i l w found =
      all i l w (ground (arith, slot-insert k i (slot d k) d, eq_iff k i))

module _ {ℓ} {V : Type ℓ} where
  -- An entry that is there, under its two keys
  abbrev pub IsAt : Dict (Dict V) → String → String → Type ℓ
  IsAt d k j = (v : V) × (lookup j (slot d k) ≡ some v)

  pub IsAt-insert :
      (k j : String) (v : V) (d : Dict (Dict V)) (i l : String)
      → IsAt d i l
      → IsAt (insert k (insert j v (slot d k)) d) i l
  IsAt-insert k j v d i l (w, found) = (
    (if k == i && j == l then v else w),
    ground (
      arith,
      slot-insert k i (insert j v (slot d k)) d,
      eq_iff k i,
      lookup-insert j l v (slot d k),
    ),
  )
