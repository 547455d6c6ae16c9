-- ===== src/Dict/Members.antt =====
-- The values of a dictionary, as the members of a list.
use mdp2p.Prelude.{
  String, ◌∷◌, ◌≡◌, arith, some, eq_refl, ◌==◌, eq_iff, true, if◌then◌else◌, false, Bool-cases, inl,
  some_injective, sym, ◌∙◌, inr,
}
use mathlib.Core.List.{Memᴰ}
use mdp2p.Prelude.{[], ◌∷◌}
use mdp2p.Dict.{Dict, lookup, values, Distinct}
use mdp2p.Dict.Every.{Every}

module _ {ℓ} {V : Type ℓ} where
  pub lookup→Mem : (k : String) (v : V) (d : Dict V) → lookup k d ≡ some v → Memᴰ v (values d)
  unfolding lookup values
  lookup→Mem k v [] e = cc
  lookup→Mem k v ((j, w) ∷ d) e = elim (Bool-cases (j == k)) [
    | inl same ↦ Memᴰ.head (some_injective v w (sym e ∙ at same))
    | inr other ↦ Memᴰ.tail (lookup→Mem k v d (past other ∙ e))
  ]
    where
      at : (j == k) ≡ true → (if j == k then some w else lookup k d) ≡ some w
      at same = ground arith

      past : (j == k) ≡ false → lookup k d ≡ (if j == k then some w else lookup k d)
      past other = ground arith

  pub Mem→lookup :
      (v : V) (d : Dict V) → Distinct d → Memᴰ v (values d) → (k : String) × (lookup k d ≡ some v)
  unfolding lookup values
  Mem→lookup v [] once m = elim m [ ]
  Mem→lookup v ((j, w) ∷ d) once (Memᴰ.head same) = (j, ground (arith, eq_refl j))
  Mem→lookup v ((j, w) ∷ d) once (Memᴰ.tail m) =
      let (k, at) = Mem→lookup v d once.1 m in (k, ground (arith, at, once.0, eq_iff j k))

module _ {ℓ κ} {V : Type ℓ} where
  -- A property of all entries is one of those behind the first.
  pub Every-tail :
      (P : String → V → Type κ) (k : String) (v : V) (d : Dict V)
      → Distinct ((k, v) ∷ d)
      → Every P ((k, v) ∷ d)
      → Every P d
  unfolding lookup
  Every-tail P k v d once all j w at = all j w (ground (arith, at, once.0, eq_iff k j))
