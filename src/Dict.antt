-- ===== src/Dict.antt =====
-- Python's `dict` with text keys: an association list in insertion order.
pub mod Laws
pub mod Every
pub mod Members
pub mod Sorted
use mdp2p.Prelude.{
  String, ◌==◌, ◌≡◌, Bool, true, false, Option, none, some, List, [], ◌∷◌, if◌then◌else◌,
}

abbrev pub Dict {ℓ} : Type ℓ → Type ℓ
Dict V = List (String × V)

module _ {ℓ} {V : Type ℓ} where
  -- `d.get(k)`
  unfoldable pub lookup : String → Dict V → Option V
  lookup k [] = none
  lookup k ((j, v) ∷ d) = if j == k then some v else lookup k d

  -- `d[k] = v`: a key that is there keeps its place, a new one comes last.
  unfoldable pub insert : String → V → Dict V → Dict V
  insert k v [] = (k, v) ∷ []
  insert k v ((j, w) ∷ d) = if j == k then (j, v) ∷ d else (j, w) ∷ insert k v d

  -- `del d[k]`
  unfoldable pub remove : String → Dict V → Dict V
  remove k [] = []
  remove k ((j, v) ∷ d) = if j == k then d else (j, v) ∷ remove k d

  -- `list(d.values())`
  unfoldable pub values : Dict V → List V
  values [] = []
  values ((j, v) ∷ d) = v ∷ values d

  unfoldable pub has : String → Dict V → Bool
  unfolding lookup
  has k d = elim (lookup k d) [ none ↦ false | some v ↦ true ]

  -- The keys are distinct.
  abbrev pub Distinct : Dict V → Type ℓ
  Distinct [] = Unit
  Distinct ((j, v) ∷ d) = (lookup j d ≡ none) × Distinct d

-- `d.get(k, {})`, where the values are dictionaries
unfoldable pub slot {ℓ} : {V : Type ℓ} → Dict (Dict V) → String → Dict V
unfolding lookup
slot d k = elim (lookup k d) [ none ↦ [] | some e ↦ e ]
