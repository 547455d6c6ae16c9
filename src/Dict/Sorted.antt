-- ===== src/Dict/Sorted.antt =====
-- The keys of a dictionary in order, as `sort_keys=True` writes them.
use mdp2p.Prelude.{
  String, ◌==◌, ◌≡◌, refl, ap, ◌∙◌, ◌≢◌, none, some, [], ◌∷◌, arith, eq_iff, if◌then◌else◌,
  Bool-cases, inl, inr, eq_refl,
}
use mdp2p.Py.Text.{str_leb, str_leb_total, str_leb_antisym, str_leb_trans}
use mdp2p.Dict.{Dict, lookup, Distinct}

module _ {ℓ} {V : Type ℓ} where
  unfoldable pub insert_key : String → V → Dict V → Dict V
  insert_key k v [] = (k, v) ∷ []
  insert_key k v ((j, w) ∷ d) =
      if str_leb k j then (k, v) ∷ (j, w) ∷ d else (j, w) ∷ insert_key k v d

  unfoldable pub sort_keys : Dict V → Dict V
  unfolding insert_key
  sort_keys [] = []
  sort_keys ((k, v) ∷ d) = insert_key k v (sort_keys d)

  lookup-insert_key :
      (k j : String) (v : V) (d : Dict V)
      → lookup k d ≡ none
      → lookup j (insert_key k v d) ≡ (if k == j then some v else lookup j d)
  unfolding lookup insert_key
  lookup-insert_key k j v [] h = refl
  lookup-insert_key k j v ((i, w) ∷ d) h =
      ground (arith, eq_iff k j, eq_iff i k, eq_iff i j, lookup-insert_key k j v d)

  -- Sorting moves keys and changes no lookup.
  pub lookup-sort_keys :
      (j : String) (d : Dict V) → Distinct d → lookup j (sort_keys d) ≡ lookup j d
  unfolding sort_keys lookup
  lookup-sort_keys j [] u = refl
  lookup-sort_keys j ((k, v) ∷ d) u =
      lookup-insert_key k j v (sort_keys d) (lookup-sort_keys k d u.1 ∙ u.0)
      ∙ ap (λ r. if k == j then some v else r) (lookup-sort_keys j d u.1)

  Distinct-insert_key :
      (k : String) (v : V) (d : Dict V)
      → lookup k d ≡ none
      → Distinct d
      → Distinct (insert_key k v d)
  unfolding lookup insert_key
  Distinct-insert_key k v [] h u = (refl, tt)
  Distinct-insert_key k v ((i, w) ∷ d) h u = elim (Bool-cases (str_leb k i)) [
    | inl before ↦ rw (before, insert_key) (h, u)
    | inr after ↦
        rw (after, insert_key)
          (
            ground (arith, lookup-insert_key k i v d, eq_iff k i, eq_iff i k, eq_refl k),
            Distinct-insert_key k v d (ground arith) u.1,
          )
  ]

  pub Distinct-sort_keys : (d : Dict V) → Distinct d → Distinct (sort_keys d)
  unfolding sort_keys
  Distinct-sort_keys [] u = tt
  Distinct-sort_keys ((k, v) ∷ d) u =
      Distinct-insert_key k v (sort_keys d) (lookup-sort_keys k d u.1 ∙ u.0)
        (Distinct-sort_keys d u.1)

  insert_key_comm :
      (k j : String) (v w : V) (d : Dict V)
      → k ≢ j
      → insert_key k v (insert_key j w d) ≡ insert_key j w (insert_key k v d)
  unfolding insert_key
  insert_key_comm k j v w [] h = ground (arith, str_leb_total k j, str_leb_antisym k j)
  insert_key_comm k j v w ((i, x) ∷ d) h = ground (
    arith,
    str_leb_total k j,
    str_leb_antisym k j,
    str_leb_trans k j i,
    str_leb_trans j k i,
    insert_key_comm k j v w d h,
  )

  -- Two dictionaries with the same entries, written in another order.
  pub data SameEntries : Dict V → Dict V → Type ℓ where
    done : SameEntries [] []
    keep :
        (k : String) (v : V) {d e : Dict V}
        → SameEntries d e
        → SameEntries ((k, v) ∷ d) ((k, v) ∷ e)
    swap :
        (k j : String) (v w : V) (d : Dict V)
        → k ≢ j
        → SameEntries ((k, v) ∷ (j, w) ∷ d) ((j, w) ∷ (k, v) ∷ d)
    both : {d e f : Dict V} → SameEntries d e → SameEntries e f → SameEntries d f

  -- Sorting forgets the order of insertion.
  pub sort_keys-SameEntries : {d e : Dict V} → SameEntries d e → sort_keys d ≡ sort_keys e
  unfolding sort_keys
  sort_keys-SameEntries done = refl
  sort_keys-SameEntries (keep k v s) = ap (insert_key k v) (sort_keys-SameEntries s)
  sort_keys-SameEntries (swap k j v w d h) = insert_key_comm k j v w (sort_keys d) h
  sort_keys-SameEntries (both s t) = sort_keys-SameEntries s ∙ sort_keys-SameEntries t
