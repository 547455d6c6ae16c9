-- ===== src/Trust/Scorer/Weights.antt =====
-- The weights of trust/scorer.py: between nothing and the cap of the policy.
use mdp2p.Prelude.{
  ◌≡◌, subst, true, String, Option, ◌⊎◌, if◌then◌else◌, none, Bool-cases, inl, inr, sym, some, ◌∙◌,
  ap, refl,
}
use mdp2p.Trust.Scorer.{
  clamp, record_weight, learned_weight, Value, weight_from, explicit_weight, weight_for, get_attr,
  balance, Fields, null, get_or, obj, end,
}
use mdp2p.Trust.Policy.{Policy, is_subscribed_moderator}
use mdp2p.Py.Value.{bool, int, float, str, arr}
use mdp2p.Trust.Floats.{Floats, IsFloats}
use mdp2p.Py.Result.{Result, ok, ◌>>=◌, >>=-eq-ok, ok_injective}

module _ (f : Floats) where
  -- Not below 0, and not above the cap unless it is 0
  abbrev pub IsWithin : f.Float → f.Float → Type 0
  IsWithin cap w = (f.le (f.tenths 0) w ≡ true) × ((w ≡ f.tenths 0) ⊎ (f.le w cap ≡ true))

  module _ (fl : IsFloats f) where
    pub clamp-IsWithin : (v cap : f.Float) → IsWithin cap (clamp f v (f.tenths 0) cap)
    unfolding clamp
    clamp-IsWithin v cap = elim (Bool-cases (f.lt v cap)) [
      | inl below ↦ rw below (within v (fl.lt→le v cap below))
      | inr not_below ↦ rw not_below (elim (Bool-cases (f.lt (f.tenths 0) cap)) [
        | inl above ↦
            rw above (fl.lt→le (f.tenths 0) cap above, inr (fl.le_refl (f.tenths 0) cap above))
        | inr nought ↦ rw nought (fl.zero_refl, inl refl)
      ])
    ]
      where
        within :
            (m : f.Float)
            → f.le m cap ≡ true
            → IsWithin cap (if f.lt (f.tenths 0) m then m else f.tenths 0)
        within m fits = elim (Bool-cases (f.lt (f.tenths 0) m)) [
          | inl above ↦ rw above (fl.lt→le (f.tenths 0) m above, inr fits)
          | inr nought ↦ rw nought (fl.zero_refl, inl refl)
        ]

    module _ (policy : Policy f) where
      learned_weight-IsWithin :
          (rec : Value) (w : f.Float)
          → learned_weight f rec policy ≡ ok w
          → IsWithin policy.max_weight_per_peer w
      unfolding learned_weight
      learned_weight-IsWithin rec w e =
          let (z, _, e₁) = >>=-eq-ok (balance f rec) _ e in
          let (n, _, e₂) = >>=-eq-ok (f.of_int z) _ e₁ in
          subst (IsWithin policy.max_weight_per_peer) (ok_injective _ _ e₂) (clamp-IsWithin _ _)

      given :
          (r : Result f.Float) (w : f.Float)
          → (r >>= λ x. ok (clamp f x (f.tenths 0) policy.max_weight_per_peer)) ≡ ok w
          → IsWithin policy.max_weight_per_peer w
      given r w e =
          let (x, _, e₁) = >>=-eq-ok r _ e in
          subst (IsWithin policy.max_weight_per_peer) (ok_injective _ _ e₁) (clamp-IsWithin x _)

      explicit_weight-IsWithin :
          (v rec : Value) (w : f.Float)
          → explicit_weight f v rec policy ≡ ok w
          → IsWithin policy.max_weight_per_peer w
      unfolding explicit_weight
      explicit_weight-IsWithin null rec w e = learned_weight-IsWithin rec w e
      explicit_weight-IsWithin (bool b) rec w e = given _ w e
      explicit_weight-IsWithin (int z) rec w e = given _ w e
      explicit_weight-IsWithin (float r t) rec w e = given _ w e
      explicit_weight-IsWithin (str s) rec w e = given _ w e
      explicit_weight-IsWithin (arr xs) rec w e = given _ w e
      explicit_weight-IsWithin (obj fs) rec w e = given _ w e

      read_weight :
          (rec : Value) (w : f.Float)
          → (get_attr rec "explicit_trust" null >>= λ v. explicit_weight f v rec policy) ≡ ok w
          → IsWithin policy.max_weight_per_peer w
      read_weight rec w e =
          let (v, _, e₁) = >>=-eq-ok (get_attr rec "explicit_trust" null) _ e in
          explicit_weight-IsWithin v rec w e₁

      record_weight-IsWithin :
          (rec : Value) (w : f.Float)
          → record_weight f rec policy ≡ ok w
          → IsWithin policy.max_weight_per_peer w
            ⊎ ((rec ≡ null) × (w ≡ policy.default_weight_unknown))
      unfolding record_weight
      record_weight-IsWithin null w e = inr (refl, sym (ok_injective _ _ e))
      record_weight-IsWithin (obj fs) w e = inl (read_weight (obj fs) w e)
      record_weight-IsWithin (bool b) w e = inl (read_weight (bool b) w e)
      record_weight-IsWithin (int z) w e = inl (read_weight (int z) w e)
      record_weight-IsWithin (float r t) w e = inl (read_weight (float r t) w e)
      record_weight-IsWithin (str s) w e = inl (read_weight (str s) w e)
      record_weight-IsWithin (arr xs) w e = inl (read_weight (arr xs) w e)

      -- The peer is neither a subscribed moderator nor in the store.
      unfoldable pub IsUnknown : String → Fields → Type 0
      IsUnknown pubkey store =
          (is_subscribed_moderator f policy pubkey ≡ none)
          × (get_attr (get_or store "peers" (obj end)) pubkey null ≡ ok null)

      weight_from-IsWithin :
          (o : Option f.Float) (pubkey : String) (store : Fields) (w : f.Float)
          → weight_from f o pubkey store policy ≡ ok w
          → IsWithin policy.max_weight_per_peer w
            ⊎ ((o ≡ none)
                × (get_attr (get_or store "peers" (obj end)) pubkey null ≡ ok null)
                × (w ≡ policy.default_weight_unknown))
      unfolding weight_from
      weight_from-IsWithin (some x) pubkey store w e = inl (given (ok x) w e)
      weight_from-IsWithin none pubkey store w e =
          let (rec, at, e₁) =
            >>=-eq-ok (get_attr (get_or store "peers" (obj end)) pubkey null) _ e in
          elim (record_weight-IsWithin rec w e₁) [
            | inl within ↦ inl within
            | inr (gone, default) ↦ inr (refl, at ∙ ap ok gone, default)
          ]

      -- The weight of a peer, whatever the user's files say of it, NaN and infinities included, is not
      -- negative, and is at most the cap of the policy or 0. Only a peer that is neither a subscribed
      -- moderator nor in the store gets the default weight of the policy as it stands.
      pub weight_for-IsWithin :
          (pubkey : String) (store : Fields) (w : f.Float)
          → weight_for f pubkey store policy ≡ ok w
          → IsWithin policy.max_weight_per_peer w
            ⊎ (IsUnknown pubkey store × (w ≡ policy.default_weight_unknown))
      unfolding weight_for IsUnknown
      weight_for-IsWithin pubkey store w e =
          elim (weight_from-IsWithin (is_subscribed_moderator f policy pubkey) pubkey store w e) [
            | inl within ↦ inl within
            | inr (unsubscribed, absent, default) ↦ inr ((unsubscribed, absent), default)
          ]
