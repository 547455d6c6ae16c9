-- ===== src/Trust/Store/Weight.antt =====
-- The weight of a peer after the user has set it, and after its signals were confirmed or disputed.
use mdp2p.Prelude.{
  String, ◌≡◌, Option, none, some, subst, ◌∙◌, refl, ap, ◌≢◌, Option-cases, inl, sym, inr,
}
use mdp2p.Trust.Store.Laws.{record_of, IsUpdate, written-IsUpdate, record_of-peers}
use mdp2p.Trust.Store.{peers_from, set_item, set_explicit_trust, trust_value, peers_of, get_peer}
use mdp2p.Trust.Floats.{Floats, IsFloats, as_value, to_float}
use mdp2p.Trust.Policy.{Policy, is_subscribed_moderator}
use mdp2p.Trust.Scorer.{weight_for, weight_from, record_weight, explicit_weight, clamp}
use mdp2p.Py.Value.{
  bool, int, float, str, arr, obj, null, get_attr, get_or, Fields, Value, end, get,
}
use mdp2p.Py.Value.Laws.{get_or-with_field}
use mdp2p.Py.Result.{ok, >>=-eq-ok, ok_injective}

-- What `_weight_for` reads of the store is the record.
read_record :
    (o : Option Value) (peers : Fields) (k : String)
    → peers_from o ≡ ok peers
    → get_attr (elim o [ none ↦ obj end | some v ↦ v ]) k null ≡ ok (get_or peers k null)
unfolding peers_from get_attr
read_record none peers k e = ap (λ ps. ok (get_or ps k null)) (ok_injective _ _ e)
read_record (some (obj fs)) peers k e = ap (λ ps. ok (get_or ps k null)) (ok_injective _ _ e)
read_record (some null) peers k e = cc
read_record (some (bool b)) peers k e = cc
read_record (some (int z)) peers k e = cc
read_record (some (float r t)) peers k e = cc
read_record (some (str s)) peers k e = cc
read_record (some (arr xs)) peers k e = cc

record_of-read :
    (store : Fields) (k : String) (v : Value)
    → record_of store k ≡ ok v
    → get_attr (get_or store "peers" (obj end)) k null ≡ ok v
unfolding record_of peers_of get_or
record_of-read store k v e =
    let (peers, at, e₁) = >>=-eq-ok (peers_of store) _ e in
    read_record (get store "peers") peers k at ∙ e₁

module _ (f : Floats) (fl : IsFloats f) (policy : Policy f) where
  -- The weight of a peer that is no subscribed moderator comes of its record.
  weight_for-record :
      (store : Fields) (k : String) (v : Value)
      → is_subscribed_moderator f policy k ≡ none
      → record_of store k ≡ ok v
      → weight_for f k store policy ≡ record_weight f v policy
  unfolding weight_for weight_from
  weight_for-record store k v unsubscribed at = rw (unsubscribed, record_of-read store k v at) refl

  -- The weight of a peer that is a subscribed moderator comes of the policy.
  weight_for-subscribed :
      (store after : Fields) (k : String) (x : f.Float)
      → is_subscribed_moderator f policy k ≡ some x
      → weight_for f k after policy ≡ weight_for f k store policy
  unfolding weight_for weight_from
  weight_for-subscribed store after k x subscribed = rw subscribed refl

  explicit_record :
      (rec : Value) (x : f.Float) (new : Value)
      → set_item rec "explicit_trust" (as_value f x) ≡ ok new
      → record_weight f new policy ≡ ok (clamp f x (f.tenths 0) policy.max_weight_per_peer)
  unfolding set_item record_weight explicit_weight get_attr as_value to_float
  explicit_record (obj fs) x new e =
      subst (λ v. record_weight f v policy ≡ ok (clamp f x (f.tenths 0) policy.max_weight_per_peer))
        (ok_injective _ _ e)
        (rw
          (
            get_or-with_field fs "explicit_trust" "explicit_trust" (as_value f x) null,
            fl.read-text x,
          )
          refl)
  explicit_record null x new e = cc
  explicit_record (bool b) x new e = cc
  explicit_record (int z) x new e = cc
  explicit_record (float r t) x new e = cc
  explicit_record (str s) x new e = cc
  explicit_record (arr xs) x new e = cc

  others_weight :
      (store after peers : Fields) (pubkey other : String) (rec : Value)
      → peers_of store ≡ ok peers
      → IsUpdate peers after pubkey rec
      → pubkey ≢ other
      → weight_for f other after policy ≡ weight_for f other store policy
  others_weight store after peers pubkey other rec at up ne =
      elim (Option-cases (is_subscribed_moderator f policy other)) [
        | inl unsubscribed ↦
            weight_for-record after other (get_or peers other null) unsubscribed
              (up.others_at other ne)
            ∙ sym (
                weight_for-record store other (get_or peers other null) unsubscribed
                  (record_of-peers store peers other at))
        | inr (x, subscribed) ↦ weight_for-subscribed store after other x subscribed
      ]

  -- Once the user has set the trust of a peer that is no subscribed moderator, its weight is that trust,
  -- clamped to the cap of the policy; and the weights of all other peers are what they were.
  pub weight_for-set_explicit_trust :
      (store after : Fields) (pubkey : String) (x : f.Float)
      → is_subscribed_moderator f policy pubkey ≡ none
      → set_explicit_trust f store pubkey (some x) ≡ ok after
      → (weight_for f pubkey after policy ≡ ok (clamp f x (f.tenths 0) policy.max_weight_per_peer))
        × ((other : String)
            → pubkey ≢ other
            → weight_for f other after policy ≡ weight_for f other store policy)
  unfolding set_explicit_trust trust_value
  weight_for-set_explicit_trust store after pubkey x unsubscribed e =
      let (found, found_at, e₁) = >>=-eq-ok (get_peer store pubkey) _ e in
      let (rec, rec_at, e₂) = >>=-eq-ok (set_item found.0 "explicit_trust" (as_value f x)) _ e₁ in
      let (peers, at, _, up) = written-IsUpdate store after pubkey found rec found_at e₂ in
      (
        weight_for-record after pubkey rec unsubscribed up.now_at
            ∙ explicit_record found.0 x rec rec_at,
        λ other ne. others_weight store after peers pubkey other rec at up ne,
      )
