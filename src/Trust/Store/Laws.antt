-- ===== src/Trust/Store/Laws.antt =====
-- The operations of the trust store, each read back through the weight or the counters of a peer.
use mdp2p.Py.Value.Laws.{get_or-with_field, get-with_field}
use mdp2p.Prelude.{
  String, ◌≡◌, if◌then◌else◌, ◌==◌, arith, subst, refl, ap, eq_refl, ◌≢◌, ◌∙◌, eq_iff, sym,
}
use mdp2p.Py.Value.{get_or, Fields, Value, with_field, null, obj}
use mdp2p.Trust.Store.{peers_of, write_peer, put_peer, peers_from, get_peer, peer_in}
use mdp2p.Py.Result.{Result, ok, ◌>>=◌, >>=-eq-ok, ok_injective}

-- The store holds a record for the peer.
unfoldable pub record_of : Fields → String → Result Value
record_of store pubkey = do peers ← peers_of store; ok (get_or peers pubkey null)

pub peers_of-put_peer :
    (store peers : Fields) (pubkey : String) (rec : Value)
    → peers_of (put_peer store peers pubkey rec) ≡ ok (with_field peers pubkey rec)
unfolding peers_of put_peer peers_from
peers_of-put_peer store peers pubkey rec =
    ap peers_from (get-with_field store "peers" "peers" (obj (with_field peers pubkey rec)))

-- One record has changed, to this value, and the others are as they were: `peers` is what the store
-- held before.
pub record IsUpdate (peers after : Fields) (pubkey : String) (rec : Value) : Type 0 where
  pub now_at : record_of after pubkey ≡ ok rec
  pub others_at :
      (other : String) → pubkey ≢ other → record_of after other ≡ ok (get_or peers other null)

pub record_of-peers :
    (store peers : Fields) (k : String)
    → peers_of store ≡ ok peers
    → record_of store k ≡ ok (get_or peers k null)
unfolding record_of
record_of-peers store peers k at = rw at refl

pub put_twice-IsUpdate :
    (store peers : Fields) (pubkey : String) (first rec : Value)
    → IsUpdate peers
        (put_peer (put_peer store peers pubkey first) (with_field peers pubkey first) pubkey rec)
        pubkey
        rec
put_twice-IsUpdate store peers pubkey first rec = record {
  now_at =
      at pubkey
      ∙ ap ok (get_or-with_field (with_field peers pubkey first) pubkey pubkey rec null ∙ chosen);
  others_at = λ other ne.
      at other
      ∙ ap ok (
          get_or-with_field (with_field peers pubkey first) pubkey other rec null
          ∙ ground (arith, eq_iff pubkey other, get_or-with_field peers pubkey other first null));
}
  where
    chosen :
        (if pubkey == pubkey then rec else get_or (with_field peers pubkey first) pubkey null) ≡ rec
    chosen = ground (arith, eq_refl pubkey)

    at :
        (k : String)
        → record_of
            (put_peer
              (put_peer store peers pubkey first)
              (with_field peers pubkey first)
              pubkey
              rec)
            k
          ≡ ok (get_or (with_field (with_field peers pubkey first) pubkey rec) k null)
    at k = record_of-peers _ _ k (peers_of-put_peer _ (with_field peers pubkey first) pubkey rec)

-- An operation reads the record of a peer, makes another of it and writes that one.
pub written-IsUpdate :
    (store after : Fields) (pubkey : String) (found : Value × Fields) (rec : Value)
    → get_peer store pubkey ≡ ok found
    → write_peer found.1 pubkey rec ≡ ok after
    → (peers : Fields) × (peers_of store ≡ ok peers)
      × (found.0 ≡ peer_in peers pubkey)
      × IsUpdate peers after pubkey rec
unfolding get_peer write_peer
written-IsUpdate store after pubkey found rec e w =
    let (peers, at, e₁) = >>=-eq-ok (peers_of store) _ e in
    let same = ok_injective _ _ e₁ in
    let (again, again_at, w₁) = >>=-eq-ok (peers_of found.1) _ w in
    let is_again : with_field peers pubkey (peer_in peers pubkey) ≡ again = ok_injective _ _ (
      sym (peers_of-put_peer store peers pubkey (peer_in peers pubkey))
      ∙ ap (λ r. peers_of r.1) same
      ∙ again_at) in
    let is_after : put_peer found.1 again pubkey rec ≡ after = ok_injective _ _ w₁ in
    (
      peers,
      at,
      ap (λ r. r.0) (sym same),
      subst (λ s. IsUpdate peers s pubkey rec)
          (ap (λ r. put_peer r.1 (with_field peers pubkey (peer_in peers pubkey)) pubkey rec) same
            ∙ ap (λ ps. put_peer found.1 ps pubkey rec) is_again
            ∙ is_after)
          (put_twice-IsUpdate store peers pubkey (peer_in peers pubkey) rec),
    )
