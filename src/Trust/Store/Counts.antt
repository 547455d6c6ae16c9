-- ===== src/Trust/Store/Counts.antt =====
-- Confirmed and disputed signals, counted: the balance from which a peer's weight is learned.
use mdp2p.Trust.Store.Laws.{IsUpdate, peers_of-put_peer, put_twice-IsUpdate}
use mdp2p.Py.Number.{to_int}
use mdp2p.Prelude.{
  ◌≡◌, String, arith, ◌==◌, refl, false, suc, zero, if◌then◌else◌, ◌∙◌, Bool, ap, true,
}
use mdp2p.Trust.Store.{
  count_signal, record_confirmed, get_peer, record_disputed, write_peer, peers_of, peer_in,
  set_item,
}
use mdp2p.Trust.Floats.{Floats}
use mdp2p.Trust.Scorer.{balance}
use mdp2p.Prelude.Int.{ℤ, pos, negsuc, minus_ℤ, succ_ℤ}
use mdp2p.Py.Value.{
  bool, int, float, str, arr, obj, null, get_attr, get_or, Fields, Value, with_field,
}
use mdp2p.Py.Value.Laws.{get_or-with_field}
use mdp2p.Py.Result.{Result, ok, >>=-eq-ok, ok_injective}

unfoldable pub pred_ℤ : ℤ → ℤ
pred_ℤ z = minus_ℤ z (pos 1)

minus_ℤ-succ : (c d : ℤ) → minus_ℤ (succ_ℤ c) d ≡ succ_ℤ (minus_ℤ c d)
unfolding minus_ℤ succ_ℤ
minus_ℤ-succ (pos n) (pos m) = ground arith
minus_ℤ-succ (pos n) (negsuc m) = ground arith
minus_ℤ-succ (negsuc zero) (pos m) = ground arith
minus_ℤ-succ (negsuc zero) (negsuc m) = ground arith
minus_ℤ-succ (negsuc (suc n)) (pos m) = ground arith
minus_ℤ-succ (negsuc (suc n)) (negsuc m) = ground arith

minus_ℤ-pred : (c d : ℤ) → minus_ℤ c (succ_ℤ d) ≡ pred_ℤ (minus_ℤ c d)
unfolding minus_ℤ succ_ℤ pred_ℤ
minus_ℤ-pred (pos n) (pos m) = ground arith
minus_ℤ-pred (negsuc n) (pos m) = ground arith
minus_ℤ-pred (pos n) (negsuc zero) = ground arith
minus_ℤ-pred (negsuc n) (negsuc zero) = ground arith
minus_ℤ-pred (pos n) (negsuc (suc m)) = ground arith
minus_ℤ-pred (negsuc n) (negsuc (suc m)) = ground arith

-- A counter of a record, as an integer
abbrev counter_at : Fields → String → Result ℤ
counter_at fs counter = to_int (get_or fs counter (int (pos 0)))

counted : Fields → String → ℤ → ℤ → Fields
counted fs counter n now = with_field (with_field fs counter (int (succ_ℤ n))) "last_seen" (int now)

count_signal-IsUpdate :
    (counter : String) (store peers : Fields) (pubkey : String) (now : ℤ) (fs : Fields) (n : ℤ)
    → peers_of store ≡ ok peers
    → peer_in peers pubkey ≡ obj fs
    → counter_at fs counter ≡ ok n
    → (after : Fields) × (count_signal counter store pubkey now ≡ ok after)
      × IsUpdate peers after pubkey (obj (counted fs counter n now))
unfolding count_signal get_peer write_peer set_item get_attr counted
count_signal-IsUpdate counter store peers pubkey now fs n at is n_at = (
  _,
  rw (at, is, n_at, peers_of-put_peer store peers pubkey (obj fs)) refl,
  put_twice-IsUpdate store peers pubkey (obj fs) (obj (counted fs counter n now)),
)

module _ (f : Floats) where
  unfoldable IsBalance : Fields → ℤ → Type 0
  IsBalance fs z =
      (c : ℤ) × (d : ℤ) × (counter_at fs "confirmed_signals" ≡ ok c)
      × (counter_at fs "disputed_signals" ≡ ok d)
      × (minus_ℤ c d ≡ z)

  balance-obj :
      (v : Value) (z : ℤ) → balance f v ≡ ok z → (fs : Fields) × (v ≡ obj fs) × IsBalance fs z
  unfolding balance get_attr IsBalance
  balance-obj (obj fs) z e =
      let (c, c_at, e₁) = >>=-eq-ok (counter_at fs "confirmed_signals") _ e in
      let (d, d_at, e₂) = >>=-eq-ok (counter_at fs "disputed_signals") _ e₁ in
      (fs, refl, (c, d, c_at, d_at, ok_injective _ _ e₂))
  balance-obj null z e = cc
  balance-obj (bool b) z e = cc
  balance-obj (int n) z e = cc
  balance-obj (float r t) z e = cc
  balance-obj (str s) z e = cc
  balance-obj (arr xs) z e = cc

  counter_at-counted :
      (fs : Fields) (counter other : String) (n now m : ℤ)
      → counter_at fs other ≡ ok m
      → ("last_seen" == other) ≡ false
      → counter_at (counted fs counter n now) other
        ≡ (if counter == other then ok (succ_ℤ n) else ok m)
  unfolding counted to_int
  counter_at-counted fs counter other n now m m_at ne =
      rw
        (
          get_or-with_field (with_field fs counter (int (succ_ℤ n))) "last_seen" other (int now)
              (int (pos 0)),
          ne,
          get_or-with_field fs counter other (int (succ_ℤ n)) (int (pos 0)),
        )
        (choose (counter == other))
    where
      choose :
          (b : Bool)
          → to_int (if b then int (succ_ℤ n) else get_or fs other (int (pos 0)))
            ≡ (if b then ok (succ_ℤ n) else ok m)
      choose true = refl
      choose false = m_at

  balance-counters :
      (fs : Fields) (c d : ℤ)
      → counter_at fs "confirmed_signals" ≡ ok c
      → counter_at fs "disputed_signals" ≡ ok d
      → balance f (obj fs) ≡ ok (minus_ℤ c d)
  unfolding balance get_attr
  balance-counters fs c d c_at d_at = rw (c_at, d_at) refl

  -- The record of the peer is this one, the balance is this, and the other records are as they were.
  pub record IsTallied (peers after : Fields) (pubkey : String) (z : ℤ) : Type 0 where
    pub rec : Value
    pub update : IsUpdate peers after pubkey rec
    pub balanced : balance f rec ≡ ok z

  -- A confirmed signal always counts where the peer has a balance, a peer that is new to the store
  -- included: the balance goes up by one, and the records of all other peers stay. A disputed one
  -- counts as well, and the balance goes down by one.
  pub record_confirmed-balance :
      (store peers : Fields) (pubkey : String) (now z : ℤ)
      → peers_of store ≡ ok peers
      → balance f (peer_in peers pubkey) ≡ ok z
      → ((after : Fields) × (record_confirmed store pubkey now ≡ ok after)
          × IsTallied peers after pubkey (succ_ℤ z))
        × ((after : Fields) × (record_disputed store pubkey now ≡ ok after)
            × IsTallied peers after pubkey (pred_ℤ z))
  unfolding record_confirmed record_disputed IsBalance
  record_confirmed-balance store peers pubkey now z at e =
      let (fs, is, (c, d, c_at, d_at, same)) = balance-obj (peer_in peers pubkey) z e in
      let (up, up_at, up_is) =
        count_signal-IsUpdate "confirmed_signals" store peers pubkey now fs c at is c_at in
      let (down, down_at, down_is) =
        count_signal-IsUpdate "disputed_signals" store peers pubkey now fs d at is d_at in
      (
        (
          up,
          up_at,
          record {
            rec = obj (counted fs "confirmed_signals" c now);
            update = up_is;
            balanced =
                balance-counters (counted fs "confirmed_signals" c now) (succ_ℤ c) d
                  (counter_at-counted fs "confirmed_signals" "confirmed_signals" c now c c_at refl)
                  (counter_at-counted fs "confirmed_signals" "disputed_signals" c now d d_at refl)
                ∙ ap ok (minus_ℤ-succ c d ∙ ap succ_ℤ same);
          },
        ),
        (
          down,
          down_at,
          record {
            rec = obj (counted fs "disputed_signals" d now);
            update = down_is;
            balanced =
                balance-counters (counted fs "disputed_signals" d now) c (succ_ℤ d)
                  (counter_at-counted fs "disputed_signals" "confirmed_signals" d now c c_at refl)
                  (counter_at-counted fs "disputed_signals" "disputed_signals" d now d d_at refl)
                ∙ ap ok (minus_ℤ-pred c d ∙ ap pred_ℤ same);
          },
        ),
      )
