-- ===== src/Naming/Stores/Names/Laws.antt =====
-- What a write to the `NameStore` of naming.py may change.
use mdp2p.Py.Result.{>>=-eq-ok, ok_injective}
use mdp2p.Py.Json.{same_value}
use mdp2p.Dict.Laws.{lookup-insert_ne, lookup-insert_self}
use mdp2p.Naming.Stores.Disk.{Refusal, timestamp}
use mdp2p.Py.Value.{str}
use mdp2p.Prelude.{
  ◌≡◌, ◌≢◌, refl, ◌⊎◌, inl, inr, String, some, Bool, arith, subst, sym, Bool-cases, ◌==◌, eq_iff,
  ◌∙◌, true, if◌then◌else◌, ap, false,
}
use mdp2p.Prelude.Int.{ℤ, ◌≤ℤ◌}
use mdp2p.Naming.Stores.Names.{
  NameStore, get, check_update, check_set, write, commit, set, Entry, same_value, Value, get_attr,
  ok, null, stored, Result, Outcome, raise, rejected, not,
}

-- The record under an address, the text that it names as its public key, and its time stamp.
pub record IsBound (store : NameStore) (uri key : String) (t : ℤ) : Type 0 where
  pub entry : Entry
  pub found : get store uri ≡ some entry
  pub owner : get_attr entry.rec "public_key" null ≡ ok (str key)
  pub stamped : timestamp entry.rec ≡ ok t

-- A write is refused, and changes nothing, or it passed the test over the record that is there.
pub set-cases :
    (s : NameStore) (uri : String) (rec signature : Value)
    → ((set s uri rec signature).1 ≡ s)
      ⊎ ((check_set s uri rec ≡ ok stored)
          × ((set s uri rec signature).1
              ≡ write s uri (record { rec = rec; signature = signature })))
unfolding set commit
set-cases s uri rec signature = commit-cases (check_set s uri rec)
  where
    commit-cases :
        (o : Result Outcome)
        → ((commit s uri (record { rec = rec; signature = signature }) o).1 ≡ s)
          ⊎ ((o ≡ ok stored)
              × ((commit s uri (record { rec = rec; signature = signature }) o).1
                  ≡ write s uri (record { rec = rec; signature = signature })))
    commit-cases (raise x) = inl refl
    commit-cases (ok (rejected x)) = inl refl
    commit-cases (ok stored) = inr (refl, refl)

same_key : (k : String) (v : Value) → same_value (str k) v ≡ true → v ≡ str k
unfolding same_value
same_key k (str j) h = ap str (sym ((eq_iff k j).0 h))
same_key k null h = cc
same_key k _ h = cc

unless-rejected :
    (b : Bool) (r : Refusal) (next : Result Outcome)
    → (if not b then ok (rejected r) else next) ≡ ok stored
    → (b ≡ true) × (next ≡ ok stored)
unless-rejected true r next h = (refl, h)
unless-rejected false r next h = absurd (ground arith)

-- A write over a record that is there has its public key and a later time stamp.
check_update-IsBound :
    (existing rec : Value) (key : String) (t : ℤ)
    → get_attr existing "public_key" null ≡ ok (str key)
    → timestamp existing ≡ ok t
    → check_update existing rec ≡ ok stored
    → (t' : ℤ) × (get_attr rec "public_key" null ≡ ok (str key))
      × (timestamp rec ≡ ok t')
      × (t ≤ℤ t')
unfolding check_update
check_update-IsBound existing rec key t owner stamped h =
    let (old_key, old_at, h₁) = >>=-eq-ok (get_attr existing "public_key" null) _ h in
    let (new_key, new_at, h₂) = >>=-eq-ok (get_attr rec "public_key" null) _ h₁ in
    let (same, h₃) = unless-rejected (same_value old_key new_key) _ _ h₂ in
    let (t₀, t₀_at, h₄) = >>=-eq-ok (timestamp existing) _ h₃ in
    let (t', t'_at, h₅) = >>=-eq-ok (timestamp rec) _ h₄ in
    let old_is : old_key ≡ str key = ok_injective _ _ (sym old_at ∙ owner) in
    let t₀_is : t₀ ≡ t = ok_injective _ _ (sym t₀_at ∙ stamped) in
    (
      t',
      new_at ∙ ap ok (same_key key new_key (subst (λ v. same_value v new_key ≡ true) old_is same)),
      t'_at,
      subst (λ z. z ≤ℤ t') t₀_is (ground arith),
    )

-- What a write that passed its test leaves at its own address.
write-IsBound :
    (s : NameStore) (uri : String) (rec signature : Value) (key : String) (t : ℤ)
    → IsBound s uri key t
    → check_set s uri rec ≡ ok stored
    → (t' : ℤ) × (t ≤ℤ t')
      × IsBound (write s uri (record { rec = rec; signature = signature })) uri key t'
unfolding check_set write get
write-IsBound s uri rec signature key t b h =
    let passed : check_update b.entry.rec rec ≡ ok stored = ground (arith, b.found) in
    let (t', owner, stamped, later) =
      check_update-IsBound b.entry.rec rec key t b.owner b.stamped passed in
    (
      t',
      later,
      record {
        entry = record { rec = rec; signature = signature };
        found = lookup-insert_self uri _ s.records;
        owner = owner;
        stamped = stamped;
      },
    )

write-IsBound_ne :
    (s : NameStore) (uri at key : String) (e : Entry) (t : ℤ)
    → uri ≢ at
    → IsBound s at key t
    → IsBound (write s uri e) at key t
unfolding write get
write-IsBound_ne s uri at key e t other b = record {
  entry = b.entry;
  found = lookup-insert_ne uri at e s.records other ∙ b.found;
  owner = b.owner;
  stamped = b.stamped;
}

-- A write anywhere keeps the owner of an address, and its time stamp only grows.
pub set-IsBound :
    (s : NameStore) (uri : String) (rec signature : Value) (at key : String) (t : ℤ)
    → IsBound s at key t
    → (t' : ℤ) × (t ≤ℤ t') × IsBound (set s uri rec signature).1 at key t'
set-IsBound s uri rec signature at key t b = elim (set-cases s uri rec signature) [
  | inl e ↦ (t, omega arith, subst (λ s'. IsBound s' at key t) (sym e) b)
  | inr (h, e) ↦
      subst (λ s'. (t' : ℤ) × (t ≤ℤ t') × IsBound s' at key t') (sym e)
        (elim (Bool-cases (uri == at)) [
          | inl same ↦
              let here : uri ≡ at = (eq_iff uri at).0 same in
              subst
                (λ a.
                  (t' : ℤ) × (t ≤ℤ t')
                  × IsBound (write s uri (record { rec = rec; signature = signature })) a key t')
                here
                (write-IsBound s uri rec signature key t
                  (subst (λ a. IsBound s a key t) (sym here) b) h)
          | inr other ↦ (
            t,
            omega arith,
            write-IsBound_ne s uri at key _ t (λ e'. ground (arith, eq_iff uri at)) b,
          )
        ])
]
