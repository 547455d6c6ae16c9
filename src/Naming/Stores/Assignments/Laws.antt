-- ===== src/Naming/Stores/Assignments/Laws.antt =====
-- What a write to the `AssignmentStore` of naming.py may change.
use mdp2p.Py.Result.{>>=-eq-ok}
use mdp2p.Py.Value.{has_str, nil}
use mdp2p.Prelude.{
  ◌≡◌, refl, true, false, arith, String, Bool, Option, if◌then◌else◌, subst, eq_refl, some, none,
  sym, ◌∙◌, ap,
}
use mdp2p.Naming.Stores.Assignments.{
  AssignmentStore, add, add_all, add_for, add_one, add_over, keep_newer, and_then, finish,
  add_under, add_to, add_fields, Entry, Value, Result, ℤ, Items, get_attr, Inbox, Outcome, as_key,
  raise, ok, str, cons, place, leb_ℤ, ◌>>=◌, null, lookup, timestamp, reviewers_of, slot,
}
use mdp2p.Py.Value.Laws.{as_key-ok}

-- The changes that the loop makes to an inbox: entries placed for reviewers of the list.
pub data Placed (content_key : String) (e : Entry) (reviewers : Items)
    : Inbox → Inbox → Type 0 where
  none_placed : {inbox : Inbox} → Placed content_key e reviewers inbox inbox
  placed :
      {inbox inbox' : Inbox} (reviewer : String)
      → has_str reviewers reviewer ≡ true
      → Placed content_key e reviewers (place content_key e reviewer inbox) inbox'
      → Placed content_key e reviewers inbox inbox'

has_str-cons :
    (v : Value) (rs : Items) (r : String) → has_str rs r ≡ true → has_str (cons v rs) r ≡ true
unfolding has_str
has_str-cons (str s) rs r h = ground (arith, h)
has_str-cons null rs r h = h
has_str-cons _ rs r h = h

module _ (content_key : String) (e : Entry) where
  trans :
      {rs : Items} {a b c : Inbox}
      → Placed content_key e rs a b
      → Placed content_key e rs b c
      → Placed content_key e rs a c
  trans none_placed k = k
  trans (placed r h rest) k = placed r h (trans rest k)

  -- From a list to a longer one
  more :
      (v : Value) {rs : Items} {a b : Inbox}
      → Placed content_key e rs a b
      → Placed content_key e (cons v rs) a b
  more v none_placed = none_placed
  more v {rs} (placed r h rest) = placed r (has_str-cons v rs r h) (more v rest)

  one :
      (r : String) (rs : Items) (inbox : Inbox)
      → Placed content_key e (cons (str r) rs) inbox (place content_key e r inbox)
  unfolding has_str
  one r rs inbox = placed r (ground (arith, eq_refl r)) none_placed

  module _ (new_ts : ℤ) where
    if-Placed :
        (b : Bool) {rs : Items} {a x y : Inbox}
        → Placed content_key e rs a x
        → Placed content_key e rs a y
        → Placed content_key e rs a (if b then x else y)
    if-Placed true h k = h
    if-Placed false h k = k

    keep_newer-Placed :
        (r : String) (rs : Items) (inbox : Inbox) (old : Result ℤ)
        → Placed content_key e
            (cons (str r) rs)
            inbox
            (keep_newer content_key e new_ts r inbox old).1
    unfolding keep_newer
    keep_newer-Placed r rs inbox (raise x) = none_placed
    keep_newer-Placed r rs inbox (ok old_ts) =
        if-Placed (leb_ℤ new_ts old_ts) none_placed (one r rs inbox)

    add_over-Placed :
        (r : String) (rs : Items) (inbox : Inbox) (o : Option Entry)
        → Placed content_key e (cons (str r) rs) inbox (add_over content_key e new_ts r inbox o).1
    unfolding add_over
    add_over-Placed r rs inbox none = one r rs inbox
    add_over-Placed r rs inbox (some old) = keep_newer-Placed r rs inbox (timestamp old.rec)

    add_for-Placed :
        (v : Value) (rs : Items) (inbox : Inbox) (k : Result String)
        → as_key v ≡ k
        → Placed content_key e (cons v rs) inbox (add_for content_key e new_ts inbox k).1
    unfolding add_for add_one
    add_for-Placed v rs inbox (raise x) h = none_placed
    add_for-Placed v rs inbox (ok r) h =
        subst
          (λ w.
            Placed content_key e (cons w rs) inbox
              (add_over content_key e new_ts r inbox (lookup content_key (slot inbox r))).1)
          (sym (as_key-ok v r h)) (add_over-Placed r rs inbox _)

    and_then-Placed :
        (x : Result (Unit {0}) × Inbox) (next : Inbox → Result (Unit {0}) × Inbox) {rs : Items}
        {a : Inbox}
        → Placed content_key e rs a x.1
        → ((b : Inbox) → Placed content_key e rs b (next b).1)
        → Placed content_key e rs a (and_then x next).1
    unfolding and_then
    and_then-Placed (raise x, b) next h k = h
    and_then-Placed (ok u, b) next h k = trans h (k b)

    add_all-Placed :
        (rs : Items) (inbox : Inbox)
        → Placed content_key e rs inbox (add_all content_key e new_ts rs inbox).1
    unfolding add_all
    add_all-Placed nil inbox = none_placed
    add_all-Placed (cons v rs) inbox =
        and_then-Placed _ _ (add_for-Placed v rs inbox (as_key v) refl)
          (λ b. more v (add_all-Placed rs b))

module _ (s : AssignmentStore) (rec signature : Value) where
  -- The inbox after a call of `add`: entries placed for the reviewers of the record, under its content
  -- key.
  pub data Change : AssignmentStore → Type 0 where
    unchanged : Change s
    added :
        (content_key : String) (v : Value) (reviewers : Items) (s' : AssignmentStore)
        → get_attr rec "content_key" (str "") ≡ ok (str content_key)
        → get_attr rec "reviewer_public_keys" null ≡ ok v
        → reviewers_of v ≡ ok reviewers
        → Placed content_key
            (record { rec = rec; signature = signature })
            reviewers
            s.inbox
            s'.inbox
        → Change s'

  if-Change :
      (b : Bool) (x y : Result Outcome × AssignmentStore)
      → Change x.1
      → Change y.1
      → Change (if b then x else y).1
  if-Change true x y h k = h
  if-Change false x y h k = k

  finish-inbox : (x : Result (Unit {0}) × Inbox) → (finish s x).1.inbox ≡ x.1
  unfolding finish
  finish-inbox (ok u, inbox) = refl
  finish-inbox (raise e, inbox) = refl

  module _ (c v : Value) (rs : Items) (content_at : get_attr rec "content_key" (str "") ≡ ok c)
      (reviewers_at : get_attr rec "reviewer_public_keys" null ≡ ok v)
      (list_of : reviewers_of v ≡ ok rs) where
    under-Change :
        (both : Result (String × ℤ))
        → (timestamp rec >>= λ t. as_key c >>= λ k. ok (k, t)) ≡ both
        → Change (add_under s (record { rec = rec; signature = signature }) rs both).1
    unfolding add_under
    under-Change (raise x) h = unchanged
    under-Change (ok (k, t)) h =
        let (t', t_at, h') = >>=-eq-ok (timestamp rec) _ h in
        let (k', k_at, h'') = >>=-eq-ok (as_key c) _ h' in
        added k v rs _ (content_at ∙ ap ok (as_key-ok c k (ground (arith, k_at, h'')))) reviewers_at
          list_of
          (subst (Placed k _ rs s.inbox) (sym (finish-inbox _)) (add_all-Placed k _ t rs s.inbox))

    to-Change : Change (add_to s rec signature c rs).1
    unfolding add_to
    to-Change = if-Change _ _ _ unchanged (under-Change _ refl)

  fields-Change :
      (fields : Result (Value × Items))
      → (get_attr rec "content_key" (str "") >>= λ c.
          get_attr rec "reviewer_public_keys" null >>= λ v. reviewers_of v >>= λ rs. ok (c, rs))
        ≡ fields
      → Change (add_fields s rec signature fields).1
  unfolding add_fields
  fields-Change (raise x) h = unchanged
  fields-Change (ok (c, rs)) h =
      let (c', c_at, h₁) = >>=-eq-ok (get_attr rec "content_key" (str "")) _ h in
      let (v, v_at, h₂) = >>=-eq-ok (get_attr rec "reviewer_public_keys" null) _ h₁ in
      let (rs', rs_at, h₃) = >>=-eq-ok (reviewers_of v) _ h₂ in
      to-Change c v rs (ground (arith, c_at, h₃)) v_at (ground (arith, rs_at, h₃))

  pub add-Change : Change (add s rec signature).1
  unfolding add
  add-Change = fields-Change _ refl
