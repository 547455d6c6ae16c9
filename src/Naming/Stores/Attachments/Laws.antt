-- ===== src/Naming/Stores/Attachments/Laws.antt =====
-- What a write to the `AttachmentStore` of naming.py may change.
use mdp2p.Naming.Stores.Disk.{stored}
use mdp2p.Py.Result.{>>=-eq-ok}
use mdp2p.Prelude.{◌≡◌, refl, true, false, arith, Bool, String, if◌then◌else◌, ◌∙◌, ap}
use mdp2p.Naming.Stores.Attachments.{
  AttachmentStore, write, touch, commit, attach, attach_at, attach_under, attach_keyed,
  attach_fields, Value, Result, get_attr, Entry, Outcome, str, ok, ◌>>=◌, raise, as_key, rejected,
}
use mdp2p.Py.Value.Laws.{as_key-ok}

module _ (s : AttachmentStore) (rec signature : Value) where
  abbrev entry : Entry
  entry = record { rec = rec; signature = signature }

  -- The write under the two keys that the record names, or the empty slot that a refused one leaves
  pub data Change : AttachmentStore → Type 0 where
    unchanged : Change s
    touched : (content_key : String) → Change (touch s content_key)
    written :
        (content_key reviewer : String)
        → get_attr rec "content_key" (str "") ≡ ok (str content_key)
        → get_attr rec "reviewer_public_key" (str "") ≡ ok (str reviewer)
        → Change (write s content_key reviewer entry)

  if-Change :
      (b : Bool) (x y : Result Outcome × AttachmentStore)
      → Change x.1
      → Change y.1
      → Change (if b then x else y).1
  if-Change true x y h k = h
  if-Change false x y h k = k

  module _ (c r : Value) (content_at : get_attr rec "content_key" (str "") ≡ ok c)
      (reviewer_at : get_attr rec "reviewer_public_key" (str "") ≡ ok r) where
    commit-Change :
        (ck rk : String) (o : Result Outcome)
        → c ≡ str ck
        → r ≡ str rk
        → Change (commit s ck rk entry o).1
    unfolding commit
    commit-Change ck rk (raise x) e f = touched ck
    commit-Change ck rk (ok (rejected x)) e f = touched ck
    commit-Change ck rk (ok stored) e f =
        written ck rk (content_at ∙ ap ok e) (reviewer_at ∙ ap ok f)

    under-Change :
        (keys : Result (String × String))
        → (as_key c >>= λ ck. as_key r >>= λ rk. ok (ck, rk)) ≡ keys
        → Change (attach_under s rec signature keys).1
    unfolding attach_under attach_at
    under-Change (raise x) h = unchanged
    under-Change (ok (ck, rk)) h =
        let (ck', c_at, h') = >>=-eq-ok (as_key c) _ h in
        let (rk', r_at, h'') = >>=-eq-ok (as_key r) _ h' in
        commit-Change ck rk _ (as_key-ok c ck (ground (arith, c_at, h'')))
          (as_key-ok r rk (ground (arith, r_at, h'')))

    keyed-Change : Change (attach_keyed s c r rec signature).1
    unfolding attach_keyed
    keyed-Change = if-Change _ _ _ unchanged (under-Change _ refl)

  fields-Change :
      (fields : Result (Value × Value))
      → (get_attr rec "content_key" (str "") >>= λ c.
          get_attr rec "reviewer_public_key" (str "") >>= λ r. ok (c, r))
        ≡ fields
      → Change (attach_fields s rec signature fields).1
  unfolding attach_fields
  fields-Change (raise x) h = unchanged
  fields-Change (ok (c, r)) h =
      let (c', c_at, h') = >>=-eq-ok (get_attr rec "content_key" (str "")) _ h in
      let (r', r_at, h'') = >>=-eq-ok (get_attr rec "reviewer_public_key" (str "")) _ h' in
      keyed-Change c r (ground (arith, c_at, h'')) (ground (arith, r_at, h''))

  pub attach-Change : Change (attach s rec signature).1
  unfolding attach
  attach-Change = fields-Change _ refl
