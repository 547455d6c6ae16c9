-- ===== src/Naming/Stores/Reviewers/Laws.antt =====
-- What a write to the `ReviewerStore` of naming.py may change.
use mdp2p.Py.Value.Laws.{as_key-ok}
use mdp2p.Naming.Stores.Disk.{stored}
use mdp2p.Py.Value.{as_key}
use mdp2p.Prelude.{◌≡◌, refl, String, true, false, Bool, if◌then◌else◌, ap, not, ◌∙◌}
use mdp2p.Naming.Stores.Reviewers.{
  ReviewerStore, write, commit, set, set_at, set_keyed, Value, as_key, Result, Entry, get_attr, str,
  ok, Outcome, raise, rejected, truthy, set_under,
}

module _ (s : ReviewerStore) (rec signature : Value) where
  abbrev entry : Entry
  entry = record { rec = rec; signature = signature }

  -- The write under the key that the record names
  pub data Change : ReviewerStore → Type 0 where
    unchanged : Change s
    written :
        (key : String)
        → get_attr rec "public_key" (str "") ≡ ok (str key)
        → Change (write s key entry)

  commit-Change :
      (key : String) (o : Result Outcome)
      → get_attr rec "public_key" (str "") ≡ ok (str key)
      → Change (commit s key entry o).1
  unfolding commit
  commit-Change key (raise x) h = unchanged
  commit-Change key (ok (rejected r)) h = unchanged
  commit-Change key (ok stored) h = written key h

  if-Change :
      (b : Bool) (x y : Result Outcome × ReviewerStore)
      → Change x.1
      → Change y.1
      → Change (if b then x else y).1
  if-Change true x y h k = h
  if-Change false x y h k = k

  keyed-Change :
      (v : Value) (r : Result String)
      → as_key v ≡ r
      → get_attr rec "public_key" (str "") ≡ ok v
      → Change (set_under s rec signature r).1
  unfolding set_under set_at
  keyed-Change v (raise x) e h = unchanged
  keyed-Change v (ok key) e h = commit-Change key _ (h ∙ ap ok (as_key-ok v key e))

  pub set-Change : Change (set s rec signature).1
  unfolding set set_keyed
  set-Change = on_key (get_attr rec "public_key" (str "")) refl
    where
      on_key :
          (r : Result Value)
          → get_attr rec "public_key" (str "") ≡ r
          → Change (set_keyed s r rec signature).1
      on_key (raise x) h = unchanged
      on_key (ok v) h = if-Change (not (truthy v)) _ _ unchanged (keyed-Change v (as_key v) refl h)
