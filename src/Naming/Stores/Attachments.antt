-- ===== src/Naming/Stores/Attachments.antt =====
-- `AttachmentStore` of naming.py: content key ↦ reviewer ↦ signed review.
pub mod Laws
use mdp2p.Prelude.{not, ◌||◌, Option, none, some, List, String, if◌then◌else◌}
use mdp2p.Prelude.Int.{leb_ℤ}
use mdp2p.Py.Result.{Result, ok, raise, ◌>>=◌}
use mdp2p.Py.Value.{Value, str, get_attr, truthy, as_key}
use mdp2p.Dict.{Dict, lookup, insert, values, slot}
use mdp2p.Naming.Stores.Disk.{
  Entry, File, Outcome, stored, rejected, incomplete_review, not_newer, timestamp, load, save,
}

abbrev pub Attachments : Type 0
Attachments = Dict (Dict Entry)

pub record AttachmentStore : Type 0 where
  pub attachments : Attachments
  pub file : File Attachments

-- `AttachmentStore(path)`
unfoldable pub open_store : File Attachments → AttachmentStore
open_store f = record { attachments = load f; file = f }

-- `store.get_for(content_key)`
unfoldable pub get_for : AttachmentStore → String → List Entry
get_for s content_key = values (slot s.attachments content_key)

-- `slot[reviewer_pub] = (record, signature); self._save()`
unfoldable pub write : AttachmentStore → String → String → Entry → AttachmentStore
write s content_key reviewer e =
    let d = insert content_key (insert reviewer e (slot s.attachments content_key)) s.attachments in
    record { attachments = d; file = save d }

-- Whether the new review is later than the one that it would replace.
unfoldable pub check_newer : Option Entry → Value → Result Outcome
check_newer none rec = do new_ts ← timestamp rec; ok stored
check_newer (some e) rec = do
  new_ts ← timestamp rec
  old_ts ← timestamp e.rec
  ok (if leb_ℤ new_ts old_ts then rejected not_newer else stored)

-- `setdefault(content_key, {})` alone: a key that was not there gets an empty slot in memory.
unfoldable pub touch : AttachmentStore → String → AttachmentStore
touch s content_key = record s {
  attachments = insert content_key (slot s.attachments content_key) s.attachments;
}

unfoldable pub commit :
    AttachmentStore → String → String → Entry → Result Outcome → Result Outcome × AttachmentStore
commit s content_key reviewer e (ok stored) = (ok stored, write s content_key reviewer e)
commit s content_key reviewer e (ok (rejected r)) = (ok (rejected r), touch s content_key)
commit s content_key reviewer e (raise x) = (raise x, touch s content_key)

unfoldable pub attach_at :
    AttachmentStore → String → String → Value → Value → Result Outcome × AttachmentStore
attach_at s content_key reviewer rec signature =
    commit s content_key reviewer (record { rec = rec; signature = signature })
      (check_newer (lookup reviewer (slot s.attachments content_key)) rec)

unfoldable pub attach_under :
    AttachmentStore → Value → Value → Result (String × String) → Result Outcome × AttachmentStore
attach_under s rec signature (raise x) = (raise x, s)
attach_under s rec signature (ok (c, r)) = attach_at s c r rec signature

unfoldable pub attach_keyed :
    AttachmentStore → Value → Value → Value → Value → Result Outcome × AttachmentStore
attach_keyed s content_key reviewer rec signature =
    let keys : Result (String × String) = (do
      c ← as_key content_key
      r ← as_key reviewer
      ok (c, r)) in
    if not (truthy content_key) || not (truthy reviewer)
    then (ok (rejected incomplete_review), s)
    else attach_under s rec signature keys

unfoldable pub attach_fields :
    AttachmentStore → Value → Value → Result (Value × Value) → Result Outcome × AttachmentStore
attach_fields s rec signature (raise x) = (raise x, s)
attach_fields s rec signature (ok (content_key, reviewer)) =
    attach_keyed s content_key reviewer rec signature

-- `store.attach(record, signature)`
unfoldable pub attach : AttachmentStore → Value → Value → Result Outcome × AttachmentStore
attach s rec signature =
    let fields : Result (Value × Value) = (do
      content_key ← get_attr rec "content_key" (str "")
      reviewer ← get_attr rec "reviewer_public_key" (str "")
      ok (content_key, reviewer)) in
    attach_fields s rec signature fields
