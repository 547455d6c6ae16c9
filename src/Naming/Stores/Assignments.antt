-- ===== src/Naming/Stores/Assignments.antt =====
-- `AssignmentStore` of naming.py: reviewer ↦ content key ↦ signed assignment.
pub mod Laws
use mdp2p.Prelude.{Bool, not, ◌||◌, Option, none, some, List, String, if◌then◌else◌}
use mdp2p.Prelude.Int.{ℤ, leb_ℤ}
use mdp2p.Py.Result.{Result, ok, raise, type_error, ◌>>=◌}
use mdp2p.Py.Value.{Value, Items, null, arr, str, nil, cons, get_attr, truthy, as_key}
use mdp2p.Dict.{Dict, lookup, insert, values, slot}
use mdp2p.Naming.Stores.Disk.{
  Entry, File, Outcome, stored, rejected, incomplete_assignment, timestamp, load, save,
}

abbrev pub Inbox : Type 0
Inbox = Dict (Dict Entry)

pub record AssignmentStore : Type 0 where
  pub inbox : Inbox
  pub file : File Inbox

-- `AssignmentStore(path)`
unfoldable pub open_store : File Inbox → AssignmentStore
open_store f = record { inbox = load f; file = f }

-- `store.list_for(reviewer_pubkey)`
unfoldable pub list_for : AssignmentStore → String → List Entry
list_for s reviewer = values (slot s.inbox reviewer)

unfoldable pub rec_of : Option Entry → Option Value
rec_of none = none
rec_of (some e) = some e.rec

-- `store.get(reviewer_pubkey, content_key)`
unfoldable pub get : AssignmentStore → String → String → Option Value
get s reviewer content_key = rec_of (lookup content_key (slot s.inbox reviewer))

-- `slot[content_key] = (record, signature)` after `slot = self._inbox.setdefault(reviewer_pub, {})`
unfoldable pub place : String → Entry → String → Inbox → Inbox
place content_key e reviewer inbox =
    insert reviewer (insert content_key e (slot inbox reviewer)) inbox

-- Keep the entry that is there if it is as recent as the new one.
unfoldable pub keep_newer :
    String → Entry → ℤ → String → Inbox → Result ℤ → Result (Unit {0}) × Inbox
keep_newer content_key e new_ts reviewer inbox (raise x) = (raise x, inbox)
keep_newer content_key e new_ts reviewer inbox (ok old_ts) =
    (ok tt, if leb_ℤ new_ts old_ts then inbox else place content_key e reviewer inbox)

unfoldable pub add_over :
    String → Entry → ℤ → String → Inbox → Option Entry → Result (Unit {0}) × Inbox
add_over content_key e new_ts reviewer inbox none = (ok tt, place content_key e reviewer inbox)
add_over content_key e new_ts reviewer inbox (some old) =
    keep_newer content_key e new_ts reviewer inbox (timestamp old.rec)

-- The body of the loop for one reviewer.
unfoldable pub add_one : String → Entry → ℤ → String → Inbox → Result (Unit {0}) × Inbox
add_one content_key e new_ts reviewer inbox =
    add_over content_key e new_ts reviewer inbox (lookup content_key (slot inbox reviewer))

unfoldable pub add_for : String → Entry → ℤ → Inbox → Result String → Result (Unit {0}) × Inbox
add_for content_key e new_ts inbox (raise x) = (raise x, inbox)
add_for content_key e new_ts inbox (ok reviewer) = add_one content_key e new_ts reviewer inbox

unfoldable pub and_then :
    Result (Unit {0}) × Inbox → (Inbox → Result (Unit {0}) × Inbox) → Result (Unit {0}) × Inbox
and_then (ok _, inbox) rest = rest inbox
and_then (raise x, inbox) rest = (raise x, inbox)

-- `for reviewer_pub in reviewer_pubkeys`
unfoldable pub add_all : String → Entry → ℤ → Items → Inbox → Result (Unit {0}) × Inbox
add_all content_key e new_ts nil inbox = (ok tt, inbox)
add_all content_key e new_ts (cons v vs) inbox =
    and_then (add_for content_key e new_ts inbox (as_key v)) (add_all content_key e new_ts vs)

-- `_save()` if the loop came to its end
unfoldable pub finish :
    AssignmentStore → Result (Unit {0}) × Inbox → Result Outcome × AssignmentStore
finish s (ok _, inbox) = (ok stored, record { inbox = inbox; file = save inbox })
finish s (raise x, inbox) = (raise x, record s { inbox = inbox })

-- `record.get("reviewer_public_keys") or []`, as the list that the loop goes through. (Python also
-- goes through a text or a dictionary; verification lets only a list through.)
unfoldable pub reviewers_of : Value → Result Items
reviewers_of (arr xs) = ok xs
reviewers_of v = if truthy v then raise type_error else ok nil

unfoldable pub add_under :
    AssignmentStore → Entry → Items → Result (String × ℤ) → Result Outcome × AssignmentStore
add_under s entry reviewers (raise x) = (raise x, s)
add_under s entry reviewers (ok (key, new_ts)) =
    finish s (add_all key entry new_ts reviewers s.inbox)

unfoldable pub add_to :
    AssignmentStore → Value → Value → Value → Items → Result Outcome × AssignmentStore
add_to s rec signature content_key reviewers =
    let entry : Entry = record { rec = rec; signature = signature } in
    let missing : Bool = not (truthy content_key) || not (truthy (arr reviewers)) in
    let both : Result (String × ℤ) = (do
      new_ts ← timestamp rec
      key ← as_key content_key
      ok (key, new_ts)) in
    if missing then (ok (rejected incomplete_assignment), s) else add_under s entry reviewers both

unfoldable pub add_fields :
    AssignmentStore → Value → Value → Result (Value × Items) → Result Outcome × AssignmentStore
add_fields s rec signature (raise x) = (raise x, s)
add_fields s rec signature (ok (content_key, reviewers)) =
    add_to s rec signature content_key reviewers

-- `store.add(record, signature)`
unfoldable pub add : AssignmentStore → Value → Value → Result Outcome × AssignmentStore
add s rec signature =
    let fields : Result (Value × Items) = (do
      content_key ← get_attr rec "content_key" (str "")
      v ← get_attr rec "reviewer_public_keys" null
      reviewers ← reviewers_of v
      ok (content_key, reviewers)) in
    add_fields s rec signature fields
