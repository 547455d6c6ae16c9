-- ===== src/Naming/Reviews.antt =====
-- The handlers of naming.py for assignments and reviews, with the rules of `strict_reviews`.
use mdp2p.Prelude.{
  ℕ, suc, Bool, false, not, ◌||◌, Option, none, some, List, [], ◌∷◌, String, ◌==◌, length, ltb,
  if◌then◌else◌,
}
use mdp2p.Prelude.Int.{ℤ, pos, ltb_ℤ}
use mdp2p.Platform.{Platform}
use mdp2p.Py.Result.{Result, ok, raise, ◌>>=◌, ◌>>◌}
use mdp2p.Py.Value.{
  Value, Items, Fields, null, int, str, nil, cons, get_or, get_attr, truthy, as_key, read_key,
  slice,
}
use mdp2p.Py.Number.{to_int}
use mdp2p.Review.Record.{verify_review_assignment, verify_review_record, max_review_drift_seconds}
use mdp2p.Naming.Stores.Disk.{Entry, timestamp}
use mdp2p.Naming.Stores.Reviewers
use mdp2p.Naming.Stores.Reviewers.{ReviewerStore}
use mdp2p.Naming.Stores.Assignments
use mdp2p.Naming.Stores.Assignments.{AssignmentStore, reviewers_of}
use mdp2p.Naming.Stores.Attachments
use mdp2p.Naming.Stores.Attachments.{AttachmentStore}
use mdp2p.Naming.Messages.{
  ServerError, inbox_disabled, attachments_disabled, too_many_reviewers, duplicate_reviewer,
  unknown_reviewers, no_assignment_inbox, not_assigned, after_deadline, reviewer_key_required,
  content_key_required, Response, ok_content_key, assignments, attachments,
}
use mdp2p.Naming.Server.{NamingServer, Reply, refuse, answer, with_record, if_valid, if_stored}

abbrev pub max_reviewers_per_assignment : ℕ
max_reviewers_per_assignment = 16

-- The reviewers of a record as dictionary keys; an unhashable one raises.
unfoldable pub keys_of : Items → Result (List String)
keys_of nil = ok []
keys_of (cons v vs) = do k ← as_key v; ks ← keys_of vs; ok (k ∷ ks)

unfoldable pub mem : String → List String → Bool
mem k [] = false
mem k (j ∷ js) = j == k || mem k js

-- `len(set(ks)) != len(ks)`
unfoldable pub has_duplicate : List String → Bool
has_duplicate [] = false
has_duplicate (k ∷ ks) = mem k ks || has_duplicate ks

-- `[r for r in ks if self.reviewer_store.get(r) is None]`
unfoldable pub unknown : ReviewerStore → List String → List String
unknown store [] = []
unknown store (k ∷ ks) =
    let rest = unknown store ks in elim (Reviewers.get store k) [ none ↦ k ∷ rest | some e ↦ rest ]

unfoldable pub check_known : Option ReviewerStore → List String → Option ServerError
check_known none ks = none
check_known (some store) ks = elim (unknown store ks) [
  | [] ↦ none
  | k ∷ more ↦ some (unknown_reviewers (suc (length more)))
]

unfoldable pub check_reviewer_list : Option ReviewerStore → List String → Option ServerError
check_reviewer_list store ks =
    if ltb max_reviewers_per_assignment (length ks)
    then some (too_many_reviewers (length ks))
    else if has_duplicate ks
    then some duplicate_reviewer
    else check_known store ks

-- `_check_assignment_reviewers(record)`: none is the empty text.
unfoldable pub check_assignment_reviewers : NamingServer → Value → Result (Option ServerError)
check_assignment_reviewers s rec = do
  v ← get_attr rec "reviewer_public_keys" null
  items ← reviewers_of v
  ks ← keys_of items
  ok (check_reviewer_list s.reviewer_store ks)

unfoldable pub get_at : AssignmentStore → Option String → Option String → Option Value
get_at store (some reviewer) (some content_key) = Assignments.get store reviewer content_key
get_at store _ _ = none

-- `self.assignment_store.get(reviewer, content_key)` at values that may be no texts
unfoldable pub find_assignment : AssignmentStore → Value → Value → Result (Option Value)
find_assignment store reviewer content_key = do
  r ← read_key reviewer
  c ← read_key content_key
  ok (get_at store r c)

unfoldable pub check_deadline : Value → Value → Result (Option ServerError)
check_deadline rec assignment = do
  t ← timestamp rec
  v ← get_attr assignment "deadline" (int (pos 0))
  deadline ← to_int v
  ok (if ltb_ℤ deadline t then some after_deadline else none)

unfoldable pub check_found : Value → Option Value → Result (Option ServerError)
check_found rec none = ok (some not_assigned)
check_found rec (some assignment) = check_deadline rec assignment

unfoldable pub check_assigned_in : Value → Option AssignmentStore → Result (Option ServerError)
check_assigned_in rec none = ok (some no_assignment_inbox)
check_assigned_in rec (some store) = do
  reviewer ← get_attr rec "reviewer_public_key" (str "")
  content_key ← get_attr rec "content_key" (str "")
  assignment ← find_assignment store reviewer content_key
  check_found rec assignment

-- `_check_review_was_assigned(record)`
unfoldable pub check_review_was_assigned : NamingServer → Value → Result (Option ServerError)
check_review_was_assigned s rec = check_assigned_in rec s.assignment_store

unfoldable pub on_check : NamingServer → Result (Option ServerError) → Reply → Reply
on_check s (raise x) next = (raise x, s)
on_check s (ok (some e)) next = refuse e s
on_check s (ok none) next = next

-- `if self.strict_reviews: err = …; if err: return …`
unfoldable pub if_allowed : NamingServer → Result (Option ServerError) → Reply → Reply
if_allowed s check next = if s.strict_reviews then on_check s check next else next

-- The log line cuts `content_key` and, for an assignment, takes the length of the reviewer list.
unfoldable pub log_content : Value → Result Response
log_content rec = do
  key ← get_attr rec "content_key" (str "")
  slice key
  reply_key ← get_attr rec "content_key" null
  ok (ok_content_key reply_key)

-- The second cut of the log line of a review
unfoldable pub log_review : Value → Result Response
log_review rec = do
  key ← get_attr rec "content_key" (str "")
  slice key
  reviewer ← get_attr rec "reviewer_public_key" (str "")
  slice reviewer
  reply_key ← get_attr rec "content_key" null
  ok (ok_content_key reply_key)

module _ (p : Platform) (now : ℤ) where
  unfoldable pub post_assignment_in : NamingServer → AssignmentStore → Value → Value → Reply
  post_assignment_in s store rec signature =
      let (outcome, store') = Assignments.add store rec signature in
      if_valid s (verify_review_assignment p now (some max_review_drift_seconds) rec signature) (
        if_allowed s (check_assignment_reviewers s rec)
          (if_stored (record s { assignment_store = some store' }) outcome (log_content rec)))

  unfoldable pub post_assignment_to : NamingServer → Fields → Option AssignmentStore → Reply
  post_assignment_to s msg none = refuse inbox_disabled s
  post_assignment_to s msg (some store) = with_record msg s (post_assignment_in s store)

  -- `_handle_post_assignment`
  unfoldable pub handle_post_assignment : NamingServer → Fields → Reply
  handle_post_assignment s msg = post_assignment_to s msg s.assignment_store

  unfoldable pub attach_review_in : NamingServer → AttachmentStore → Value → Value → Reply
  attach_review_in s store rec signature =
      let (outcome, store') = Attachments.attach store rec signature in
      if_valid s (verify_review_record p now (some max_review_drift_seconds) rec signature) (
        if_allowed s (check_review_was_assigned s rec)
          (if_stored (record s { attachment_store = some store' }) outcome (log_review rec)))

  unfoldable pub attach_review_to : NamingServer → Fields → Option AttachmentStore → Reply
  attach_review_to s msg none = refuse attachments_disabled s
  attach_review_to s msg (some store) = with_record msg s (attach_review_in s store)

  -- `_handle_attach_review`
  unfoldable pub handle_attach_review : NamingServer → Fields → Reply
  handle_attach_review s msg = attach_review_to s msg s.attachment_store

-- The entries under a key that may be no text: none are there.
unfoldable pub entries_at : (String → List Entry) → Value → Result (List Entry)
entries_at at v = do k ← read_key v; ok (elim k [ none ↦ [] | some t ↦ at t ])

unfoldable pub list_assignments_of : NamingServer → Value → Option AssignmentStore → Reply
list_assignments_of s key none = (ok (assignments []), s)
list_assignments_of s key (some store) =
    if not (truthy key)
    then refuse reviewer_key_required s
    else answer s
        (do entries ← entries_at (Assignments.list_for store) key; ok (assignments entries))

-- `_handle_list_assignments`
unfoldable pub handle_list_assignments : NamingServer → Fields → Reply
handle_list_assignments s msg =
    list_assignments_of s (get_or msg "reviewer_public_key" (str "")) s.assignment_store

unfoldable pub get_attachments_of : NamingServer → Value → Option AttachmentStore → Reply
get_attachments_of s key none = (ok (attachments []), s)
get_attachments_of s key (some store) =
    if not (truthy key)
    then refuse content_key_required s
    else answer s
        (do entries ← entries_at (Attachments.get_for store) key; ok (attachments entries))

-- `_handle_get_attachments`
unfoldable pub handle_get_attachments : NamingServer → Fields → Reply
handle_get_attachments s msg =
    get_attachments_of s (get_or msg "content_key" (str "")) s.attachment_store
