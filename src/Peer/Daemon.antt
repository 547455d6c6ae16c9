-- ===== src/Peer/Daemon.antt =====
-- peer/reviewer_daemon.py: a reviewer registers, and polls its inbox for assignments to decide on. What
-- fetches the manifest, what decides and the clock are arguments; a pass returns its file and what it
-- did outside, beside the exception that may end it.
pub mod Turns
pub mod Processed
pub mod Passes
pub mod Once
use mdp2p.Py.Number.{to_int}
use mdp2p.Prelude.Int.{ℤ, pos, ltb_ℤ}
use mdp2p.Platform.{Platform}
use mdp2p.Prelude.{
  List, String, [], Bool, some, ◌∷◌, if◌then◌else◌, Option, ◌++◌, none, false, true, ◌||◌, not,
}
use mdp2p.Naming.Client.{client_list_assignments, client_register_reviewer, iterate}
use mdp2p.Naming.Stores.Disk.{File, absent, unreadable, holds}
use mdp2p.Bundle.Signed.{Verification, valid, refused}
use mdp2p.Review.Record.{
  build_review_record, sign_review_record, verify_review_assignment, build_reviewer_opt_in,
  sign_reviewer_opt_in,
}
use mdp2p.Py.Value.{
  null, int, str, arr, obj, nil, cons, end, field, Value, Fields, Items, bool, get_attr, as_key,
  get_or, truthy, with_field, or_empty, has_str, is_list, is_text,
}
use mdp2p.Py.Result.{Exc, Result, ok, raise, ◌>>=◌, type_error}

-- `ReviewVerdict`
pub record ReviewVerdict : Type 0 where
  pub verdict : String
  pub comment : String

-- What the daemon is given: `content_fetcher`, `callback`, and the time at which it builds a review.
pub record Hooks : Type 0 where
  pub content_fetcher : Value → Result (Option Value)
  pub callback : Value → Value → Result (Option ReviewVerdict)
  pub clock : Value → ℤ

-- What a pass does outside: it asks for a decision on an assignment, and posts a signed review.
pub data Act : Type 0 where
  asked : Value → Value → Act
  posted : Value → Fields → String → Act

-- How a turn of the loop ends: `continue`, an exception, or the content key among those processed
pub data Ending : Type 0 where
  skipped : Ending
  failed : Exc → Ending
  finished : Value → Ending

pub record Turn : Type 0 where
  pub acts : List Act
  pub ending : Ending

-- `{"processed": []}`
abbrev pub new_cache : Fields
new_cache = field "processed" (arr nil) end

-- `_load_cache(path)`: whatever else is in the file is a new cache.
unfoldable pub load_cache : File Value → Fields
load_cache (holds (obj fs)) =
    if is_list (get_or fs "processed" null) then fs else with_field fs "processed" (arr nil)
load_cache _ = new_cache

unfoldable pub items_of : Value → Items
items_of (arr xs) = xs
items_of _ = nil

-- `cache.get("processed", [])`, which is a list once loaded
unfoldable pub processed_in : File Value → Items
processed_in file = items_of (get_or (load_cache file) "processed" (arr nil))

-- `content_key in processed`. A key that is no text is looked up in vain here: such an assignment is
-- left out whatever the answer, since it does not verify.
unfoldable pub is_processed : Value → Items → Bool
is_processed (str k) processed = has_str processed k
is_processed _ processed = false

unfoldable pub push_back : Items → Value → Items
push_back nil v = cons v nil
push_back (cons x xs) v = cons x (push_back xs v)

-- The record, the signature and the content key of an entry
pub record Assigned : Type 0 where
  pub rec : Value
  pub signature : Value
  pub content_key : Value

unfoldable pub read_entry : Value → Result Assigned
read_entry entry = do
  found ← get_attr entry "record" null
  signature ← get_attr entry "signature" (str "")
  content_key ← get_attr (or_empty found) "content_key" (str "")
  ok record { rec = or_empty found; signature = signature; content_key = content_key }

abbrev pub skip : Turn
skip = record { acts = []; ending = skipped }

abbrev pub fail : Exc → Turn
fail x = record { acts = []; ending = failed x }

-- The state of the loop: what is processed, whether it has changed, what was done, and the
-- exception that has left it
pub record Pass : Type 0 where
  pub processed : Items
  pub changed : Bool
  pub acts : List Act
  pub error : Option Exc

-- A turn, and the pass from there on
unfoldable pub then_pass : Items → Bool → List Act → Ending → Pass → Pass
then_pass processed changed acts (failed x) rest = record {
  processed = processed;
  changed = changed;
  acts = acts;
  error = some x;
}
then_pass processed changed acts skipped rest = record rest { acts = acts ++ rest.acts }
then_pass processed changed acts (finished key) rest = record rest { acts = acts ++ rest.acts }

unfoldable pub processed_after : Items → Ending → Items
processed_after processed (finished key) = push_back processed key
processed_after processed _ = processed

unfoldable pub is_finished : Ending → Bool
is_finished (finished key) = true
is_finished _ = false

-- `cache["processed"] = processed` and `_save_cache`, at the end of a pass that has changed something
unfoldable pub saved : File Value → Pass → File Value
saved file pass = elim pass.error [
  | some x ↦ file
  | none ↦
      if pass.changed
      then holds (obj (with_field (load_cache file) "processed" (arr pass.processed)))
      else file
]

-- `int(record.get("deadline", 0))`
unfoldable pub deadline_of : Value → Result ℤ
deadline_of rec = do d ← get_attr rec "deadline" (int (pos 0)); to_int d

module _ (p : Platform) (private_key : p.PrivateKey) (public_key_b64 : String) (hooks : Hooks) where
  -- The review record of `_attach_verdict` with its signature
  unfoldable pub review_of : Value → Value → ReviewVerdict → Result (Fields × String)
  review_of rec content_key verdict = do
    key ← as_key content_key
    review ←
        build_review_record key public_key_b64 verdict.verdict verdict.comment none
          (hooks.clock rec)
    signature ← sign_review_record p review private_key
    ok (review, signature)

  -- `_attach_verdict`: what the server answers, or that it cannot be reached, ends in a log line.
  unfoldable pub attach_verdict : Value → Value → Result (Fields × String) → Value → Turn
  attach_verdict rec manifest (raise x) content_key = record {
    acts = asked rec manifest ∷ [];
    ending = failed x;
  }
  attach_verdict rec manifest (ok (review, signature)) content_key = record {
    acts = asked rec manifest ∷ posted rec review signature ∷ [];
    ending = finished content_key;
  }

  unfoldable pub after_callback : Value → Value → Value → Result (Option ReviewVerdict) → Turn
  after_callback rec manifest content_key (raise x) = record {
    acts = asked rec manifest ∷ [];
    ending = skipped;
  }
  after_callback rec manifest content_key (ok none) = record {
    acts = asked rec manifest ∷ [];
    ending = finished content_key;
  }
  after_callback rec manifest content_key (ok (some verdict)) =
      attach_verdict rec manifest (review_of rec content_key verdict) content_key

  unfoldable pub after_fetch : Value → Value → Result (Option Value) → Turn
  after_fetch rec content_key (raise x) = skip
  after_fetch rec content_key (ok none) = skip
  after_fetch rec content_key (ok (some manifest)) =
      after_callback rec manifest content_key (hooks.callback rec manifest)

  unfoldable pub by_deadline : ℤ → Value → Value → Result ℤ → Turn
  by_deadline now rec content_key (raise x) = fail x
  by_deadline now rec content_key (ok deadline) =
      let due = after_fetch rec content_key (hooks.content_fetcher rec) in
      if ltb_ℤ deadline now then record { acts = []; ending = finished content_key } else due

  unfoldable pub if_assigned : ℤ → Value → Value → Result Verification → Turn
  if_assigned now rec content_key (raise x) = fail x
  if_assigned now rec content_key (ok (refused r)) = skip
  if_assigned now rec content_key (ok valid) = by_deadline now rec content_key (deadline_of rec)

  unfoldable pub turn_on : ℤ → Items → Result Assigned → Turn
  turn_on now processed (raise x) = fail x
  turn_on now processed (ok a) =
      let turn =
        if_assigned now a.rec a.content_key
          (verify_review_assignment p (pos 0) none a.rec a.signature) in
      if not (truthy a.content_key) || is_processed a.content_key processed then skip else turn

  -- One turn of the loop of `_poll_once`
  unfoldable pub turn : ℤ → Items → Value → Turn
  turn now processed entry = turn_on now processed (read_entry entry)

  -- `for entry in entries`
  unfoldable pub handle_entries : ℤ → Items → Bool → Items → Pass
  handle_entries now processed changed nil = record {
    processed = processed;
    changed = changed;
    acts = [];
    error = none;
  }
  handle_entries now processed changed (cons entry entries) =
      let t = turn now processed entry in
      then_pass processed changed t.acts t.ending (
        handle_entries now (processed_after processed t.ending) (changed || is_finished t.ending)
          entries)

  -- What a pass leaves: the file, what was done outside, and the exception that it raises
  unfoldable pub poll_entries : ℤ → File Value → Result Items → File Value × List Act × Option Exc
  poll_entries now file (raise x) = (file, [], some x)
  poll_entries now file (ok entries) =
      let pass = handle_entries now (processed_in file) false entries in
      (saved file pass, pass.acts, pass.error)

  -- `listing.get("records") or []`, as the loop goes through it
  unfoldable pub inbox_entries : Result Fields → Result Items
  inbox_entries listing = do
    reply ← listing
    if truthy (get_or reply "records" null) then iterate (get_or reply "records" null) else ok nil

  -- `_poll_once`, at the time `now`
  unfoldable pub poll_once :
      (Fields → Result Fields) → ℤ → File Value → File Value × List Act × Option Exc
  poll_once rpc now file =
      poll_entries now file (inbox_entries (client_list_assignments rpc public_key_b64))

-- `resp.get("type") != "ok"`
unfoldable pub is_accepted : Result Fields → Bool
is_accepted (raise x) = false
is_accepted (ok reply) = is_text (get_or reply "type" null) "ok"

-- `register_reviewer_once(…)`: only what is built before the call can raise.
unfoldable pub register_reviewer_once :
    (p : Platform)
    → (Fields → Result Fields)
    → p.PrivateKey
    → String
    → String
    → List String
    → List String
    → Option ℤ
    → ℤ
    → Result Bool
register_reviewer_once p rpc private_key public_key_b64 peer_id addrs categories timestamp now = do
  opt_in ← build_reviewer_opt_in public_key_b64 peer_id addrs categories timestamp now
  signature ← sign_reviewer_opt_in p opt_in private_key
  ok (is_accepted (client_register_reviewer rpc (obj opt_in) signature))
