-- ===== src/Peer/Reviews.antt =====
-- `_attachments_to_signals` and `_extract_fresh_reviewer_pool` of peer/peer.py: what a client takes
-- from the listings of a naming server that it does not trust.
pub mod Laws
pub mod Pool
use mdp2p.Trust.Signal.{Signal}
use mdp2p.Review.Taxonomy.{mem_text}
use mdp2p.Review.Record.{verify_reviewer_opt_in, verify_review_record}
use mdp2p.Py.Number.{to_int}
use mdp2p.Py.Result.{Result, ok, ◌>>=◌, raise, type_error}
use mdp2p.Py.Value.{
  Items, Value, Fields, obj, get_or, str, null, truthy, int, arr, cons, nil, is_text,
}
use mdp2p.Prelude.Int.{ℤ, pos, leb_ℤ, distance}
use mdp2p.Platform.{Platform}
use mdp2p.Bundle.Signed.{Verification, refused, valid}
use mdp2p.Prelude.{
  String, Bool, Option, ℕ, some, List, none, ◌∷◌, if◌then◌else◌, [], true, false, not, ◌&&◌, ltb,
  ◌||◌,
}

-- The record and the signature of an entry, if it has both: `isinstance(entry, dict)`,
-- `isinstance(record, dict)`, and a signature.
unfoldable pub pair_at : Value → Value → Option (Fields × Value)
pair_at (obj rec) signature = if truthy signature then some (rec, signature) else none
pair_at _ signature = none

unfoldable pub pair_of : Value → Option (Fields × Value)
pair_of (obj entry) = pair_at (get_or entry "record" null) (get_or entry "signature" (str ""))
pair_of _ = none

unfoldable pub new_signal : String → Fields → ℤ → Signal
new_signal content_key rec t = record {
  content_key = content_key;
  source_pubkey = get_or rec "reviewer_public_key" (str "");
  verdict = get_or rec "verdict" (str "ok");
  reason = get_or rec "comment" (str "");
  timestamp = t;
}

-- From the verification on
unfoldable pub if_verified : Verification → String → Fields → Result (Option Signal)
if_verified (refused r) expected rec = ok none
if_verified valid expected rec =
    let read = to_int (get_or rec "timestamp" (int (pos 0))) in
    if not (is_text (get_or rec "content_key" null) expected)
    then ok none
    else (do t ← read; ok (some (new_signal expected rec t)))

unfoldable pub signal_of : Platform → String → Option (Fields × Value) → Result (Option Signal)
signal_of p expected none = ok none
signal_of p expected (some (rec, signature)) = do
  v ← verify_review_record p (pos 0) none (obj rec) signature
  if_verified v expected rec

unfoldable pub prepend : Option Signal → List Signal → List Signal
prepend none signals = signals
prepend (some s) signals = s ∷ signals

-- `_attachments_to_signals(entries, expected_content_key)`
unfoldable pub attachments_to_signals : Platform → Items → String → Result (List Signal)
attachments_to_signals p nil expected = ok []
attachments_to_signals p (cons entry entries) expected = do
  s ← signal_of p expected (pair_of entry)
  signals ← attachments_to_signals p entries expected
  ok (prepend s signals)

-- `now - int(record.get("timestamp", 0)) > freshness_seconds`
unfoldable pub is_stale : ℤ → Option ℕ → Fields → Result Bool
is_stale now none rec = ok false
is_stale now (some seconds) rec = do
  t ← to_int (get_or rec "timestamp" (int (pos 0)))
  ok (leb_ℤ t now && ltb seconds (distance now t))

-- `set(reviewer_cats) & set(content_categories)`, whether it holds something
unfoldable pub overlaps : Items → List String → Result Bool
overlaps nil categories = ok false
overlaps (cons (arr xs) cs) categories = raise type_error
overlaps (cons (obj fs) cs) categories = raise type_error
overlaps (cons (str c) cs) categories = do
  more ← overlaps cs categories
  ok (mem_text c categories || more)
overlaps (cons _ cs) categories = overlaps cs categories

-- Whether the filter of the reviewer lets the content through. A verified opt-in has a list there.
unfoldable pub is_interested : Value → Option (List String) → Result Bool
is_interested v none = ok true
is_interested (arr nil) (some categories) = ok true
is_interested (arr (cons c cs)) (some []) = ok false
is_interested (arr (cons c cs)) (some (k ∷ ks)) = overlaps (cons c cs) (k ∷ ks)
is_interested v (some categories) = if truthy v then raise type_error else ok true

unfoldable pub keep_if : Bool → Value → Option Value
keep_if true v = some v
keep_if false v = none

module _ (p : Platform) (now : ℤ) (freshness : Option ℕ) (categories : Option (List String)) where
  unfoldable pub if_opted_in : Verification → Fields → Result (Option Value)
  if_opted_in (refused r) rec = ok none
  if_opted_in valid rec =
      let key = get_or rec "public_key" (str "") in
      let interested = is_interested (get_or rec "categories" null) categories in
      (do
        stale ← is_stale now freshness rec
        if stale || not (truthy key)
            then ok none
            else (do kept ← interested; ok (keep_if kept key)))

  unfoldable pub candidate_of : Option (Fields × Value) → Result (Option Value)
  candidate_of none = ok none
  candidate_of (some (rec, signature)) = do
    v ← verify_reviewer_opt_in p (pos 0) none (obj rec) signature
    if_opted_in v rec

  unfoldable pub add_candidate : Option Value → List Value → List Value
  add_candidate none pool = pool
  add_candidate (some v) pool = v ∷ pool

  -- `_extract_fresh_reviewer_pool(entries, freshness_seconds, content_categories)`
  unfoldable pub extract_fresh_reviewer_pool : Items → Result (List Value)
  extract_fresh_reviewer_pool nil = ok []
  extract_fresh_reviewer_pool (cons entry entries) = do
    c ← candidate_of (pair_of entry)
    pool ← extract_fresh_reviewer_pool entries
    ok (add_candidate c pool)
