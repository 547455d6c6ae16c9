-- ===== src/Tests/Daemons.antt =====
-- The reviewer's daemon at concrete inboxes.
use mdp2p.Bundle.Signed.{valid}
use mdp2p.Review.Record.{verify_review_assignment}
use mdp2p.Peer.Daemon.Once.{IsPoll, poll_once-IsPoll, Cycle, IsAbout, poll_loop, poll_loop-once}
use mdp2p.Naming.Stores.Disk.{absent, File, holds}
use mdp2p.Prelude.{true, false, some, ◌≡◌, [], none, List, String, ◌∷◌, refl, AllOf}
use mdp2p.Prelude.Int.{pos}
use mdp2p.Peer.Daemon.{poll_once, Hooks, Act, asked, posted}
use mdp2p.Tests.Records.{assignment, signed}
use mathlib.Core.List.{Memᴰ}
use mdp2p.Tests.Toy.{toy}
use mdp2p.Py.Value.{null, obj, str, arr, field, cons, nil, end, Fields, int, get_attr, Value}
use mdp2p.Py.Result.{ok, Result}

-- Bob fetches an empty manifest and finds nothing wrong with it.
abbrev content : Hooks
content = record {
  content_fetcher = λ rec. ok (some (obj end));
  callback = λ rec manifest. ok (some (record { verdict = "ok"; comment = "" }));
  clock = λ rec. pos 1100;
}

abbrev inbox : Fields → Result Fields
inbox request = ok (
    field "records"
      (arr (
        cons
          (obj (field "record" (obj assignment) (field "signature" (str (signed assignment)) end)))
          nil))
      end)

poll_once-IsPoll_example :
    IsPoll toy "bob" "bob" content
      (pos 1050)
      absent
      (poll_once toy "bob" "bob" content inbox (pos 1050) absent)
poll_once-IsPoll_example = poll_once-IsPoll toy "bob" "bob" content inbox (pos 1050) absent

abbrev review : Fields
review = field "content_key" (str "/mdp2p/00") (
    field "reviewer_public_key" (str "bob") (
      field "verdict" (str "ok")
        (field "comment" (str "") (field "timestamp" (int (pos 1100)) end))))

abbrev acts : List Act
acts = asked (obj assignment) (obj end) ∷ posted (obj assignment) review (signed review) ∷ []

abbrev after : File Value
after = holds (obj (field "processed" (arr (cons (str "/mdp2p/00") nil)) end))

verified :
    verify_review_assignment toy (pos 0) none (obj assignment) (str (signed assignment)) ≡ ok valid
unfolding verify_review_assignment signed mdp2p.Py.Text.codes_eqb mdp2p.Py.Value.item
    mdp2p.Review.Record.is_text_list mdp2p.Review.Record.is_bad_deadline get_attr
    mdp2p.Py.Value.is_text mdp2p.Bundle.Manifest.compute_content_key
    mdp2p.Bundle.Signed.check_signature
verified = refl

polled : poll_once toy "bob" "bob" content inbox (pos 1050) absent ≡ (after, acts, none)
unfolding poll_once signed mdp2p.Peer.Daemon.poll_entries mdp2p.Peer.Daemon.inbox_entries
    mdp2p.Naming.Client.client_list_assignments mdp2p.Py.Value.truthy mdp2p.Py.Value.get_or
    mdp2p.Naming.Client.iterate mdp2p.Peer.Daemon.saved mdp2p.Peer.Daemon.handle_entries
    mdp2p.Peer.Daemon.then_pass mdp2p.Peer.Daemon.turn mdp2p.Peer.Daemon.turn_on
    mdp2p.Peer.Daemon.read_entry get_attr mdp2p.Py.Value.or_empty mdp2p.Peer.Daemon.is_processed
    mdp2p.Py.Value.has_str mdp2p.Peer.Daemon.processed_in mdp2p.Peer.Daemon.items_of
    mdp2p.Bundle.Manifest.compute_content_key mdp2p.Bundle.Manifest.format
    mdp2p.Bundle.Signed.after_drift mdp2p.Bundle.Signed.attempt mdp2p.Bundle.Signed.check_signature
    mdp2p.Bundle.Signed.decode mdp2p.Bundle.Signed.drift_of mdp2p.Bundle.Signed.if_none_missing
    mdp2p.Bundle.Signed.load_key mdp2p.Bundle.Signed.missing mdp2p.Bundle.Signed.refusal
    mdp2p.Bundle.Signed.require mdp2p.Bundle.Signed.sign_record mdp2p.Bundle.Signed.verify_bytes
    mdp2p.Dict.Sorted.insert_key mdp2p.Dict.Sorted.sort_keys mdp2p.Naming.Client.chars
    mdp2p.Naming.Client.key_items mdp2p.Naming.Client.key_request mdp2p.Peer.Daemon.after_callback
    mdp2p.Peer.Daemon.after_fetch mdp2p.Peer.Daemon.attach_verdict mdp2p.Peer.Daemon.by_deadline
    mdp2p.Peer.Daemon.deadline_of mdp2p.Peer.Daemon.if_assigned mdp2p.Peer.Daemon.is_finished
    mdp2p.Peer.Daemon.load_cache mdp2p.Peer.Daemon.processed_after mdp2p.Peer.Daemon.push_back
    mdp2p.Peer.Daemon.review_of mdp2p.Prelude.Int.distance mdp2p.Py.Json.canonical_json
    mdp2p.Py.Json.decimal mdp2p.Py.Json.dumps mdp2p.Py.Json.write_int mdp2p.Py.Json.write_object
    mdp2p.Py.Json.write_sorted mdp2p.Py.Number.parse_int mdp2p.Py.Number.to_int mdp2p.Py.Text.codes
    mdp2p.Py.Text.codes_eqb mdp2p.Py.Text.codes_leb mdp2p.Py.Text.str_leb mdp2p.Py.Value.all_str
    mdp2p.Py.Value.as_key mdp2p.Py.Value.contains mdp2p.Py.Value.get mdp2p.Py.Value.is_list
    mdp2p.Py.Value.is_str mdp2p.Py.Value.is_text mdp2p.Py.Value.item mdp2p.Py.Value.with_field
    mdp2p.Review.Record.build_review_record mdp2p.Review.Record.check_assignment
    mdp2p.Review.Record.is_bad_deadline mdp2p.Review.Record.is_text_list
    mdp2p.Review.Record.is_verdict mdp2p.Review.Record.sign_review_record verify_review_assignment
polled = refl

-- Later the server lists the assignment again, and the file cannot be written.
abbrev later : List (Cycle toy "bob" "bob")
later =
    record { hooks = content; rpc = inbox; now = pos 1400; readable = true; writable = false } ∷ []

poll_loop-once_example :
    (k : String) × (get_attr (obj assignment) "content_key" (str "") ≡ ok (str k))
    × AllOf (λ a. ¬ IsAbout toy "bob" "bob" k a) (poll_loop toy "bob" "bob" later after).1
poll_loop-once_example =
    poll_loop-once toy "bob" "bob"
      record { hooks = content; rpc = inbox; now = pos 1050; readable = true; writable = true }
      later absent after acts (obj assignment) review (signed review) (refl, tt) polled
      (Memᴰ.tail (Memᴰ.head refl))
