-- ===== src/Tests/Fetches.antt =====
-- Downloads, writes and fetches at concrete bundles.
use mdp2p.Peer.Fetch.Outcome.{fetch_site-IsOutcome}
use mdp2p.Peer.Download.Laws.{IsValidArrival, IsFirst, try_download_from_seeders-IsFirst}
use mdp2p.Naming.Stores.Disk.{absent}
use mdp2p.Prelude.Int.{pos}
use mdp2p.Peer.Check.{check_downloaded_bundle, Rejection}
use mdp2p.Bundle.Disk.Laws.{IsWritten, dict_to_bundle-IsWritten}
use mdp2p.Peer.Download.{bundle_response, Arrival, try_download_from_seeders, received, timed_out}
use mdp2p.Bundle.Paths.{Location}
use mdp2p.Peer.Fetch.{fetch_site, Surroundings, Client}
use mdp2p.Bundle.Disk.{Operation, Site, empty_spot, dict_to_bundle, move_staging}
use mdp2p.Peer.Fetch.Laws.{IsOutcome}
use mathlib.Core.List.{Memᴰ}
use mdp2p.Tests.Records.{signed}
use mdp2p.Tests.Toy.{toy}
use mdp2p.Prelude.{[], ◌∷◌, none, some, refl, true, false, String, List, Bool, ℕ, Option, ◌≡◌}
use mdp2p.Py.Value.{null, obj, str, arr, int, field, cons, nil, end, Fields}
use mdp2p.Py.Result.{ok, Result}

abbrev manifest : Fields
manifest = field "uri" (str "alice-site") (
    field "public_key" (str "alice") (
      field "files" (arr (cons (obj (field "path" (str "a.md") (field "hash" (str "00") end))) nil))
        (field "total_size" (int (pos 5)) (field "file_count" (int (pos 1)) end))))

abbrev response : Fields
response = field "type" (str "bundle") (
    field "manifest" (obj manifest) (
      field "signature" (str (signed manifest))
        (field "files" (obj (field "a.md" (str "hello") end)) end)))

abbrev files : List (String × List ℕ)
files = ("a.md", 104 ∷ 101 ∷ 108 ∷ 108 ∷ 111 ∷ []) ∷ []

abbrev root : Location
root = (115 ∷ []) ∷ []

-- A seeder that stalls, one that lies, and one that has the site
abbrev arrivals : List Arrival
arrivals =
    timed_out ∷ received (obj (field "type" (str "bundle") end)) ∷ received (obj response) ∷ []

abbrev check : Fields → Result (Option Rejection)
check found = check_downloaded_bundle toy (λ l. l) root (pos 1010) found "alice-site" "alice" "00"

response_valid : check response ≡ ok none
unfolding check_downloaded_bundle mdp2p.Peer.Check.check_shape mdp2p.Py.Value.get_or
    mdp2p.Py.Value.is_dict mdp2p.Peer.Check.check_manifest mdp2p.Peer.Check.check_verified
    mdp2p.Bundle.Manifest.verify_manifest mdp2p.Py.Value.is_text mdp2p.Bundle.Signed.decode signed
    mdp2p.Py.Text.codes_eqb mdp2p.Bundle.Manifest.compute_manifest_ref mdp2p.Peer.Check.check_expiry
    mdp2p.Bundle.Manifest.is_manifest_expired mdp2p.Bundle.Manifest.is_expired_at
    mdp2p.Peer.Check.check_content mdp2p.Bundle.Payload.validate_bundle_payload mdp2p.Py.Value.item
    mdp2p.Bundle.Manifest.is_before mdp2p.Bundle.Paths.any_dotted mdp2p.Bundle.Paths.has_char
    mdp2p.Bundle.Paths.is_dotted mdp2p.Bundle.Paths.is_relative_to mdp2p.Bundle.Paths.push
    mdp2p.Bundle.Paths.split mdp2p.Bundle.Paths.validate_path mdp2p.Bundle.Payload.all_expected
    mdp2p.Bundle.Payload.all_present mdp2p.Bundle.Payload.check_counts
    mdp2p.Bundle.Payload.check_hashes mdp2p.Bundle.Payload.check_names
    mdp2p.Bundle.Payload.count_fields mdp2p.Bundle.Payload.count_items
    mdp2p.Bundle.Payload.entries_of mdp2p.Bundle.Payload.entry_of mdp2p.Bundle.Payload.expected_of
    mdp2p.Bundle.Payload.files_of mdp2p.Bundle.Payload.gather mdp2p.Bundle.Payload.greater
    mdp2p.Bundle.Payload.is_markdown mdp2p.Bundle.Payload.is_there mdp2p.Bundle.Payload.len
    mdp2p.Bundle.Payload.matches_hash mdp2p.Bundle.Payload.or_value_error
    mdp2p.Bundle.Payload.text_of mdp2p.Bundle.Payload.utf8_length mdp2p.Dict.Sorted.insert_key
    mdp2p.Dict.Sorted.sort_keys mdp2p.Dict.has mdp2p.Dict.insert mdp2p.Dict.lookup
    mdp2p.Peer.Check.is_content_error mdp2p.Py.Json.canonical_json mdp2p.Py.Json.decimal
    mdp2p.Py.Json.dumps mdp2p.Py.Json.write_int mdp2p.Py.Json.write_object
    mdp2p.Py.Json.write_sorted mdp2p.Py.Text.codes mdp2p.Py.Text.codes_leb mdp2p.Py.Text.str_leb
    mdp2p.Py.Value.as_key mdp2p.Py.Value.get mdp2p.Py.Value.get_attr
response_valid = refl

valid_arrival : IsValidArrival check (received (obj response)) response
unfolding bundle_response mdp2p.Py.Value.is_text mdp2p.Py.Value.get_or
valid_arrival = record {
  value = obj response;
  arrived = refl;
  is_bundle = refl;
  is_valid = response_valid;
}

try_download_from_seeders-IsFirst_example :
    (found : Fields) × (try_download_from_seeders check arrivals ≡ some found)
    × IsFirst check arrivals found
try_download_from_seeders-IsFirst_example =
    try_download_from_seeders-IsFirst check arrivals (received (obj response)) response
      (Memᴰ.tail (Memᴰ.tail (Memᴰ.head refl))) valid_arrival

-- An older version of the site, and a disk that refuses one move
abbrev older : Site
older = record { manifest = obj end; signature = ""; files = []; attachments = none }

abbrev refuses_move : Operation → Bool
refuses_move move_staging = true
refuses_move _ = false

dict_to_bundle-IsWritten_example :
    IsWritten refuses_move toy
      (λ l. l)
      root
      (obj response)
      (record empty_spot { current = some older })
      (dict_to_bundle refuses_move toy
        (λ l. l)
        root
        (obj response)
        (record empty_spot { current = some older }))
dict_to_bundle-IsWritten_example =
    dict_to_bundle-IsWritten refuses_move toy (λ l. l) root (obj response)
      (record empty_spot { current = some older })

-- The naming server knows Alice's site, and has no attachments.
abbrev alice_record : Fields
alice_record = field "uri" (str "alice-site") (
    field "author" (str "Alice") (
      field "public_key" (str "alice")
        (field "manifest_ref" (str "00") (field "timestamp" (int (pos 1000)) end))))

abbrev naming : Fields → Result Fields
naming request = ok (
    field "type" (str "record")
      (field "record" (obj alice_record) (field "signature" (str (signed alice_record)) end)))

abbrev surroundings : Surroundings
surroundings = record {
  resolve = λ l. l;
  locate = λ uri. root;
  site_dir = λ uri. "data/alice-site";
  refuses = λ op. false;
  naming = some naming;
  self_id = "me";
  dht = none;
  download = λ addrs. arrivals;
}

abbrev newcomer : Client
newcomer = record { pins = absent; sites = []; spots = [] }

fetch_site-IsOutcome_example :
    IsOutcome toy
      (pos 1010)
      surroundings
      false
      newcomer
      "alice-site"
      naming
      (fetch_site toy (pos 1010) surroundings false newcomer "alice-site" ("seeder" ∷ []))
fetch_site-IsOutcome_example =
    fetch_site-IsOutcome toy (pos 1010) surroundings false newcomer "alice-site" naming
      ("seeder" ∷ []) refl

-- The fetch succeeds.
fetched :
    (fetch_site toy (pos 1010) surroundings false newcomer "alice-site" ("seeder" ∷ [])).1 ≡ ok true
unfolding check_downloaded_bundle mdp2p.Peer.Check.check_shape mdp2p.Py.Value.get_or
    mdp2p.Py.Value.is_dict mdp2p.Peer.Check.check_manifest mdp2p.Peer.Check.check_verified
    mdp2p.Bundle.Manifest.verify_manifest mdp2p.Py.Value.is_text mdp2p.Bundle.Signed.decode signed
    mdp2p.Py.Text.codes_eqb mdp2p.Bundle.Manifest.compute_manifest_ref mdp2p.Peer.Check.check_expiry
    mdp2p.Bundle.Manifest.is_manifest_expired mdp2p.Bundle.Manifest.is_expired_at
    mdp2p.Peer.Check.check_content mdp2p.Bundle.Payload.validate_bundle_payload mdp2p.Py.Value.item
    mdp2p.Bundle.Manifest.is_before mdp2p.Bundle.Paths.any_dotted mdp2p.Bundle.Paths.has_char
    mdp2p.Bundle.Paths.is_dotted mdp2p.Bundle.Paths.is_relative_to mdp2p.Bundle.Paths.push
    mdp2p.Bundle.Paths.split mdp2p.Bundle.Paths.validate_path mdp2p.Bundle.Payload.all_expected
    mdp2p.Bundle.Payload.all_present mdp2p.Bundle.Payload.check_counts
    mdp2p.Bundle.Payload.check_hashes mdp2p.Bundle.Payload.check_names
    mdp2p.Bundle.Payload.count_fields mdp2p.Bundle.Payload.count_items
    mdp2p.Bundle.Payload.entries_of mdp2p.Bundle.Payload.entry_of mdp2p.Bundle.Payload.expected_of
    mdp2p.Bundle.Payload.files_of mdp2p.Bundle.Payload.gather mdp2p.Bundle.Payload.greater
    mdp2p.Bundle.Payload.is_markdown mdp2p.Bundle.Payload.is_there mdp2p.Bundle.Payload.len
    mdp2p.Bundle.Payload.matches_hash mdp2p.Bundle.Payload.or_value_error
    mdp2p.Bundle.Payload.text_of mdp2p.Bundle.Payload.utf8_length mdp2p.Dict.Sorted.insert_key
    mdp2p.Dict.Sorted.sort_keys mdp2p.Dict.has mdp2p.Dict.insert mdp2p.Dict.lookup
    mdp2p.Peer.Check.is_content_error mdp2p.Py.Json.canonical_json mdp2p.Py.Json.decimal
    mdp2p.Py.Json.dumps mdp2p.Py.Json.write_int mdp2p.Py.Json.write_object
    mdp2p.Py.Json.write_sorted mdp2p.Py.Text.codes mdp2p.Py.Text.codes_leb mdp2p.Py.Text.str_leb
    mdp2p.Py.Value.as_key mdp2p.Py.Value.get mdp2p.Py.Value.get_attr mdp2p.Peer.Fetch.addresses
    mdp2p.Peer.Fetch.provider_addresses mdp2p.Peer.Fetch.or_else mdp2p.Peer.Fetch.known_providers
    mdp2p.Peer.Fetch.or_find mdp2p.Peer.Fetch.find_providers mdp2p.Peer.Fetch.spot_in
    mdp2p.Peer.Fetch.spot_of mdp2p.Peer.Fetch.provided mdp2p.Peer.Fetch.announce_site
    mdp2p.Peer.Fetch.announce_from mdp2p.Peer.Fetch.announce mdp2p.Peer.Fetch.with_attachments
    mdp2p.Peer.Fetch.cache_attachments mdp2p.Peer.Fetch.author_text mdp2p.Peer.Fetch.store_pin
    mdp2p.Peer.Fetch.if_named mdp2p.Peer.Fetch.name_record_of mdp2p.Peer.Fetch.timestamp_of
    mdp2p.Peer.Fetch.validator mdp2p.Peer.Fetch.on_announced mdp2p.Peer.Fetch.on_logged
    mdp2p.Peer.Fetch.counts_of mdp2p.Peer.Fetch.on_pinned mdp2p.Peer.Fetch.on_files
    mdp2p.Peer.Fetch.files_in mdp2p.Peer.Fetch.on_written mdp2p.Peer.Fetch.on_manifest
    mdp2p.Peer.Fetch.on_download mdp2p.Peer.Fetch.on_key mdp2p.Peer.Fetch.on_status
    mdp2p.Peer.Fetch.on_time mdp2p.Peer.Fetch.on_pins mdp2p.Peer.Fetch.on_seeders
    mdp2p.Peer.Fetch.seeders mdp2p.Peer.Fetch.on_named mdp2p.Peer.Fetch.on_resolved
    mdp2p.Peer.Fetch.with_naming mdp2p.Peer.Fetch.on_uri mdp2p.Peer.Fetch.fetch_site
    mdp2p.Peer.Download.bundle_response mdp2p.Peer.Download.accept mdp2p.Peer.Download.judge
    mdp2p.Peer.Download.try_one mdp2p.Peer.Download.arrive mdp2p.Peer.Download.run_attempts
    mdp2p.Peer.Download.try_download_from_seeders mdp2p.Peer.Download.error_reply
    mdp2p.Peer.Download.bundle_reply mdp2p.Peer.Download.manifest_reply mdp2p.Peer.Download.reply_of
    mdp2p.Peer.Download.handler mdp2p.Bundle.Disk.text_of_signature mdp2p.Bundle.Disk.staged
    mdp2p.Bundle.Disk.is_stuck mdp2p.Bundle.Disk.swap_in mdp2p.Bundle.Disk.swap_onto
    mdp2p.Bundle.Disk.swap_into_place mdp2p.Bundle.Disk.drop_staging mdp2p.Bundle.Disk.write_site
    mdp2p.Bundle.Disk.write_validated mdp2p.Bundle.Disk.dict_to_bundle
    mdp2p.Bundle.Disk.compare_hash mdp2p.Bundle.Disk.check_there mdp2p.Bundle.Disk.check_listed
    mdp2p.Bundle.Disk.check_entry_file mdp2p.Bundle.Disk.add_error mdp2p.Bundle.Disk.check_entries
    mdp2p.Bundle.Disk.unlisted mdp2p.Bundle.Disk.verify_files mdp2p.Bundle.Disk.read_files
    mdp2p.Bundle.Disk.bundle_to_dict mdp2p.Pinstore.load_pinstore mdp2p.Pinstore.save_pinstore
    mdp2p.Pinstore.is_older mdp2p.Pinstore.check_entry mdp2p.Pinstore.check_pin
    mdp2p.Pinstore.first_seen_of mdp2p.Pinstore.new_pin mdp2p.Pinstore.pin_key
    mdp2p.Pinstore.unpin_in mdp2p.Pinstore.unpin_key mdp2p.Pinstore.raised_mark
    mdp2p.Pinstore.touch_in mdp2p.Pinstore.update_pin_last_seen
    mdp2p.Bundle.NameRecord.build_name_record mdp2p.Bundle.NameRecord.sign_name_record
    mdp2p.Bundle.NameRecord.verify_name_record mdp2p.Bundle.Signed.missing
    mdp2p.Bundle.Signed.if_none_missing mdp2p.Bundle.Signed.require mdp2p.Bundle.Signed.load_key
    mdp2p.Bundle.Signed.drift_of mdp2p.Bundle.Signed.verify_bytes mdp2p.Bundle.Signed.refusal
    mdp2p.Bundle.Signed.after_drift mdp2p.Bundle.Signed.attempt mdp2p.Bundle.Signed.check_signature
    mdp2p.Bundle.Signed.sign_record mdp2p.Naming.Client.append mdp2p.Naming.Client.chars
    mdp2p.Naming.Client.key_items mdp2p.Naming.Client.iterate mdp2p.Naming.Client.extend
    mdp2p.Naming.Client.is_int mdp2p.Naming.Client.merged mdp2p.Naming.Client.follow
    mdp2p.Naming.Client.rpc_all_pages mdp2p.Naming.Client.type_request
    mdp2p.Naming.Client.signed_request mdp2p.Naming.Client.key_request
    mdp2p.Naming.Client.client_register mdp2p.Naming.Client.client_resolve
    mdp2p.Naming.Client.client_list mdp2p.Naming.Client.client_register_reviewer
    mdp2p.Naming.Client.client_list_reviewers mdp2p.Naming.Client.client_post_assignment
    mdp2p.Naming.Client.client_list_assignments mdp2p.Naming.Client.client_attach_review
    mdp2p.Naming.Client.client_get_attachments mdp2p.Bundle.Paths.validate_uri
    mdp2p.Bundle.Paths.has_dots mdp2p.Bundle.Paths.is_dot mdp2p.Bundle.Paths.matches_uri
    mdp2p.Bundle.Paths.is_alnum mdp2p.Bundle.Paths.all_uri_chars mdp2p.Bundle.Paths.is_uri_char
    mdp2p.Bundle.Paths.check_uri mdp2p.Py.Number.to_int mdp2p.Py.Number.parse_int
    mdp2p.Py.Value.contains mdp2p.Py.Value.with_field mdp2p.Review.Taxonomy.mem_text
    mdp2p.Prelude.Int.distance mdp2p.Py.Value.truthy
fetched = refl
