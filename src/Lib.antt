-- ===== src/Lib.antt =====
-- mdp2p: publishing of Markdown sites over a peer-to-peer network. The core of the repository, as functions
-- on values, and what makes it correct.
--
-- The parts, and how they work together. An author signs a manifest of a site and a naming record that binds
-- an address to a key and a manifest (bundle/). A naming server keeps signed records: names, reviewer
-- opt-ins, review assignments and reviews (naming.py), the last three built and checked by review/. A
-- client resolves an address, compares the key with its pins (pinstore.py), downloads the bundle from a
-- seeder and checks it before a byte is written (peer/peer.py, peer/bundle_protocol.py,
-- bundle/serialization.py). An author publishes and asks reviewers by way of the server (publish in
-- peer/peer.py); a reviewer answers from a daemon (peer/reviewer_daemon.py); a reader turns the reviews into
-- a score by a policy and a trust store of its own (trust/, compute_score in peer/peer.py, and
-- mdp2p_client/scoring.py from the cache). All of them talk in frames of JSON (wire.py).
--
--   Prelude, Dict, Py    numbers, lists, dictionaries; Python's exceptions, JSON values, int(), texts and
--                        json.dumps with sorted keys, as bytes. Exceptions are values (Py/Result).
--   Platform             signatures, hashes, base64 and two comparisons of floats: parameters, with what
--                        their libraries document (IsSound)
--   Bundle/Paths         bundle/paths.py: validate_uri, validate_path
--   Bundle/Signed        the check that the verify_* functions share: fields, drift, signature
--   Bundle/NameRecord    bundle/name_records.py: naming records, and the registration proofs (Proof)
--   Bundle/Manifest      bundle/manifest.py: manifests, their references, content keys
--   Bundle/Payload       bundle/serialization.py: validate_bundle_payload
--   Bundle/Disk          bundle/serialization.py: dict_to_bundle with the swap into place, bundle_to_dict
--   Review/Record        review/record.py: opt-ins, assignments, reviews
--   Review/Taxonomy      review/taxonomy.py, with Review/Slugs and Review/Labels: categories and labels
--   Review/Selection     review/selection.py: select_reviewers
--   Naming/Stores        naming.py: NameStore, ReviewerStore, AssignmentStore, AttachmentStore
--   Naming/Server, Naming/Reviews, Naming/Page, Naming/Messages, Naming/Dispatch
--                        naming.py: NamingServer with its nine handlers, _paginate, _handle_stream
--   Naming/Client        naming.py: the client functions and _rpc_all_pages
--   Naming/Step          what one request may do to the server, as a step relation
--   Pinstore             pinstore.py
--   Wire                 wire.py: read_exact, send_framed_json, recv_framed_json
--   Peer/Check, Peer/Reviews
--                        peer/peer.py: _check_downloaded_bundle, _attachments_to_signals,
--                        _extract_fresh_reviewer_pool
--   Peer/Download, Peer/Fetch
--                        peer/bundle_protocol.py: try_download_from_seeders; peer/peer.py: fetch_site,
--                        find_providers, announce, _cache_attachments
--   Peer/Publish, Peer/Update, Peer/Score
--                        peer/peer.py: publish with _solicit_reviews, check_for_update, compute_score
--   Peer/Daemon          peer/reviewer_daemon.py: one registration, _poll_once, the polling loop
--   Trust/Floats, Trust/Signal, Trust/Policy, Trust/Store, Trust/Scorer
--                        trust/: signals, the policy and its file, the trust store, score_content
--   Peer/Rediscover      peer/peer.py: attach with _rediscover_local_sites
--   Reader               mdp2p_client/scoring.py: score_from_cache
--   Reader/Config        mdp2p_client/config.py: ClientConfig, load_or_create_config, remove_seeded_site
--   Reader/Flows         mdp2p_client/review_flow.py: do_list_inbox, do_attach_review
--   Tests                runs at concrete inputs, over a platform with toy signatures
--
-- State is passed explicitly: a method returns its result beside the object that it leaves, also when it
-- raises. The clock is an argument, one reading for a whole operation. The handlers of the server have no
-- await between their first read and their last write, so that a run of the server is a sequence of requests
-- (serve in Naming/Dispatch). Files are known by what they hold, an absent and an unreadable one apart; the
-- replacement of a file by a rename is one step.
--
-- The network is an argument too: a call of the naming server is a function from its request to its reply or
-- the exception it raises, the parallel download is the sequence in which its attempts end, and a polling
-- loop is the sequence of its passes, each with what the server, the fetcher, the callback and the clock
-- give (Surroundings in Peer/Fetch, Hooks in Peer/Daemon). In publish and compute_score the server answers
-- from one such function throughout. A reply that is no dictionary counts as a call that raises; in
-- _attach_verdict and _cache_attachments the code lets that exception out where it catches the call's. A
-- disk may refuse each removal, write and move of the swap, and to read or write the daemon's file in any
-- cycle.
-- Floating point is an interface (Floats in Trust/Floats) with what IEEE 754 promises of its comparisons;
-- NaN is allowed: a comparison with it is false, and the orders are not total.
--
-- Bounds. read_loop runs as often as bytes are wanted, since a run that goes on reads one; slices runs as
-- often as the frame has bytes; follow runs max_pages times as the source does. Integers are Python's, so
-- nothing wraps; the length field of a frame is below 2^32.
--
-- Not modelled: sockets, time-outs and libp2p, the terminal user interface, installers, key files, rendering,
-- the tasks that sleep between two rounds of the daemon, and the second implementation under rust/. Lines that
-- only log are left out.
-- A float is known by its JSON text and its integer part. A dictionary key that is a number is refused
-- here where Python would take it: with strict_reviews no verified record brings one to a write, without
-- it a review may name a number as its content key. same_value in Py/Json compares values other than
-- texts by their JSON. A store file is either readable as a whole or not at all.
pub mod Prelude
pub mod Py
pub mod Dict
pub mod Platform
pub mod Bundle
pub mod Review
pub mod Naming
pub mod Tests
pub mod Pinstore
pub mod Wire
pub mod Trust
pub mod Peer
pub mod Reader
