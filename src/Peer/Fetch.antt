-- ===== src/Peer/Fetch.antt =====
-- `fetch_site` of peer/peer.py with what it calls: the provider lookup, the cache of the attachments and
-- the announcement. The naming server, the DHT, the seeders, the disk and the clock are arguments.
pub mod Laws
pub mod Secured
pub mod Outcome
use mdp2p.Py.Number.{to_int}
use mdp2p.Bundle.Manifest.{compute_content_key}
use mdp2p.Peer.Check.{Rejection, check_downloaded_bundle, is_content_error, ref_mismatch}
use mdp2p.Prelude.Int.{ℤ}
use mdp2p.Prelude.{
  String, Option, List, Bool, ◌∷◌, some, [], true, false, none, ◌⊎◌, ℕ, if◌then◌else◌, not, inl,
  ◌==◌, ◌++◌, inr, ◌&&◌,
}
use mdp2p.Platform.{Platform}
use mdp2p.Bundle.Disk.{Site, Spot, Operation, dict_to_bundle, verify_files, empty_spot, FileError}
use mdp2p.Bundle.Signed.{Verification, valid, refused, load_key}
use mdp2p.Bundle.Paths.{UriError, validate_uri, Location}
use mdp2p.Bundle.NameRecord.{verify_name_record}
use mdp2p.Naming.Client.{client_resolve, client_get_attachments}
use mdp2p.Naming.Stores.Disk.{File}
use mdp2p.Peer.Download.{Arrival, try_download_from_seeders}
use mdp2p.Pinstore.{
  Pins, PinStatus, unknown, match, mismatch, rollback, load_pinstore, check_pin, pin_key,
  update_pin_last_seen,
}
use mdp2p.Py.Value.{
  null, str, arr, nil, obj, end, field, Value, Fields, get_or, item, get_attr, truthy, is_text,
  as_key,
}
use mdp2p.Py.Result.{Result, ok, raise, ◌>>=◌, library_error, value_error}
use mdp2p.Dict.{lookup, insert, Dict}
use Prim.Native.String.{◌++◌ as append}

-- The state of a `Peer` and of its files: `sites`, the pin store, and the directories of the sites
pub record Client : Type 0 where
  pub pins : File Pins
  pub sites : Dict String
  pub spots : Dict Spot

pub record Provider : Type 0 where
  pub peer_id : String
  pub addrs : List String

-- The DHT: the query to the naming server, the iterative lookup, and the announcement
pub record Dht : Type 0 where
  pub get_providers_from_peer : String → Result (List Provider)
  pub find : String → Result (List Provider)
  pub provide : String → Result Bool

unfoldable pub addresses : Provider → List String → List String
addresses info [] = []
addresses info (a ∷ rest) = append a (append "/p2p/" info.peer_id) ∷ addresses info rest

-- The addresses of the other peers
unfoldable pub provider_addresses : String → List Provider → List String
provider_addresses self_id [] = []
provider_addresses self_id (info ∷ infos) =
    let rest = provider_addresses self_id infos in
    if info.peer_id == self_id then rest else addresses info info.addrs ++ rest

unfoldable pub or_else : Result (List Provider) → List Provider
or_else (raise x) = []
or_else (ok infos) = infos

-- The fast path, where a naming server is configured; its failure falls through to the DHT.
unfoldable pub known_providers : Bool → Dht → String → List Provider
known_providers has_naming dht key =
    if has_naming then or_else (dht.get_providers_from_peer key) else []

unfoldable pub or_find : List Provider → Dht → String → List Provider
or_find [] dht key = or_else (dht.find key)
or_find (info ∷ infos) dht key = info ∷ infos

-- `find_providers(uri, author_pub_b64)`
unfoldable pub find_providers :
    Platform → Bool → String → Option Dht → String → String → List String
find_providers p has_naming self_id none uri author = []
find_providers p has_naming self_id (some dht) uri author =
    let key = compute_content_key p (str uri) (str author) in
    provider_addresses self_id (or_find (known_providers has_naming dht key) dht key)

unfoldable pub spot_in : Option Spot → Spot
spot_in none = empty_spot
spot_in (some spot) = spot

unfoldable pub spot_of : Dict Spot → String → Spot
spot_of spots dir = spot_in (lookup dir spots)

unfoldable pub provided : Result Bool → Bool
provided (raise x) = false
provided (ok b) = b

unfoldable pub announce_site : Platform → Dht → String → Option Site → Result Bool
announce_site p dht uri none = raise library_error
announce_site p dht uri (some site) = do
  key ← get_attr site.manifest "public_key" (str "")
  ok (truthy key && provided (dht.provide (compute_content_key p (str uri) key)))

unfoldable pub announce_from : Platform → Dht → String → Client → Option String → Result Bool
announce_from p dht uri c none = ok false
announce_from p dht uri c (some dir) = announce_site p dht uri (spot_of c.spots dir).current

-- `announce(uri)`
unfoldable pub announce : Platform → Option Dht → Client → String → Result Bool
announce p none c uri = ok false
announce p (some dht) c uri = announce_from p dht uri c (lookup uri c.sites)

unfoldable pub with_attachments : Value → Option Site → Option Site
with_attachments v none = none
with_attachments v (some site) = some (record site { attachments = some v })

-- `_cache_attachments(uri, author_pub_b64, site_dir)`, for the server's reply; an exception stands for
-- a failed call and for a failed write alike.
unfoldable pub cache_attachments : String → String → Result Fields → Client → Client
cache_attachments dir content_key (raise x) c = c
cache_attachments dir content_key (ok reply) c =
    let records = get_or reply "records" null in
    let file = obj (
      field "content_key" (str content_key)
        (field "records" (if truthy records then records else arr nil) end)) in
    let spot = spot_of c.spots dir in
    record c {
      spots = insert dir (record spot { current = with_attachments file spot.current }) c.spots;
    }

-- What the naming record says: the author's key, the reference of the manifest, the author
pub record Named : Type 0 where
  pub rec : Value
  pub key : String
  pub manifest_ref : Value
  pub author : Value

-- A pin keeps the author as a text; an author of another type, which nothing reads, is left empty here.
unfoldable pub author_text : Value → String
author_text (str s) = s
author_text _ = ""

unfoldable pub store_pin :
    PinStatus → String → String → String → ℤ → ℤ → File Pins → Result (File Pins)
store_pin unknown uri key author t now pins = pin_key uri key author (some t) now pins
store_pin _ uri key author t now pins = update_pin_last_seen uri (some t) now pins

abbrev pub give_up : Client → Client × Result Bool
give_up c = (c, ok false)

module _ (p : Platform) (now : ℤ) where
  unfoldable pub if_named : Verification → Value → String → Result (Option Named)
  if_named (refused r) rec uri = ok none
  if_named valid rec uri = do
    u ← get_attr rec "uri" null
    if not (is_text u uri) then ok none else (do
      v ← item rec "public_key"
      key ← as_key v
      manifest_ref ← item rec "manifest_ref"
      author ← get_attr rec "author" (str "unknown")
      ok (some (record { rec = rec; key = key; manifest_ref = manifest_ref; author = author })))

  -- The checks on the reply of the naming server: none where the fetch gives up
  unfoldable pub name_record_of : Fields → String → Result (Option Named)
  name_record_of reply uri = do
    rec ← item (obj reply) "record"
    signature ← item (obj reply) "signature"
    v ← verify_name_record p now none rec signature
    if_named v rec uri

  unfoldable pub timestamp_of : Value → Result ℤ
  timestamp_of rec = do v ← item rec "timestamp"; to_int v

  -- `validate` of `fetch_site`. A reference that is no text is that of no manifest.
  unfoldable pub validator :
      (Location → Location)
      → Location
      → String
      → p.PublicKey
      → Value
      → Fields
      → Result (Option Rejection)
  validator resolve out uri key (str ref) response =
      check_downloaded_bundle p resolve out now response uri key ref
  validator resolve out uri key _ response = ok (some ref_mismatch)

-- The surroundings of a fetch: where a site is put, what the disk refuses, the naming server, the DHT,
-- and how the attempts on some addresses end
pub record Surroundings : Type 0 where
  pub resolve : Location → Location
  pub locate : String → Location
  pub site_dir : String → String
  pub refuses : Operation → Bool
  pub naming : Option (Fields → Result Fields)
  pub self_id : String
  pub dht : Option Dht
  pub download : List String → List Arrival

module _ (p : Platform) (now : ℤ) (w : Surroundings) (announce_after : Bool) (c : Client)
    (uri : String) (rpc : Fields → Result Fields) where
  unfoldable pub on_announced : Client → Result Bool → Client × Result Bool
  on_announced after (raise x) = (after, raise x)
  on_announced after (ok b) = (after, ok true)

  -- The log line reads two fields of the manifest, which may be missing.
  unfoldable pub on_logged : Named → Client → Result (Value × Value) → Client × Result Bool
  on_logged named after (raise x) = (after, raise x)
  on_logged named after (ok counts) =
      let content_key = compute_content_key p (str uri) (str named.key) in
      let cached =
        cache_attachments (w.site_dir uri) content_key (client_get_attachments rpc content_key)
          after in
      on_announced cached (if announce_after then announce p w.dht cached uri else ok false)

  unfoldable pub counts_of : Value → Result (Value × Value)
  counts_of manifest = do
    n ← item manifest "file_count"
    size ← item manifest "total_size"
    ok (n, size)

  unfoldable pub on_pinned : Named → Value → Client → Result (File Pins) → Client × Result Bool
  on_pinned named manifest written (raise x) = (written, raise x)
  on_pinned named manifest written (ok pins) =
      on_logged named
        (record written { pins = pins; sites = insert uri (w.site_dir uri) written.sites })
        (counts_of manifest)

  unfoldable pub on_files :
      Named → PinStatus → ℤ → Value → Client → Result (List FileError) → Client × Result Bool
  on_files named status t manifest written (raise x) = (written, raise x)
  on_files named status t manifest written (ok (e ∷ es)) = give_up written
  on_files named status t manifest written (ok []) =
      on_pinned named manifest written
        (store_pin status uri named.key (author_text named.author) t now written.pins)

  unfoldable pub files_in : Option Site → Dict (List ℕ)
  files_in none = []
  files_in (some site) = site.files

  unfoldable pub on_written :
      Named → PinStatus → ℤ → Value → Spot × Result (Unit {0}) → Client × Result Bool
  on_written named status t manifest (spot, raise x) =
      let written = record c { spots = insert (w.site_dir uri) spot c.spots } in
      if is_content_error x then give_up written else (written, raise x)
  on_written named status t manifest (spot, ok done) =
      on_files named status t manifest (record c { spots = insert (w.site_dir uri) spot c.spots })
        (verify_files p w.resolve (w.locate uri) (files_in spot.current) manifest)

  unfoldable pub on_manifest : Named → PinStatus → ℤ → Fields → Result Value → Client × Result Bool
  on_manifest named status t response (raise x) = (c, raise x)
  on_manifest named status t response (ok manifest) = on_written named status t manifest (
      dict_to_bundle w.refuses p w.resolve (w.locate uri) (obj response)
        (spot_of c.spots (w.site_dir uri)))

  unfoldable pub on_download : Named → PinStatus → ℤ → Option Fields → Client × Result Bool
  on_download named status t none = give_up c
  on_download named status t (some response) =
      on_manifest named status t response (item (obj response) "manifest")

  unfoldable pub on_key :
      Named → PinStatus → ℤ → List String → Result p.PublicKey → Client × Result Bool
  on_key named status t addrs (raise x) = (c, raise x)
  on_key named status t addrs (ok key) = on_download named status t (
      try_download_from_seeders
        (validator p now w.resolve (w.locate uri) uri key named.manifest_ref) (w.download addrs))

  unfoldable pub on_status : Named → ℤ → List String → PinStatus → Client × Result Bool
  on_status named t addrs mismatch = give_up c
  on_status named t addrs rollback = give_up c
  on_status named t addrs unknown = on_key named unknown t addrs (load_key p (str named.key))
  on_status named t addrs match = on_key named match t addrs (load_key p (str named.key))

  unfoldable pub on_time : Named → List String → Pins → Result ℤ → Client × Result Bool
  on_time named addrs pins (raise x) = (c, raise x)
  on_time named addrs pins (ok t) = on_status named t addrs (check_pin pins uri named.key (some t))

  -- A pin store that cannot be read ends the fetch.
  unfoldable pub on_pins : Named → List String → Result Pins → Client × Result Bool
  on_pins named addrs (raise x) = give_up c
  on_pins named addrs (ok pins) = on_time named addrs pins (timestamp_of p now named.rec)

  unfoldable pub on_seeders : Named → List String → Client × Result Bool
  on_seeders named [] = give_up c
  on_seeders named (a ∷ addrs) = on_pins named (a ∷ addrs) (load_pinstore c.pins)

  -- `seeder_addrs`, or the providers that the DHT knows
  unfoldable pub seeders : Named → List String → List String
  seeders named [] = find_providers p true w.self_id w.dht uri named.key
  seeders named (a ∷ addrs) = a ∷ addrs

  unfoldable pub on_named : List String → Result (Option Named) → Client × Result Bool
  on_named addrs (raise x) = (c, raise x)
  on_named addrs (ok none) = give_up c
  on_named addrs (ok (some named)) = on_seeders named (seeders named addrs)

  unfoldable pub on_resolved : List String → Result Fields → Client × Result Bool
  on_resolved addrs (raise x) = (c, raise x)
  on_resolved addrs (ok reply) =
      let named = on_named addrs (name_record_of p now reply uri) in
      if not (is_text (get_or reply "type" null) "record") then give_up c else named

module _ (p : Platform) (now : ℤ) (w : Surroundings) (announce_after : Bool) where
  unfoldable pub with_naming :
      Option (Fields → Result Fields) → Client → String → List String → Client × Result Bool
  with_naming none c uri addrs = (c, raise value_error)
  with_naming (some rpc) c uri addrs =
      on_resolved p now w announce_after c uri rpc addrs (client_resolve rpc uri)

  unfoldable pub on_uri : UriError ⊎ String → Client → List String → Client × Result Bool
  on_uri (inl e) c addrs = (c, raise value_error)
  on_uri (inr uri) c addrs = with_naming w.naming c uri addrs

  -- `fetch_site(uri, seeder_addrs, announce_after)`
  unfoldable pub fetch_site : Client → String → List String → Client × Result Bool
  fetch_site c uri addrs = on_uri (validate_uri (str uri)) c addrs
