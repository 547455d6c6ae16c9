-- ===== src/Peer/Fetch/Laws.antt =====
-- What `fetch_site` has made sure of when it has changed what the client trusts.
use mdp2p.Bundle.Payload.{validate_bundle_payload}
use mdp2p.Dict.Laws.{lookup-insert_self}
use mdp2p.Prelude.{Bool, String, ◌≡◌, ◌⊎◌, inr, true, false, ap, some, ◌∙◌, none}
use mdp2p.Peer.Fetch.{
  Surroundings, Client, Fields, on_logged, on_announced, with_attachments, cache_attachments, Named,
  spot_of, Value, Spot, spot_in, client_resolve, PinStatus, load_key, timestamp_of, File, item,
  Site, verify_name_record, Pins, unknown, load_pinstore, valid, pin_key, check_pin, author_text,
  get_attr, match, update_pin_last_seen,
}
use mdp2p.Prelude.Int.{ℤ}
use mdp2p.Platform.{Platform}
use mdp2p.Peer.Accepted.{IsAccepted}
use mdp2p.Py.Value.{null, str, obj}
use mdp2p.Py.Result.{Result, ok, raise}
use mdp2p.Dict.{lookup, insert, Dict}

module _ (p : Platform) (now : ℤ) (w : Surroundings) (announce_after : Bool) (c : Client)
    (uri : String) (rpc : Fields → Result Fields) where
  -- The naming server has answered with a record that is signed by the key in it, for this address.
  pub record IsNamed (named : Named) : Type 0 where
    pub reply : Fields
    pub resolved : client_resolve rpc uri ≡ ok reply
    pub rec_at : item (obj reply) "record" ≡ ok named.rec
    pub signature : Value
    pub signature_at : item (obj reply) "signature" ≡ ok signature
    pub verified : verify_name_record p now none named.rec signature ≡ ok valid
    pub names : get_attr named.rec "uri" null ≡ ok (str uri)
    pub key_at : item named.rec "public_key" ≡ ok (str named.key)
    pub ref_at : item named.rec "manifest_ref" ≡ ok named.manifest_ref

  -- The pin store can be read, and has this to say of the key and the time stamp of the record.
  pub record IsTrusted (named : Named) (t : ℤ) (status : PinStatus) : Type 0 where
    pub timestamp_at : timestamp_of p now named.rec ≡ ok t
    pub pins : Pins
    pub loaded : load_pinstore c.pins ≡ ok pins
    pub status_at : check_pin pins uri named.key (some t) ≡ status

  -- The bundle is accepted, for the key and the reference of the record.
  pub record IsChosen (named : Named) (response : Fields) : Type 0 where
    pub key : p.PublicKey
    pub key_at : load_key p (str named.key) ≡ ok key
    pub ref : String
    pub ref_at : named.manifest_ref ≡ str ref
    pub accepted : IsAccepted p w.resolve (w.locate uri) now response uri key ref

  -- The site's directory holds the manifest and the files of the bundle.
  pub record IsPlaced (response : Fields) (spots : Dict Spot) : Type 0 where
    pub site : Site
    pub current_at : (spot_of spots (w.site_dir uri)).current ≡ some site
    pub manifest_at : item (obj response) "manifest" ≡ ok site.manifest
    pub files_at : validate_bundle_payload p w.resolve (w.locate uri) (obj response) ≡ ok site.files

  -- A first visit pins the key, and a later one moves the mark of a key that matches.
  abbrev pub IsPinStored : Named → ℤ → PinStatus → File Pins → Type 0
  IsPinStored named t status after =
      ((status ≡ unknown)
        × (pin_key uri named.key (author_text named.author) (some t) now c.pins ≡ ok after))
      ⊎ ((status ≡ match) × (update_pin_last_seen uri (some t) now c.pins ≡ ok after))

  pub record IsSecured (after : Client) : Type 0 where
    pub named : Named
    pub is_named : IsNamed named
    pub t : ℤ
    pub status : PinStatus
    pub trusted : IsTrusted named t status
    pub response : Fields
    pub chosen : IsChosen named response
    pub placed : IsPlaced response after.spots
    pub pinned : IsPinStored named t status after.pins
    pub in_sites : lookup uri after.sites ≡ some (w.site_dir uri)

  -- The pins and the sites are those of before.
  abbrev pub IsKeptClient : Client → Type 0
  IsKeptClient after = (after.pins ≡ c.pins) × (after.sites ≡ c.sites)

  abbrev pub IsOutcome : Client × Result Bool → Type 0
  IsOutcome (after, ok true) = IsSecured after
  IsOutcome (after, ok false) = IsKeptClient after
  IsOutcome (after, raise x) = IsKeptClient after ⊎ IsSecured after

  pub spot_of-insert :
      (dir : String) (spot : Spot) (spots : Dict Spot) → spot_of (insert dir spot spots) dir ≡ spot
  unfolding spot_of spot_in
  spot_of-insert dir spot spots = ap spot_in (lookup-insert_self dir spot spots)

  -- The attachments stand beside the files.
  IsPlaced-attachments :
      (response : Fields) (spots : Dict Spot) (v : Value)
      → IsPlaced response spots
      → IsPlaced response (
          insert
            (w.site_dir uri)
            (record (spot_of spots (w.site_dir uri)) {
              current = with_attachments v (spot_of spots (w.site_dir uri)).current;
            })
            spots)
  unfolding with_attachments
  IsPlaced-attachments response spots v is = record {
    site = record is.site { attachments = some v };
    current_at =
        ap (λ s. s.current) (spot_of-insert (w.site_dir uri) _ spots)
        ∙ ap (with_attachments v) is.current_at;
    manifest_at = is.manifest_at;
    files_at = is.files_at;
  }

  IsSecured-spots :
      (after : Client) (spots : Dict Spot)
      → ((response : Fields) → IsPlaced response after.spots → IsPlaced response spots)
      → IsSecured after
      → IsSecured (record after { spots = spots })
  IsSecured-spots after spots f s = record {
    named = s.named;
    is_named = s.is_named;
    t = s.t;
    status = s.status;
    trusted = s.trusted;
    response = s.response;
    chosen = s.chosen;
    placed = f s.response s.placed;
    pinned = s.pinned;
    in_sites = s.in_sites;
  }

  cache_attachments-IsSecured :
      (content_key : String) (reply : Result Fields) (after : Client)
      → IsSecured after
      → IsSecured (cache_attachments (w.site_dir uri) content_key reply after)
  unfolding cache_attachments
  cache_attachments-IsSecured content_key (raise x) after s = s
  cache_attachments-IsSecured content_key (ok reply) after s =
      IsSecured-spots after _ (λ response. IsPlaced-attachments response after.spots _) s

  on_announced-IsOutcome :
      (after : Client) (r : Result Bool)
      → IsSecured after
      → IsOutcome (on_announced p now w announce_after c uri rpc after r)
  unfolding on_announced
  on_announced-IsOutcome after (raise x) s = inr s
  on_announced-IsOutcome after (ok b) s = s

  pub on_logged-IsOutcome :
      (named : Named) (after : Client) (r : Result (Value × Value))
      → IsSecured after
      → IsOutcome (on_logged p now w announce_after c uri rpc named after r)
  unfolding on_logged
  on_logged-IsOutcome named after (raise x) s = inr s
  on_logged-IsOutcome named after (ok counts) s =
      on_announced-IsOutcome _ _ (cache_attachments-IsSecured _ _ after s)
