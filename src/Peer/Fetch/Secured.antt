-- ===== src/Peer/Fetch/Secured.antt =====
-- The stages of `fetch_site`, from the last one back to the first.
use mdp2p.Dict.Laws.{lookup-insert_self}
use mdp2p.Bundle.Payload.{validate_bundle_payload}
use mdp2p.Bundle.Disk.{Spot, FileError, Site}
use mdp2p.Peer.Fetch.Laws.{
  IsNamed, IsTrusted, IsOutcome, IsChosen, IsKeptClient, IsPlaced, on_logged-IsOutcome, IsPinStored,
  spot_of-insert,
}
use mdp2p.Prelude.{Bool, String, List, ◌≡◌, Option, ℕ, if◌then◌else◌}
use mdp2p.Peer.Fetch.{
  Surroundings, Client, Fields, Named, PinStatus, on_time, on_status, on_pins, on_seeders, Pins,
  ◌∷◌, unknown, load_pinstore, inl, inr, timestamp_of, on_key, on_download, validator, on_pinned,
  on_written, on_manifest, on_files, Arrival, store_pin, Value, load_key, spot_of, File,
  try_download_from_seeders, author_text, give_up, is_content_error,
}
use mdp2p.Prelude.Int.{ℤ}
use mdp2p.Platform.{Platform}
use mdp2p.Peer.Accepted.{check_downloaded_bundle-IsAccepted}
use mdp2p.Bundle.Disk.Laws.{IsWritten, IsCopy, dict_to_bundle-IsWritten}
use mdp2p.Peer.Download.Laws.{try_download_from_seeders-valid}
use mdp2p.Prelude.{◌⊎◌, [], ◌∷◌, refl, inl, inr, none, some, true, false, ap, sym, ◌∙◌}
use mdp2p.Pinstore.{PinStatus, unknown, match, mismatch, rollback}
use mdp2p.Py.Value.{null, str, int, arr, obj, bool, float}
use mdp2p.Py.Result.{Exc, Result, ok, raise}
use mdp2p.Dict.{insert, Dict}

module _ (p : Platform) (now : ℤ) (w : Surroundings) (announce_after : Bool) (c : Client)
    (uri : String) (rpc : Fields → Result Fields) where
  module _ (named : Named) (is_named : IsNamed p now w announce_after c uri rpc named) where
    module _ (t : ℤ) (status : PinStatus)
        (trusted : IsTrusted p now w announce_after c uri rpc named t status)
        (usable : (status ≡ unknown) ⊎ (status ≡ match)) where
      module _ (response : Fields)
          (chosen : IsChosen p now w announce_after c uri rpc named response) where
        pinned :
            (s : PinStatus) (pins : File Pins)
            → (s ≡ unknown) ⊎ (s ≡ match)
            → store_pin s uri named.key (author_text named.author) t now c.pins ≡ ok pins
            → IsPinStored p now w announce_after c uri rpc named t s pins
        unfolding store_pin
        pinned unknown pins h at = inl (refl, at)
        pinned match pins h at = inr (refl, at)
        pinned mismatch pins (inl e) at = absurd (cc)
        pinned mismatch pins (inr e) at = absurd (cc)
        pinned rollback pins (inl e) at = absurd (cc)
        pinned rollback pins (inr e) at = absurd (cc)

        on_pinned-IsOutcome :
            (written : Client) (manifest : Value) (r : Result (File Pins))
            → IsKeptClient p now w announce_after c uri rpc written
            → IsPlaced p now w announce_after c uri rpc response written.spots
            → store_pin status uri named.key (author_text named.author) t now c.pins ≡ r
            → IsOutcome p now w announce_after c uri rpc
                (on_pinned p now w announce_after c uri rpc named manifest written r)
        unfolding on_pinned
        on_pinned-IsOutcome written manifest (raise x) kept placed at = inl kept
        on_pinned-IsOutcome written manifest (ok pins) kept placed at =
            on_logged-IsOutcome p now w announce_after c uri rpc named _ _ record {
              named = named;
              is_named = is_named;
              t = t;
              status = status;
              trusted = trusted;
              response = response;
              chosen = chosen;
              placed = placed;
              pinned = pinned status pins usable at;
              in_sites = lookup-insert_self uri (w.site_dir uri) written.sites;
            }

        on_files-IsOutcome :
            (written : Client) (manifest : Value) (r : Result (List FileError))
            → IsKeptClient p now w announce_after c uri rpc written
            → IsPlaced p now w announce_after c uri rpc response written.spots
            → IsOutcome p now w announce_after c uri rpc
                (on_files p now w announce_after c uri rpc named status t manifest written r)
        unfolding on_files
        on_files-IsOutcome written manifest (raise x) kept placed = inl kept
        on_files-IsOutcome written manifest (ok (e ∷ es)) kept placed = kept
        on_files-IsOutcome written manifest (ok []) kept placed =
            on_pinned-IsOutcome written manifest _ kept placed
              (ap (store_pin status uri named.key (author_text named.author) t now) (sym kept.0))

        given_up :
            (b : Bool) (x : Exc) (after : Client)
            → IsKeptClient p now w announce_after c uri rpc after
            → IsOutcome p now w announce_after c uri rpc
                (if b then give_up after else (after, raise x))
        given_up true x after kept = kept
        given_up false x after kept = inl kept

        copy-IsPlaced :
            (files : List (String × List ℕ)) (new : Site) (spot : Spot) (spots : Dict Spot)
            → validate_bundle_payload p w.resolve (w.locate uri) (obj response) ≡ ok files
            → IsCopy (obj response) files new
            → spot.current ≡ some new
            → IsPlaced p now w announce_after c uri rpc response
                (insert (w.site_dir uri) spot spots)
        copy-IsPlaced files new spot spots valid copy current = record {
          site = new;
          current_at =
              ap (λ s. s.current)
                (spot_of-insert p now w announce_after c uri rpc (w.site_dir uri) spot spots)
              ∙ current;
          manifest_at = copy.manifest_at;
          files_at = valid ∙ ap ok (sym copy.files_at);
        }

        on_written-IsOutcome :
            (manifest : Value) (r : Spot × Result (Unit {0}))
            → IsWritten w.refuses p w.resolve
                (w.locate uri)
                (obj response)
                (spot_of c.spots (w.site_dir uri))
                r
            → IsOutcome p now w announce_after c uri rpc
                (on_written p now w announce_after c uri rpc named status t manifest r)
        unfolding on_written
        on_written-IsOutcome manifest (spot, raise x) h =
            given_up (is_content_error x) x _ (refl, refl)
        on_written-IsOutcome manifest (spot, ok done)
              (files, new, valid, copy, current, no_staging) =
            on_files-IsOutcome _ manifest _ (refl, refl)
              (copy-IsPlaced files new spot c.spots valid copy current)

        on_manifest-IsOutcome :
            (r : Result Value)
            → IsOutcome p now w announce_after c uri rpc
                (on_manifest p now w announce_after c uri rpc named status t response r)
        unfolding on_manifest
        on_manifest-IsOutcome (raise x) = inl (refl, refl)
        on_manifest-IsOutcome (ok manifest) = on_written-IsOutcome manifest _ (
            dict_to_bundle-IsWritten w.refuses p w.resolve (w.locate uri) (obj response)
              (spot_of c.spots (w.site_dir uri)))

      validator-IsChosen :
          (key : p.PublicKey) (v : Value) (response : Fields)
          → load_key p (str named.key) ≡ ok key
          → named.manifest_ref ≡ v
          → validator p now w.resolve (w.locate uri) uri key v response ≡ ok none
          → IsChosen p now w announce_after c uri rpc named response
      unfolding validator
      validator-IsChosen key (str ref) response key_at ref_at valid = record {
        key = key;
        key_at = key_at;
        ref = ref;
        ref_at = ref_at;
        accepted =
            check_downloaded_bundle-IsAccepted p w.resolve (w.locate uri) now response uri key ref
              valid;
      }
      validator-IsChosen key null response key_at ref_at valid = absurd (cc)
      validator-IsChosen key (bool b) response key_at ref_at valid = absurd (cc)
      validator-IsChosen key (int z) response key_at ref_at valid = absurd (cc)
      validator-IsChosen key (float r i) response key_at ref_at valid = absurd (cc)
      validator-IsChosen key (arr xs) response key_at ref_at valid = absurd (cc)
      validator-IsChosen key (obj fs) response key_at ref_at valid = absurd (cc)

      on_download-IsOutcome :
          (key : p.PublicKey) (arrivals : List Arrival) (o : Option Fields)
          → load_key p (str named.key) ≡ ok key
          → try_download_from_seeders
              (validator p now w.resolve (w.locate uri) uri key named.manifest_ref)
              arrivals
            ≡ o
          → IsOutcome p now w announce_after c uri rpc
              (on_download p now w announce_after c uri rpc named status t o)
      unfolding on_download
      on_download-IsOutcome key arrivals none key_at at = (refl, refl)
      on_download-IsOutcome key arrivals (some response) key_at at =
          on_manifest-IsOutcome response
            (validator-IsChosen key named.manifest_ref response key_at refl
              (try_download_from_seeders-valid _ arrivals response at))
            _

      on_key-IsOutcome :
          (addrs : List String) (r : Result p.PublicKey)
          → load_key p (str named.key) ≡ r
          → IsOutcome p now w announce_after c uri rpc
              (on_key p now w announce_after c uri rpc named status t addrs r)
      unfolding on_key
      on_key-IsOutcome addrs (raise x) at = inl (refl, refl)
      on_key-IsOutcome addrs (ok key) at = on_download-IsOutcome key (w.download addrs) _ at refl

    on_status-IsOutcome :
        (t : ℤ) (addrs : List String) (status : PinStatus)
        → IsTrusted p now w announce_after c uri rpc named t status
        → IsOutcome p now w announce_after c uri rpc
            (on_status p now w announce_after c uri rpc named t addrs status)
    unfolding on_status
    on_status-IsOutcome t addrs mismatch trusted = (refl, refl)
    on_status-IsOutcome t addrs rollback trusted = (refl, refl)
    on_status-IsOutcome t addrs unknown trusted =
        on_key-IsOutcome t unknown trusted (inl refl) addrs _ refl
    on_status-IsOutcome t addrs match trusted =
        on_key-IsOutcome t match trusted (inr refl) addrs _ refl

    on_time-IsOutcome :
        (addrs : List String) (pins : Pins) (r : Result ℤ)
        → load_pinstore c.pins ≡ ok pins
        → timestamp_of p now named.rec ≡ r
        → IsOutcome p now w announce_after c uri rpc
            (on_time p now w announce_after c uri rpc named addrs pins r)
    unfolding on_time
    on_time-IsOutcome addrs pins (raise x) loaded at = inl (refl, refl)
    on_time-IsOutcome addrs pins (ok t) loaded at =
        on_status-IsOutcome t addrs _
          record { timestamp_at = at; pins = pins; loaded = loaded; status_at = refl }

    on_pins-IsOutcome :
        (addrs : List String) (r : Result Pins)
        → load_pinstore c.pins ≡ r
        → IsOutcome p now w announce_after c uri rpc
            (on_pins p now w announce_after c uri rpc named addrs r)
    unfolding on_pins
    on_pins-IsOutcome addrs (raise x) at = (refl, refl)
    on_pins-IsOutcome addrs (ok pins) at = on_time-IsOutcome addrs pins _ at refl

    pub on_seeders-IsOutcome :
        (addrs : List String)
        → IsOutcome p now w announce_after c uri rpc
            (on_seeders p now w announce_after c uri rpc named addrs)
    unfolding on_seeders
    on_seeders-IsOutcome [] = (refl, refl)
    on_seeders-IsOutcome (a ∷ addrs) = on_pins-IsOutcome (a ∷ addrs) _ refl
