-- ===== src/Peer/Download.antt =====
-- peer/bundle_protocol.py: the seeder's answers and the parallel download. The attempts run side by
-- side, but each one ends in a stretch without a suspension: a run is the sequence of their ends.
pub mod Laws
use mdp2p.Peer.Check.{Rejection}
use mdp2p.Prelude.{Option, if◌then◌else◌, some, List, none, ◌∷◌, []}
use mdp2p.Py.Value.{null, str, obj, end, field, Value, Fields, with_field, is_text, get_or}
use mdp2p.Py.Result.{Exc, Result, ok, raise, ◌>>=◌, type_error}
use mdp2p.Bundle.Disk.{Site, bundle_to_dict}

-- How an attempt ends: after the timeout, with an exception, or with what the stream has brought
pub data Arrival : Type 0 where
  timed_out : Arrival
  broken : Exc → Arrival
  received : Value → Arrival

-- The end of `_download_one`: a dictionary of the type "bundle", or nothing
unfoldable pub bundle_response : Value → Option Fields
bundle_response (obj fs) = if is_text (get_or fs "type" null) "bundle" then some fs else none
bundle_response _ = none

module _ (validate : Fields → Result (Option Rejection)) where
  -- What is found valid: an exception of `validate` ends the attempt like a reason to discard.
  unfoldable pub accept : Fields → Result (Option Rejection) → Option Fields
  accept response (raise x) = none
  accept response (ok (some reason)) = none
  accept response (ok none) = some response

  unfoldable pub judge : Option Fields → Option Fields
  judge none = none
  judge (some response) = accept response (validate response)

  -- `try_one` under `guarded`
  unfoldable pub try_one : Arrival → Option Fields
  try_one timed_out = none
  try_one (broken x) = none
  try_one (received v) = judge (bundle_response v)

  -- The end of one attempt: a winner stays.
  unfoldable pub arrive : Option Fields → Arrival → Option Fields
  arrive (some winner) a = some winner
  arrive none a = try_one a

  unfoldable pub run_attempts : Option Fields → List Arrival → Option Fields
  run_attempts winner [] = winner
  run_attempts winner (a ∷ arrivals) = run_attempts (arrive winner a) arrivals

  -- `try_download_from_seeders(…)`, for a sequence of ends
  unfoldable pub try_download_from_seeders : List Arrival → Option Fields
  try_download_from_seeders arrivals = run_attempts none arrivals

-- `_send_error(stream, message)`; the message goes to the client only.
unfoldable pub error_reply : Fields
error_reply = field "type" (str "error") end

module _ (sites_lookup : Value → Option Site) (serialize : Site → Result Fields) where
  -- `data["type"] = "bundle"`
  unfoldable pub bundle_reply : Result Fields → Fields
  bundle_reply (raise x) = error_reply
  bundle_reply (ok fields) = with_field fields "type" (str "bundle")

  unfoldable pub manifest_reply : Site → Fields
  manifest_reply site =
      field "type" (str "manifest")
        (field "manifest" site.manifest (field "signature" (str site.signature) end))

  unfoldable pub reply_of : Value → Option Site → Fields
  reply_of msg_type none = error_reply
  reply_of msg_type (some site) =
      if is_text msg_type "get_bundle"
      then bundle_reply (serialize site)
      else if is_text msg_type "get_manifest"
      then manifest_reply site
      else error_reply

  -- The handler of `make_bundle_handler`: the reply, if there is one. What the stream brought is
  -- `recv_framed_json`'s; nothing was received after the timeout. `serialize` is `bundle_to_dict`.
  unfoldable pub handler : Option (Result Value) → Option Fields
  handler none = none
  handler (some (raise x)) = some error_reply
  handler (some (ok (obj msg))) =
      some (reply_of (get_or msg "type" (str "")) (sites_lookup (get_or msg "uri" (str ""))))
  handler (some (ok msg)) = none
