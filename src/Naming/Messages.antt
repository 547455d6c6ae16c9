-- ===== src/Naming/Messages.antt =====
-- The replies of the naming server, and their size on the wire.
use mdp2p.Prelude.{ℕ, Bool, false, String, Option, none, some, List, [], ◌∷◌, length, ltb}
use mdp2p.Prelude.Int.{pos}
use mdp2p.Py.Value.{Value, Items, Fields, null, int, str, arr, obj, nil, cons, end, field}
use mdp2p.Py.Json.{canonical_json}
use mdp2p.Bundle.Paths.{UriError}
use mdp2p.Bundle.Signed.{Reason}
use mdp2p.Naming.Stores.Disk.{Entry, Refusal}

-- The `msg` of an error reply.
pub data ServerError : Type 0 where
  malformed_request unknown_type internal_error : ServerError
  record_and_signature_required : ServerError
  bad_uri : UriError → ServerError
  unknown_uri : ServerError
  invalid_record : Reason → ServerError
  refused_write : Refusal → ServerError
  registry_disabled inbox_disabled attachments_disabled : ServerError
  too_many_reviewers : ℕ → ServerError
  duplicate_reviewer : ServerError
  unknown_reviewers : ℕ → ServerError
  no_assignment_inbox not_assigned after_deadline : ServerError
  reviewer_key_required content_key_required : ServerError

pub data Response : Type 0 where
  error : ServerError → Response
  ok_uri : String → Response
  ok_public_key : Value → Response
  ok_content_key : Value → Response
  found : Entry → Response
  names : List Value → Option ℕ → Response
  reviewers : List Entry → Option ℕ → Response
  assignments : List Entry → Response
  attachments : List Entry → Response

-- `{"record": record, "signature": signature}`
unfoldable pub pair : Entry → Value
pair e = obj (field "record" e.rec (field "signature" e.signature end))

unfoldable pub pairs : List Entry → Items
pairs [] = nil
pairs (e ∷ es) = cons (pair e) (pairs es)

unfoldable pub to_items : List Value → Items
to_items [] = nil
to_items (v ∷ vs) = cons v (to_items vs)

unfoldable pub offset_value : Option ℕ → Value
offset_value none = null
offset_value (some n) = int (pos n)

-- The dictionary of a reply that is no error.
unfoldable pub encode : Response → Fields
encode (error e) = field "type" (str "error") end
encode (ok_uri uri) = field "type" (str "ok") (field "uri" (str uri) end)
encode (ok_public_key v) = field "type" (str "ok") (field "public_key" v end)
encode (ok_content_key v) = field "type" (str "ok") (field "content_key" v end)
encode (found e) =
    field "type" (str "record") (field "record" e.rec (field "signature" e.signature end))
encode (names rs next) =
    field "type" (str "names")
      (field "records" (arr (to_items rs)) (field "next_offset" (offset_value next) end))
encode (reviewers es next) =
    field "type" (str "reviewers")
      (field "records" (arr (pairs es)) (field "next_offset" (offset_value next) end))
encode (assignments es) = field "type" (str "assignments") (field "records" (arr (pairs es)) end)
encode (attachments es) = field "type" (str "attachments") (field "records" (arr (pairs es)) end)

abbrev pub max_msg_size : ℕ
max_msg_size = 1048576

-- Whether `send_framed_json` refuses the reply. An error reply quotes at most the request, which is
-- far below the limit.
unfoldable pub is_oversized : Response → Bool
is_oversized (error e) = false
is_oversized r = ltb max_msg_size (length (canonical_json (encode r)))
