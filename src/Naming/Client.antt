-- ===== src/Naming/Client.antt =====
-- The clients of naming.py: one request, and the listings that follow `next_offset` over all pages. The
-- connection, `_rpc` without its streams, is an argument: it gives the reply or raises.
pub mod Laws
use mdp2p.Prelude.Int.{pos}
use mdp2p.Py.Result.{◌>>=◌, Result, ok, raise, type_error}
use mdp2p.Prelude.{ℕ, String, Bool, if◌then◌else◌, true, ◌==◌, suc, false, zero}
use mdp2p.Py.Value.{
  Value, Items, Fields, nil, field, cons, arr, str, null, int, end, obj, bool, truthy, is_text,
  get_or, with_field,
}

unfoldable pub append : Items → Items → Items
append nil ys = ys
append (cons x xs) ys = cons x (append xs ys)

unfoldable pub chars : String → Items
chars String.[] = nil
chars (String.◌∷◌ c s) = cons (str (String.◌∷◌ c String.[])) (chars s)

unfoldable pub key_items : Fields → Items
key_items end = nil
key_items (field k v fs) = cons (str k) (key_items fs)

-- What `records.extend(v)` goes through
unfoldable pub iterate : Value → Result Items
iterate (arr xs) = ok xs
iterate (str s) = ok (chars s)
iterate (obj fs) = ok (key_items fs)
iterate _ = raise type_error

-- `records.extend(v or [])`
unfoldable pub extend : Items → Value → Result Items
extend records v = do more ← (if truthy v then iterate v else ok nil); ok (append records more)

-- `isinstance(v, int)`, which holds of a Boolean too
unfoldable pub is_int : Value → Bool
is_int (int z) = true
is_int (bool b) = true
is_int _ = false

unfoldable pub merged : Fields → Items → Fields
merged response records =
    with_field (with_field response "records" (arr records)) "next_offset" null

module _ (rpc : Fields → Result Fields) (request : Fields) where
  -- The loop of `_rpc_all_pages`; the first argument is the number of its runs that are left.
  unfoldable pub follow : ℕ → Items → Value → Fields → Result Fields
  follow zero records offset response = ok (merged response records)
  follow (suc n) records offset response = do
    reply ← rpc (with_field request "offset" offset)
    if is_text (get_or reply "type" null) "error" then ok reply else do
      records' ← extend records (get_or reply "records" null)
      let next = get_or reply "next_offset" null
      let rest = follow n records' next reply
      if is_int next then rest else ok (merged reply records')

abbrev pub max_pages : ℕ
max_pages = 1000

-- `_rpc_all_pages(host, server_info, request)`
unfoldable pub rpc_all_pages : (Fields → Result Fields) → Fields → Result Fields
rpc_all_pages rpc request = follow rpc request max_pages nil (int (pos 0)) end

-- The requests of the clients
unfoldable pub type_request : String → Fields
type_request type = field "type" (str type) end

unfoldable pub signed_request : String → Value → String → Fields
signed_request type rec signature =
    field "type" (str type) (field "record" rec (field "signature" (str signature) end))

unfoldable pub key_request : String → String → String → Fields
key_request type key_field key = field "type" (str type) (field key_field (str key) end)

module _ (rpc : Fields → Result Fields) where
  unfoldable pub client_register : Value → String → Result Fields
  client_register rec signature = rpc (signed_request "register" rec signature)

  unfoldable pub client_resolve : String → Result Fields
  client_resolve uri = rpc (key_request "resolve" "uri" uri)

  unfoldable pub client_list : Result Fields
  client_list = rpc_all_pages rpc (type_request "list")

  unfoldable pub client_register_reviewer : Value → String → Result Fields
  client_register_reviewer rec signature = rpc (signed_request "register_reviewer" rec signature)

  unfoldable pub client_list_reviewers : Result Fields
  client_list_reviewers = rpc_all_pages rpc (type_request "list_reviewers")

  unfoldable pub client_post_assignment : Value → String → Result Fields
  client_post_assignment rec signature = rpc (signed_request "post_assignment" rec signature)

  unfoldable pub client_list_assignments : String → Result Fields
  client_list_assignments key = rpc (key_request "list_assignments" "reviewer_public_key" key)

  unfoldable pub client_attach_review : Value → String → Result Fields
  client_attach_review rec signature = rpc (signed_request "attach_review" rec signature)

  unfoldable pub client_get_attachments : String → Result Fields
  client_get_attachments key = rpc (key_request "get_attachments" "content_key" key)
