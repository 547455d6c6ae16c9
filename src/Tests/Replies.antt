-- ===== src/Tests/Replies.antt =====
-- A registration, and the order of the fields of a record, at concrete inputs.
use mdp2p.Dict.{lookup}
use mdp2p.Naming.Register.{handle_register-resolve}
use mdp2p.Naming.Messages.{found, ok_uri}
use mdp2p.Py.Result.{ok}
use mdp2p.Tests.Servers.{fresh}
use mdp2p.Prelude.Int.{pos}
use mdp2p.Py.Json.Laws.{canonical_json-SameEntries}
use mdp2p.Tests.Toy.{toy}
use mdp2p.Py.Text.{codes}
use mdp2p.Dict.Sorted.{SameEntries, swap}
use mdp2p.Py.Json.{dumps, canonical_json, dumps_fields}
use mdp2p.Py.Value.{Fields, get_or, field, str, obj, end, get_attr, truthy, or_empty, null}
use mdp2p.Naming.Server.{
  handle_register, with_record, handle_resolve, register_uri, register_valid, if_valid, register_at,
  if_stored,
}
use mdp2p.Bundle.Paths.{
  validate_uri, has_char, is_dot, has_dots, matches_uri, is_alnum, all_uri_chars, is_uri_char,
}
use mdp2p.Naming.Stores.Names
use mdp2p.Prelude.{[], refl, ◌≡◌, arith, eq_iff, inr}
use mdp2p.Tests.Records.{alice_record, signed, alice_verifies}

abbrev registration : Fields
registration =
    field "type" (str "register")
      (field "record" (obj alice_record) (field "signature" (str (signed alice_record)) end))

abbrev query : Fields
query = field "type" (str "resolve") (field "uri" (str "alice-site") end)

alice-IsAddress : validate_uri (str "alice-site") ≡ inr "alice-site"
unfolding validate_uri codes has_char is_dot has_dots matches_uri is_alnum all_uri_chars is_uri_char
alice-IsAddress = refl

registered : (handle_register toy (pos 1010) fresh registration).0 ≡ ok (ok_uri "alice-site")
unfolding handle_register with_record register_uri get_attr get_or mdp2p.Py.Value.get truthy
    or_empty signed register_valid if_valid register_at mdp2p.Naming.Stores.Names.set
    mdp2p.Naming.Stores.Names.check_set mdp2p.Naming.Stores.Names.get
    mdp2p.Naming.Stores.Names.commit if_stored mdp2p.Py.Value.slice lookup
registered = rw (alice-IsAddress, alice_verifies) refl

handle_register-resolve_example :
    (handle_resolve (handle_register toy (pos 1010) fresh registration).1 query).0
    ≡ ok (
        found (record {
          rec = or_empty (get_or registration "record" null);
          signature = get_or registration "signature" (str "");
        }))
unfolding get_or
handle_register-resolve_example =
    handle_register-resolve toy (pos 1010) fresh registration query "alice-site" registered refl

abbrev forwards : Fields
forwards = field "uri" (str "a") (field "author" (str "b") end)

abbrev backwards : Fields
backwards = field "author" (str "b") (field "uri" (str "a") end)

swapped : SameEntries (dumps_fields forwards) (dumps_fields backwards)
unfolding dumps
swapped = swap "uri" "author" _ _ [] (λ e. ground (arith, eq_iff "uri" "author", e))

canonical_json-SameEntries_example : canonical_json forwards ≡ canonical_json backwards
canonical_json-SameEntries_example = canonical_json-SameEntries forwards backwards swapped
