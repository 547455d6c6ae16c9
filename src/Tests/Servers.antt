-- ===== src/Tests/Servers.antt =====
-- The naming server at concrete requests.
use mdp2p.Dict.Every.{Every₂, Every-empty, Every, Every₂-empty}
use mdp2p.Naming.Messages.{to_items}
use mdp2p.Py.Result.{ok}
use mdp2p.Naming.Owner.{serve-IsBound}
use mdp2p.Naming.Stores.Names.Laws.{IsBound}
use mdp2p.Naming.Step.Requests.{handle_stream-Step}
use mdp2p.Naming.Authentic.Serve.{serve-IsAuthentic}
use mdp2p.Tests.Records.{alice_record, bob_opt_in, assignment, signed, review}
use mdp2p.Naming.Assigned.{IsStrict, serve-IsStrict, IsAssigned}
use mdp2p.Naming.Dispatch.{serve, handle_stream}
use mdp2p.Naming.Client.Laws.{list_rpc, client_list-records}
use mdp2p.Tests.Toy.{toy}
use mdp2p.Naming.Client.{client_list}
use mdp2p.Dict.{slot, lookup}
use mdp2p.Naming.Server.{NamingServer}
use mdp2p.Py.Value.{Fields, obj, Value, str, field, get_or, end, null, arr, Items}
use mdp2p.Naming.Authentic.{IsAuthentic, IsOptInAt, IsAssignmentAt, IsReviewAt}
use mdp2p.Prelude.Int.{ℤ, pos, ◌≤ℤ◌}
use mdp2p.Naming.Stores.Disk.{Entry, absent}
use mdp2p.Naming.Step.{Step}
use mdp2p.Prelude.{
  refl, [], ◌∷◌, String, List, Option, some, ◌≡◌, true, none, arith, subst, some_injective,
}
use mdp2p.Naming.Stores.Names

-- A server that has all four stores, with nothing in them
abbrev pub fresh : NamingServer
fresh = record {
  store = record { records = []; file = absent };
  reviewer_store = some (record { records = []; file = absent });
  assignment_store = some (record { inbox = []; file = absent });
  attachment_store = some (record { attachments = []; file = absent });
  strict_reviews = true;
}

abbrev request : String → Fields → Option Value
request type rec = some (
    obj (
      field "type" (str type)
        (field "record" (obj rec) (field "signature" (str (signed rec)) end))))

abbrev day : List (ℤ × Option Value)
day =
    (pos 1010, request "register" alice_record)
    ∷ (pos 1010, request "register_reviewer" bob_opt_in)
    ∷ (pos 1011, request "post_assignment" assignment)
    ∷ (pos 1012, request "attach_review" review)
    ∷ (pos 1013, none)
    ∷ []

-- The step of the first request
handle_stream-Step_example :
    Step toy
      (pos 1010)
      fresh
      (handle_stream toy (pos 1010) fresh (request "register" alice_record)).1
handle_stream-Step_example =
    handle_stream-Step toy (pos 1010) fresh (request "register" alice_record)

fresh-IsStrict : IsStrict fresh
fresh-IsStrict = record {
  assigned = λ strict store e.
      subst (λ x. Every₂ (λ c r e. IsAssigned fresh c r) x.attachments) (some_injective _ _ e)
        (Every₂-empty _);
}

fresh-IsAuthentic : IsAuthentic toy fresh
fresh-IsAuthentic = record {
  names = Every-empty _;
  opt_ins = λ store e.
      subst (λ x. Every (IsOptInAt toy) x.records) (some_injective _ _ e) (Every-empty _);
  assignments = λ store e.
      subst (λ x. Every₂ (IsAssignmentAt toy) x.inbox) (some_injective _ _ e) (Every₂-empty _);
  reviews = λ store e.
      subst (λ x. Every₂ (IsReviewAt toy) x.attachments) (some_injective _ _ e) (Every₂-empty _);
}

serve-IsStrict_example : IsStrict (serve toy fresh day)
serve-IsStrict_example = serve-IsStrict toy fresh fresh-IsStrict day

serve-IsAuthentic_example : IsAuthentic toy (serve toy fresh day)
serve-IsAuthentic_example = serve-IsAuthentic toy fresh fresh-IsAuthentic day

abbrev alice_entry : Entry
alice_entry = record { rec = obj alice_record; signature = str (signed alice_record) }

-- A server that has Alice's record
abbrev bound : NamingServer
bound = record fresh {
  store = record { records = ("alice-site", alice_entry) ∷ []; file = absent };
}

serve-IsBound_example :
    (t' : ℤ) × (pos 1000 ≤ℤ t') × IsBound (serve toy bound day).store "alice-site" "alice" t'
unfolding Names.get lookup mdp2p.Py.Value.get_attr mdp2p.Naming.Stores.Disk.timestamp
    mdp2p.Py.Number.to_int
serve-IsBound_example =
    serve-IsBound toy bound "alice-site" "alice" (pos 1000)
      (record { entry = alice_entry; found = refl; owner = refl; stamped = refl }) day

client_list-records_example :
    (fs : Fields) × (client_list (list_rpc bound) ≡ ok fs)
    × (get_or fs "records" null ≡ arr (to_items (Names.list_records bound.store)))
unfolding Names.list_records mdp2p.Dict.values
client_list-records_example = client_list-records bound (omega arith)
