-- ===== src/Py/Json/Laws.antt =====
-- The canonical JSON of a dictionary does not depend on the order of its insertion.
use mdp2p.Dict.Sorted.{SameEntries, sort_keys-SameEntries}
use mdp2p.Py.Json.{canonical_json, dumps, Fields, dumps_fields, write_sorted}
use mdp2p.Prelude.{◌≡◌, ap}

-- Two dictionaries with the same keys, each with a value of the same JSON, have the same canonical
-- JSON, in whatever order the keys were inserted: so a signature made over one verifies over the
-- other.
pub canonical_json-SameEntries :
    (fs gs : Fields)
    → SameEntries (dumps_fields fs) (dumps_fields gs)
    → canonical_json fs ≡ canonical_json gs
unfolding canonical_json dumps
canonical_json-SameEntries fs gs same = ap write_sorted (sort_keys-SameEntries same)
