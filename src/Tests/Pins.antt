-- ===== src/Tests/Pins.antt =====
-- Pins at concrete inputs.
use mdp2p.Pinstore.Tofu.{pin_key-check_pin}
use mdp2p.Pinstore.Laws.{refresh, update-check_pin}
use mdp2p.Py.Result.{◌>>=◌, ok}
use mdp2p.Prelude.Int.{pos, ℤ}
use mdp2p.Naming.Stores.Disk.{File, holds}
use mdp2p.Pinstore.{
  Pin, Pins, pin_key, update_pin_last_seen, load_pinstore, check_pin, rollback, match, mismatch,
}
use mdp2p.Dict.{lookup, Distinct}
use mdp2p.Prelude.{[], ◌∷◌, some, refl, none, ◌≡◌, String, Option, arith, ◌≢◌}

abbrev alice_pin : Pin
alice_pin = record {
  public_key = "alice";
  author = "Alice";
  first_seen = pos 10;
  last_seen = pos 10;
  record_timestamp = some (pos 1000);
}

abbrev pins : Pins
pins = ("alice-site", alice_pin) ∷ []

pins-Distinct : Distinct pins
unfolding lookup
pins-Distinct = (refl, tt)

update-check_pin_example :
    (f : File Pins) × ((update_pin_last_seen "alice-site" (some (pos 2000)) (pos 50) (holds pins)
        >>= refresh (("bob-site", some (pos 7), pos 60) ∷ ("alice-site", none, pos 70) ∷ []))
      ≡ ok f)
    × ((load_pinstore f >>= λ ps. ok (check_pin ps "alice-site" "alice" (some (pos 1500))))
        ≡ ok rollback)
unfolding lookup
update-check_pin_example =
    update-check_pin "alice-site" (pos 2000) (pos 50) pins alice_pin pins-Distinct refl
      (("bob-site", some (pos 7), pos 60) ∷ ("alice-site", none, pos 70) ∷ []) (pos 1500)
      (omega arith)

pin_key-check_pin_example :
    (ps : Pins) × ((pin_key "bob-site" "bob" "Bob" none (pos 80) (holds pins) >>= load_pinstore)
      ≡ ok ps)
    × (check_pin ps "bob-site" "bob" none ≡ match)
    × ((other : String) (seen : Option ℤ)
        → "bob" ≢ other
        → check_pin ps "bob-site" other seen ≡ mismatch)
    × ((at k : String) (seen : Option ℤ)
        → "bob-site" ≢ at
        → check_pin ps at k seen ≡ check_pin pins at k seen)
pin_key-check_pin_example =
    pin_key-check_pin "bob-site" "bob" "Bob" none (pos 80) pins pins-Distinct
