-- ===== src/Pinstore/Tofu.antt =====
-- Trust on first use: what `check_pin` of pinstore.py says after a key is pinned or unpinned.
use mdp2p.Dict.Laws.{Distinct-remove, lookup-remove}
use mdp2p.Dict.Sorted.{lookup-sort_keys}
use mdp2p.Pinstore.Laws.{lookup-save}
use mdp2p.Dict.{Distinct, lookup, insert, remove}
use mdp2p.Pinstore.{
  new_pin, Pins, first_seen_of, ℤ, unpin_in, Pin, unpin_key, sort_keys, pin_key, load_pinstore,
  check_pin, check_entry, save_pinstore, is_older, holds, ◌>>=◌, ok, unknown, match, mismatch,
}
use mdp2p.Prelude.{
  ◌==◌, String, Option, ◌≡◌, some, refl, none, ◌≢◌, ap, if◌then◌else◌, ◌∙◌, arith, eq_refl, eq_iff,
}

module _ (uri key author : String) (t : Option ℤ) (now : ℤ) (d : Pins) (distinct : Distinct d) where
  -- The pins are a dictionary, its keys distinct. Pinning a key, whatever was pinned before, makes it
  -- the one key that matches at its address: with no time stamp it matches, any other key is a
  -- mismatch, and the answers at every other address are the ones of before.
  pub pin_key-check_pin :
      (pins : Pins) × ((pin_key uri key author t now (holds d) >>= load_pinstore) ≡ ok pins)
      × (check_pin pins uri key none ≡ match)
      × ((other : String) (seen : Option ℤ)
          → key ≢ other
          → check_pin pins uri other seen ≡ mismatch)
      × ((at k : String) (seen : Option ℤ)
          → uri ≢ at
          → check_pin pins at k seen ≡ check_pin d at k seen)
  unfolding pin_key load_pinstore save_pinstore check_pin check_entry is_older new_pin
  pin_key-check_pin =
      let here : lookup uri (sort_keys (insert uri (new_pin key author t now (lookup uri d)) d))
          ≡ some (new_pin key author t now (lookup uri d)) =
        lookup-save uri uri (new_pin key author t now (lookup uri d)) d distinct
        ∙ ground (arith, eq_refl uri) in
      (
        sort_keys (insert uri (new_pin key author t now (lookup uri d)) d),
        refl,
        rw (here, eq_refl key) refl,
        (λ other seen differs. rw here (ground (arith, eq_iff key other, differs))),
        λ at k seen differs. ap (check_entry k seen) (
            lookup-save uri at (new_pin key author t now (lookup uri d)) d distinct
            ∙ ground (arith, eq_iff uri at, differs)),
      )

-- The pinned key keeps the moment at which the address was first seen.
first_seen-pin_key :
    (uri key author : String) (t : Option ℤ) (now : ℤ) (d : Pins) (e : Pin)
    → lookup uri d ≡ some e
    → (new_pin key author t now (lookup uri d)).first_seen ≡ e.first_seen
unfolding new_pin first_seen_of
first_seen-pin_key uri key author t now d e h = rw h refl

module _ (uri : String) (d : Pins) (distinct : Distinct d) where
  unpin-cases :
      (o : Option Pin)
      → lookup uri d ≡ o
      → (pins : Pins) × (load_pinstore (unpin_in uri d o (holds d)).1 ≡ ok pins)
        × (lookup uri pins ≡ none)
        × ((at : String) → uri ≢ at → lookup at pins ≡ lookup at d)
  unfolding unpin_in load_pinstore save_pinstore
  unpin-cases none h = (d, refl, h, λ at differs. refl)
  unpin-cases (some e) h =
      let gone : (at : String)
          → lookup at (sort_keys (remove uri d)) ≡ (if uri == at then none else lookup at d) =
        λ at.
          lookup-sort_keys at (remove uri d) (Distinct-remove uri d distinct)
          ∙ lookup-remove uri at d distinct in
      (
        sort_keys (remove uri d),
        refl,
        gone uri ∙ ground (arith, eq_refl uri),
        λ at differs. gone at ∙ ground (arith, eq_iff uri at, differs),
      )

  -- The pins are a dictionary, its keys distinct. After `unpin_key` the address is unknown, whatever
  -- key asks, and the answers at every other address are the ones of before.
  pub unpin_key-check_pin :
      (pins : Pins) × ((unpin_key uri (holds d) >>= λ r. load_pinstore r.1) ≡ ok pins)
      × ((key : String) (seen : Option ℤ) → check_pin pins uri key seen ≡ unknown)
      × ((at k : String) (seen : Option ℤ)
          → uri ≢ at
          → check_pin pins at k seen ≡ check_pin d at k seen)
  unfolding unpin_key check_pin check_entry load_pinstore
  unpin_key-check_pin =
      let (pins, loaded, absent_now, others) = unpin-cases (lookup uri d) refl in
      (
        pins,
        unfold load_pinstore in loaded,
        (λ key seen. ap (check_entry key seen) absent_now),
        λ at k seen differs. ap (check_entry k seen) (others at differs),
      )
