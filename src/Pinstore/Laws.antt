-- ===== src/Pinstore/Laws.antt =====
-- What the pins of pinstore.py guarantee.
use mdp2p.Dict.Laws.{Distinct-insert, lookup-insert}
use mdp2p.Dict.Sorted.{Distinct-sort_keys, lookup-sort_keys}
use mdp2p.Dict.{Distinct, insert}
use mdp2p.Prelude.Int.{max_ℤ, ◌<ℤ◌, ◌≤ℤ◌}
use mdp2p.Pinstore.{
  update_pin_last_seen, raised_mark, load_pinstore, touch_in, max_ℤ, check_pin, Pin, ℤ,
  save_pinstore, check_entry, Pins, File, lookup, Result, is_older, ok, holds, sort_keys, pos,
  ◌>>=◌, rollback, ltb_ℤ,
}
use mdp2p.Prelude.{
  [], ◌∷◌, List, String, Option, ◌==◌, ◌≡◌, some, none, false, ◌∙◌, ap, Bool-cases, refl,
  Option-cases, arith, inl, eq_refl, if◌then◌else◌, subst, inr, true, sym, eq_iff,
}

-- The file holds a pin of the address, with that key and a mark that is at least as high.
pub record IsPinned (uri key : String) (mark : ℤ) (f : File Pins) : Type 0 where
  pub pins : Pins
  pub held : f ≡ holds pins
  pub distinct : Distinct pins
  pub pin : Pin
  pub found : lookup uri pins ≡ some pin
  pub same_key : pin.public_key ≡ key
  pub seen : ℤ
  pub marked : pin.record_timestamp ≡ some seen
  pub high : mark ≤ℤ seen

Distinct-save :
    (uri : String) (e : Pin) (d : Pins) → Distinct d → Distinct (sort_keys (insert uri e d))
Distinct-save uri e d u = Distinct-sort_keys (insert uri e d) (Distinct-insert uri e d u)

pub lookup-save :
    (uri at : String) (e : Pin) (d : Pins)
    → Distinct d
    → lookup at (sort_keys (insert uri e d)) ≡ (if uri == at then some e else lookup at d)
lookup-save uri at e d u =
    lookup-sort_keys at (insert uri e d) (Distinct-insert uri e d u) ∙ lookup-insert uri at e d

-- The mark that an update leaves is at least the old one and at least the new time stamp.
raised-old : (t : Option ℤ) (old : ℤ) → (m : ℤ) × (raised_mark t (some old) ≡ some m) × (old ≤ℤ m)
unfolding raised_mark max_ℤ
raised-old none old = (old, refl, omega arith)
raised-old (some t) old = (max_ℤ t old, refl, ground arith)

raised-new : (t : ℤ) (old : Option ℤ) → (m : ℤ) × (raised_mark (some t) old ≡ some m) × (t ≤ℤ m)
unfolding raised_mark max_ℤ
raised-new t none = (max_ℤ t (pos 0), refl, ground arith)
raised-new t (some old) = (max_ℤ t old, refl, ground arith)

-- The update of an address that is pinned
touched :
    (uri : String) (t : Option ℤ) (now : ℤ) (d : Pins) (e : Pin)
    → lookup uri d ≡ some e
    → update_pin_last_seen uri t now (holds d)
      ≡ ok (
          holds (
            sort_keys (
              insert uri
                (record e { last_seen = now; record_timestamp = raised_mark t e.record_timestamp })
                d)))
unfolding update_pin_last_seen load_pinstore touch_in save_pinstore
touched uri t now d e h = rw h refl

skipped :
    (uri : String) (t : Option ℤ) (now : ℤ) (d : Pins)
    → lookup uri d ≡ none
    → update_pin_last_seen uri t now (holds d) ≡ ok (holds d)
unfolding update_pin_last_seen load_pinstore touch_in
skipped uri t now d h = rw h refl

-- The first update records the time stamp.
mark-IsPinned :
    (uri : String) (t now : ℤ) (d : Pins) (e : Pin)
    → Distinct d
    → lookup uri d ≡ some e
    → (f : File Pins) × (update_pin_last_seen uri (some t) now (holds d) ≡ ok f)
      × IsPinned uri e.public_key t f
mark-IsPinned uri t now d e u h =
    let (m, is_m, high) = raised-new t e.record_timestamp in
    (
      _,
      touched uri (some t) now d e h,
      record {
        pins = _;
        held = refl;
        distinct = Distinct-save uri _ d u;
        pin = record e {
          last_seen = now;
          record_timestamp = raised_mark (some t) e.record_timestamp;
        };
        found = lookup-save uri uri _ d u ∙ ground (arith, eq_refl uri);
        same_key = refl;
        seen = m;
        marked = is_m;
        high = high;
      },
    )

-- An update of the same address keeps the pin and raises its mark.
same-IsPinned :
    (uri key : String) (mark : ℤ) (f : File Pins) (t : Option ℤ) (now : ℤ)
    → IsPinned uri key mark f
    → (f' : File Pins) × (update_pin_last_seen uri t now f ≡ ok f') × IsPinned uri key mark f'
same-IsPinned uri key mark f t now p =
    let (m, is_m, higher) = raised-old t p.seen in
    (
      _,
      ap (update_pin_last_seen uri t now) p.held ∙ touched uri t now p.pins p.pin p.found,
      record {
        pins = _;
        held = refl;
        distinct = Distinct-save uri _ p.pins p.distinct;
        pin = record p.pin {
          last_seen = now;
          record_timestamp = raised_mark t p.pin.record_timestamp;
        };
        found = lookup-save uri uri _ p.pins p.distinct ∙ ground (arith, eq_refl uri);
        same_key = p.same_key;
        seen = m;
        marked = ap (raised_mark t) p.marked ∙ is_m;
        high = omega (arith, p.high, higher);
      },
    )

other-IsPinned :
    (uri at key : String) (mark : ℤ) (f : File Pins) (t : Option ℤ) (now : ℤ)
    → (at == uri) ≡ false
    → IsPinned uri key mark f
    → (f' : File Pins) × (update_pin_last_seen at t now f ≡ ok f') × IsPinned uri key mark f'
other-IsPinned uri at key mark f t now other p = elim (Option-cases (lookup at p.pins)) [
  | inl absent_there ↦ (
    holds p.pins,
    ap (update_pin_last_seen at t now) p.held ∙ skipped at t now p.pins absent_there,
    record {
      pins = p.pins;
      held = refl;
      distinct = p.distinct;
      pin = p.pin;
      found = p.found;
      same_key = p.same_key;
      seen = p.seen;
      marked = p.marked;
      high = p.high;
    },
  )
  | inr (e, there) ↦ (
    _,
    ap (update_pin_last_seen at t now) p.held ∙ touched at t now p.pins e there,
    record {
      pins = _;
      held = refl;
      distinct = Distinct-save at _ p.pins p.distinct;
      pin = p.pin;
      found = lookup-save at uri _ p.pins p.distinct ∙ ground (arith, other, p.found);
      same_key = p.same_key;
      seen = p.seen;
      marked = p.marked;
      high = p.high;
    },
  )
]

update-IsPinned :
    (uri at key : String) (mark : ℤ) (f : File Pins) (t : Option ℤ) (now : ℤ)
    → IsPinned uri key mark f
    → (f' : File Pins) × (update_pin_last_seen at t now f ≡ ok f') × IsPinned uri key mark f'
update-IsPinned uri at key mark f t now p = elim (Bool-cases (at == uri)) [
  | inl here ↦
      subst
        (λ a.
          (f' : File Pins) × (update_pin_last_seen a t now f ≡ ok f') × IsPinned uri key mark f')
        (sym ((eq_iff at uri).0 here)) (same-IsPinned uri key mark f t now p)
  | inr other ↦ other-IsPinned uri at key mark f t now other p
]

-- Updates one after the other, each with its address, time stamp and clock
abbrev pub refresh : List (String × Option ℤ × ℤ) → File Pins → Result (File Pins)
refresh [] f = ok f
refresh ((at, t, now) ∷ rest) f = update_pin_last_seen at t now f >>= refresh rest

refresh-IsPinned :
    (uri key : String) (mark : ℤ) (updates : List (String × Option ℤ × ℤ)) (f : File Pins)
    → IsPinned uri key mark f
    → (f' : File Pins) × (refresh updates f ≡ ok f') × IsPinned uri key mark f'
refresh-IsPinned uri key mark [] f p = (f, refl, p)
refresh-IsPinned uri key mark ((at, t, now) ∷ rest) f p =
    let (f₁, one, p₁) = update-IsPinned uri at key mark f t now p in
    let (f₂, more, p₂) = refresh-IsPinned uri key mark rest f₁ p₁ in
    (f₂, ap (λ r. r >>= refresh rest) one ∙ more, p₂)

IsPinned-rollback :
    (uri key : String) (mark : ℤ) (f : File Pins) (t : ℤ)
    → IsPinned uri key mark f
    → t <ℤ mark
    → (load_pinstore f >>= λ d. ok (check_pin d uri key (some t))) ≡ ok rollback
unfolding load_pinstore check_pin check_entry is_older
IsPinned-rollback uri key mark f t p older =
    let lower : ltb_ℤ t p.seen ≡ true = ground (arith, p.high, older) in
    rw (p.held, p.found, p.same_key, eq_refl key, p.marked, lower) refl

-- The pins are a dictionary, its keys distinct. Once a client has recorded the time stamp of a naming
-- record for an address that it has pinned, the record of an earlier time stamp under the same key is
-- a rollback, whatever addresses the client updates in between, with whatever time stamps, and the
-- file can be read all along.
pub update-check_pin :
    (uri : String) (t now : ℤ) (d : Pins) (e : Pin)
    → Distinct d
    → lookup uri d ≡ some e
    → (updates : List (String × Option ℤ × ℤ)) (earlier : ℤ) → earlier <ℤ t
    → (f : File Pins) × ((update_pin_last_seen uri (some t) now (holds d) >>= refresh updates)
        ≡ ok f)
      × ((load_pinstore f >>= λ pins. ok (check_pin pins uri e.public_key (some earlier)))
          ≡ ok rollback)
update-check_pin uri t now d e u h updates earlier older =
    let (f₁, one, p₁) = mark-IsPinned uri t now d e u h in
    let (f₂, more, p₂) = refresh-IsPinned uri e.public_key t updates f₁ p₁ in
    (
      f₂,
      ap (λ r. r >>= refresh updates) one ∙ more,
      IsPinned-rollback uri e.public_key t f₂ earlier p₂ older,
    )
