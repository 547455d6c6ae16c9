-- ===== src/Peer/Rediscover/Laws.antt =====
-- What a peer that starts seeds: exactly the addresses whose manifests its directories hold.
use mathlib.Core.List.{Memᴰ}
use mdp2p.Prelude.{
  String, Option, none, some, false, ◌∷◌, ◌==◌, ◌≡◌, ◌⊎◌, inl, inr, ap, Bool-cases, sym, ◌∙◌, arith,
  eq_iff, refl, subst, [],
}
use mdp2p.Bundle.Disk.{Site, Spot}
use mdp2p.Dict.{Dict, lookup}
use mdp2p.Dict.Laws.{lookup-insert, lookup-insert_self}
use mdp2p.Py.Result.{Result, ok}
use mdp2p.Py.Value.{Value, str, null, get_attr}
use mdp2p.Peer.Rediscover.{attach_peer, address_of, seed, address_at, rediscover, Client}

-- The directory holds a manifest for the address.
pub record IsHeld (spots : Dict Spot) (uri dir : String) : Type 0 where
  pub spot : Spot
  pub among : Memᴰ (dir, spot) spots
  pub site : Site
  pub site_at : spot.current ≡ some site
  pub uri_at : get_attr site.manifest "uri" null ≡ ok (str uri)
  pub uri_given : (uri == "") ≡ false

IsHeld-later :
    (d : String × Spot) (spots : Dict Spot) (uri dir : String)
    → IsHeld spots uri dir
    → IsHeld (d ∷ spots) uri dir
IsHeld-later d spots uri dir h = record {
  spot = h.spot;
  among = Memᴰ.tail h.among;
  site = h.site;
  site_at = h.site_at;
  uri_at = h.uri_at;
  uri_given = h.uri_given;
}

address_of→ :
    (r : Result Value) (uri : String)
    → address_of r ≡ some uri
    → (r ≡ ok (str uri)) × ((uri == "") ≡ false)
unfolding address_of
address_of→ (ok (str s)) uri e = elim (Bool-cases (s == "")) [
  | inl blank ↦ absurd (ground (arith, e, blank))
  | inr given ↦
      let same : s ≡ uri = ground (arith, e, given) in
      (ap (λ t. ok (str t)) same, ap (λ t. t == "") (sym same) ∙ given)
]
address_of→ r uri e = absurd cc

seed→ :
    (o : Option String) (dir dir' uri : String) (sites : Dict String)
    → lookup uri (seed o dir sites) ≡ some dir'
    → (lookup uri sites ≡ some dir') ⊎ ((o ≡ some uri) × (dir ≡ dir'))
unfolding seed
seed→ none dir dir' uri sites e = inl e
seed→ (some u) dir dir' uri sites e = elim (Bool-cases (u == uri)) [
  | inl same ↦ inr (
    ground (arith, lookup-insert u uri dir sites, eq_iff u uri, e),
    ground (arith, lookup-insert u uri dir sites, e),
  )
  | inr other ↦ inl (ground (arith, lookup-insert u uri dir sites, e))
]

address_at→ :
    (o : Option Site) (uri : String)
    → address_at o ≡ some uri
    → (site : Site) × (o ≡ some site)
      × (get_attr site.manifest "uri" null ≡ ok (str uri))
      × ((uri == "") ≡ false)
unfolding address_at
address_at→ none uri e = cc
address_at→ (some site) uri e =
    let (uri_at, given) = address_of→ _ uri e in (site, refl, uri_at, given)

address_of-held : (uri : String) → (uri == "") ≡ false → address_of (ok (str uri)) ≡ some uri
unfolding address_of
address_of-held uri given = rw given refl

IsHeld-here :
    (dir uri : String) (spot : Spot) (spots : Dict Spot)
    → address_at spot.current ≡ some uri
    → IsHeld ((dir, spot) ∷ spots) uri dir
IsHeld-here dir uri spot spots e =
    let (site, site_at, uri_at, given) = address_at→ spot.current uri e in
    record {
      spot = spot;
      among = Memᴰ.head refl;
      site = site;
      site_at = site_at;
      uri_at = uri_at;
      uri_given = given;
    }

-- What is seeded was seeded before, or a directory holds it.
rediscover→ :
    (spots : Dict Spot) (sites : Dict String) (uri dir : String)
    → lookup uri (rediscover spots sites) ≡ some dir
    → (lookup uri sites ≡ some dir) ⊎ IsHeld spots uri dir
unfolding rediscover
rediscover→ [] sites uri dir e = inl e
rediscover→ ((d, spot) ∷ spots) sites uri dir e =
    elim (rediscover→ spots (seed (address_at spot.current) d sites) uri dir e) [
      | inr later ↦ inr (IsHeld-later (d, spot) spots uri dir later)
      | inl now ↦ elim (seed→ (address_at spot.current) d dir uri sites now) [
        | inl before ↦ inl before
        | inr here ↦
            inr
              (subst (IsHeld ((d, spot) ∷ spots) uri) here.1 (IsHeld-here d uri spot spots here.0))
      ]
    ]

seed-kept :
    (o : Option String) (dir dir' uri : String) (sites : Dict String)
    → lookup uri sites ≡ some dir'
    → (now : String) × (lookup uri (seed o dir sites) ≡ some now)
unfolding seed
seed-kept none dir dir' uri sites e = (dir', e)
seed-kept (some u) dir dir' uri sites e = elim (Bool-cases (u == uri)) [
  | inl same ↦ (dir, ground (arith, lookup-insert u uri dir sites))
  | inr other ↦ (dir', ground (arith, lookup-insert u uri dir sites, e))
]

rediscover-kept :
    (spots : Dict Spot) (sites : Dict String) (uri dir : String)
    → lookup uri sites ≡ some dir
    → (now : String) × (lookup uri (rediscover spots sites) ≡ some now)
unfolding rediscover
rediscover-kept [] sites uri dir e = (dir, e)
rediscover-kept ((d, spot) ∷ spots) sites uri dir e =
    let (now, at) = seed-kept (address_at spot.current) d dir uri sites e in
    rediscover-kept spots (seed (address_at spot.current) d sites) uri now at

seed-here :
    (dir uri : String) (spot : Spot) (site : Site) (sites : Dict String)
    → spot.current ≡ some site
    → get_attr site.manifest "uri" null ≡ ok (str uri)
    → (uri == "") ≡ false
    → lookup uri (seed (address_at spot.current) dir sites) ≡ some dir
unfolding seed address_at
seed-here dir uri spot site sites site_at uri_at given =
    rw (site_at, uri_at, address_of-held uri given, lookup-insert_self uri dir sites) refl

held→ :
    (spots : Dict Spot) (sites : Dict String) (uri dir : String) (spot : Spot) (site : Site)
    → Memᴰ (dir, spot) spots
    → spot.current ≡ some site
    → get_attr site.manifest "uri" null ≡ ok (str uri)
    → (uri == "") ≡ false
    → (now : String) × (lookup uri (rediscover spots sites) ≡ some now)
unfolding rediscover
held→ [] sites uri dir spot site m site_at uri_at given = elim m [ ]
held→ ((d, s) ∷ spots) sites uri dir spot site (Memᴰ.head same) site_at uri_at given =
    rediscover-kept spots (seed (address_at s.current) d sites) uri d
      (seed-here d uri s site sites (ap (λ q. (q.1).current) (sym same) ∙ site_at) uri_at given)
held→ ((d, s) ∷ spots) sites uri dir spot site (Memᴰ.tail m) site_at uri_at given =
    held→ spots (seed (address_at s.current) d sites) uri dir spot site m site_at uri_at given

-- What the handler is to find for an address: a directory that holds it, or nothing if none does
abbrev pub IsServed : Dict Spot → String → Option String → Type 0
IsServed spots uri none = ¬ ((dir : String) × IsHeld spots uri dir)
IsServed spots uri (some dir) = IsHeld spots uri dir

none_seeded :
    (sites : Dict String) (uri dir : String) → sites ≡ [] → lookup uri sites ≡ some dir → ⊥
unfolding lookup
none_seeded [] uri dir fresh e = cc
none_seeded (s ∷ sites) uri dir fresh e = cc

nothing : (dir : String) → ◌≡◌ {A = Option String} none (some dir) → ⊥
nothing dir e = cc

served :
    (spots : Dict Spot) (sites : Dict String) (uri : String) (o : Option String)
    → sites ≡ []
    → lookup uri (rediscover spots sites) ≡ o
    → IsServed spots uri o
served spots sites uri none fresh at = λ (dir, held).
    let (now, found) =
      held→ spots sites uri dir held.spot held.site held.among held.site_at held.uri_at
        held.uri_given in
    nothing now (sym at ∙ found)
served spots sites uri (some dir) fresh at = elim (rediscover→ spots sites uri dir at) [
  | inr held ↦ held
  | inl before ↦ absurd (none_seeded sites uri dir fresh before)
]

-- After a start, before which nothing is seeded, a peer seeds exactly the addresses for which one of its
-- directories holds a manifest, and what it serves for an address is a directory that holds it.
pub attach_peer-IsServed :
    (c : Client) (uri : String)
    → c.sites ≡ []
    → IsServed c.spots uri (lookup uri (attach_peer c).sites)
unfolding attach_peer
attach_peer-IsServed c uri fresh = served c.spots c.sites uri _ fresh refl
