-- ===== src/Reader/Config/Laws.antt =====
-- The client's settings survive a save, and a second start finds what the first one left.
use mdp2p.Prelude.{
  none, some, refl, ◌≡◌, true, String, subst, ap, Option, Bool, if◌then◌else◌, not, false,
}
use mdp2p.Py.Result.{ok, Result, raise, ok_injective}
use mdp2p.Py.Value.{get, get_or, truthy, Value}
use mdp2p.Reader.Config.{
  Home, ClientConfig, asdict, save_config, with_author, from_author, load_config, File,
  after_ensure, ensure_config, new_config, load_or_create_config, back_filled, after_load,
}

back_filled-named : (c : ClientConfig) → truthy (back_filled c).naming_multiaddr ≡ true
unfolding truthy back_filled
back_filled-named c = refl

module _ (home : Home) where
  load_config-save_config : (c : ClientConfig) → load_config home (save_config none c) ≡ ok (some c)
  unfolding load_config save_config asdict from_author with_author get get_or
  load_config-save_config c = refl

  -- What a second start finds: a naming server that is set, and the settings of the first start
  pub record IsKept (c : ClientConfig) (file : File Value) : Type 0 where
    pub named : truthy c.naming_multiaddr ≡ true
    pub loaded : load_config home file ≡ ok (some c)

  kept : (c : ClientConfig) → truthy c.naming_multiaddr ≡ true → IsKept c (save_config none c)
  kept c named = record { named = named; loaded = load_config-save_config c }

  settled :
      (c : ClientConfig) (left : File Value) (settings : ClientConfig)
      → truthy c.naming_multiaddr ≡ true
      → ◌≡◌ {A = Result ClientConfig × File Value} (ok c, save_config none c) (ok settings, left)
      → IsKept settings left
  settled c left settings named e =
      subst (λ a. IsKept a left) (ok_injective c settings (ap (λ q. q.0) e))
        (subst (IsKept c) (ap (λ q. q.1) e) (kept c named))

  created :
      (author : String) (made : Result (Unit {0})) (file left : File Value) (c : ClientConfig)
      → after_ensure none file (ensure_config home made (some (new_config home author)))
        ≡ (ok c, left)
      → IsKept c left
  unfolding after_ensure ensure_config new_config with_author get_or get truthy
  created author (raise x) file left c e = absurd cc
  created author (ok done) file left c e = settled (new_config home author) left c refl e

  started :
      (author : String) (made : Result (Unit {0})) (file left : File Value) (c : ClientConfig)
      (r : Result (Option ClientConfig))
      → load_config home file ≡ r
      → after_load home author made none file r ≡ (ok c, left)
      → IsKept c left
  unfolding after_load
  started author made file left c (raise x) at e = created author made file left c e
  started author made file left c (ok none) at e = created author made file left c e
  started author made file left c (ok (some found)) at e = go (truthy found.naming_multiaddr) refl e
    where
      go :
          (b : Bool)
          → truthy found.naming_multiaddr ≡ b
          → ◌≡◌ {A = Result ClientConfig × File Value}
              (if not b
                then (ok (back_filled found), save_config none (back_filled found))
                else (ok found, file))
              (ok c, left)
          → IsKept c left
      go true named e =
          subst (λ a. IsKept a left) (ok_injective found c (ap (λ q. q.0) e))
            (subst (IsKept found) (ap (λ q. q.1) e) record { named = named; loaded = at })
      go false named e = settled (back_filled found) left c (back_filled-named found) e

  -- When a start of the client saves, or has nothing to save, the next start finds a naming server that
  -- is set and the same settings, whatever its own user and disk are, and leaves the file as it is. That
  -- holds for a file that is absent, cannot be read, or comes of an earlier version.
  pub load_or_create_config-again :
      (author : String) (made : Result (Unit {0})) (file left : File Value) (c : ClientConfig)
      (later : String) (remade : Result (Unit {0})) (failed : Option (File Value))
      → load_or_create_config home author made none file ≡ (ok c, left)
      → (truthy c.naming_multiaddr ≡ true)
        × (load_config home left ≡ ok (some c))
        × (load_or_create_config home later remade failed left ≡ (ok c, left))
  unfolding load_or_create_config after_load
  load_or_create_config-again author made file left c later remade failed e =
      let is_kept = started author made file left c (load_config home file) refl e in
      (is_kept.named, is_kept.loaded, rw (is_kept.loaded, is_kept.named) refl)
