-- ===== src/Tests/Settings.antt =====
-- The start of a client at a concrete file of settings and over a concrete directory.
use mdp2p.Peer.Rediscover.Laws.{attach_peer-IsServed, IsServed}
use mdp2p.Peer.Rediscover.{attach_peer}
use mdp2p.Peer.Fetch.{Client}
use mdp2p.Bundle.Disk.{Site}
use mdp2p.Py.Value.{get_attr}
use mdp2p.Prelude.{[], ◌∷◌}
use mdp2p.Prelude.{none, some, true, refl, ◌≡◌}
use mdp2p.Naming.Stores.Disk.{holds, absent}
use mdp2p.Py.Result.{ok, raise, library_error}
use mdp2p.Py.Value.{Value, Fields, str, obj, end, field, truthy}
use mdp2p.Reader.Config.{
  Home, ClientConfig, save_config, with_author, load_config, back_filled, load_or_create_config,
}
use mdp2p.Reader.Config.Laws.{load_or_create_config-again}

abbrev home : Home
home = record { keys = "~/.mdp2p/keys"; sites = "~/.mdp2p/sites"; reviewer = "~/.mdp2p/reviewer" }

-- The file of an earlier version, with a field that is gone now and no naming server
abbrev old_fields : Fields
old_fields = field "author" (str "bob") (field "tracker_host" (str "localhost") end)

abbrev settings : ClientConfig
settings = back_filled (with_author home old_fields (str "bob"))

first_start :
    load_or_create_config home "bob" (ok tt) none (holds (obj old_fields))
    ≡ (ok settings, save_config none settings)
unfolding load_or_create_config mdp2p.Reader.Config.after_load load_config
    mdp2p.Reader.Config.from_author mdp2p.Py.Value.get with_author mdp2p.Py.Value.get_or truthy
    back_filled
first_start = refl

load_or_create_config-again_example :
    (truthy settings.naming_multiaddr ≡ true)
    × (load_config home (save_config none settings) ≡ ok (some settings))
    × (load_or_create_config home "carol"
          (raise library_error)
          (some absent)
          (save_config none settings)
        ≡ (ok settings, save_config none settings))
load_or_create_config-again_example =
    load_or_create_config-again home "bob" (ok tt) (holds (obj old_fields))
      (save_config none settings) settings "carol" (raise library_error) (some absent) first_start

abbrev site : Site
site = record {
  manifest = obj (field "uri" (str "alice-site") end);
  signature = "";
  files = [];
  attachments = none;
}

-- A client that starts over a directory that holds Alice's site
abbrev started : Client
started = record {
  pins = absent;
  sites = [];
  spots = ("data/alice-site", record { current = some site; staging = none; backup = none }) ∷ [];
}

attach_peer-IsServed_example : IsServed started.spots "alice-site" (some "data/alice-site")
unfolding attach_peer mdp2p.Peer.Rediscover.rediscover mdp2p.Peer.Rediscover.seed
    mdp2p.Peer.Rediscover.address_at mdp2p.Peer.Rediscover.address_of get_attr mdp2p.Py.Value.get_or
    mdp2p.Py.Value.get mdp2p.Dict.lookup mdp2p.Dict.insert
attach_peer-IsServed_example = attach_peer-IsServed started "alice-site" refl
