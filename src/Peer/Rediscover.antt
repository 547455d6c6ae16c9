-- ===== src/Peer/Rediscover.antt =====
-- `attach` and `_rediscover_local_sites` of peer/peer.py: what a peer that starts seeds. The directories
-- whose name begins with a dot are the staging and the backup of a spot.
pub mod Laws
use mdp2p.Prelude.{String, Option, none, some, [], ◌∷◌, ◌==◌, if◌then◌else◌}
use mdp2p.Bundle.Disk.{Site, Spot}
use mdp2p.Dict.{Dict, insert}
use mdp2p.Peer.Fetch.{Client}
use mdp2p.Py.Result.{Result, ok, raise}
use mdp2p.Py.Value.{Value, str, null, get_attr}

-- The address of a manifest, if it becomes a key of `sites`. Only a text does: what is no text is falsy,
-- unhashable, or the same as no address.
unfoldable pub address_of : Result Value → Option String
address_of (ok (str uri)) = if uri == "" then none else some uri
address_of v = none

-- A directory whose manifest cannot be loaded is passed over.
unfoldable pub address_at : Option Site → Option String
address_at none = none
address_at (some site) = address_of (get_attr site.manifest "uri" null)

unfoldable pub seed : Option String → String → Dict String → Dict String
seed none dir sites = sites
seed (some uri) dir sites = insert uri dir sites

-- `_rediscover_local_sites()`, over the directories in the order in which they are listed
unfoldable pub rediscover : Dict Spot → Dict String → Dict String
rediscover [] sites = sites
rediscover ((dir, spot) ∷ spots) sites = rediscover spots (seed (address_at spot.current) dir sites)

-- `attach()`: the handler of bundle requests reads `sites` as it is then.
unfoldable pub attach_peer : Client → Client
attach_peer c = record c { sites = rediscover c.spots c.sites }
