-- ===== src/Peer.antt =====
-- peer/peer.py: what a client accepts from the seeders and from the naming server.
pub mod Check
pub mod Accepted
pub mod Reviews
pub mod Daemon
pub mod Download
pub mod Fetch
pub mod Score
pub mod Update
pub mod Publish
pub mod Rediscover
