-- ===== src/Bundle.antt =====
-- bundle/: addresses and paths, signed records, manifests.
pub mod Paths
pub mod Signed
pub mod NameRecord
pub mod Manifest
pub mod Payload
pub mod Disk
