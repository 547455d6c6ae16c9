-- ===== src/Tests.antt =====
-- Runs of the definitions at concrete inputs, over a platform with toy signatures.
pub mod Toy
mod Records
mod Servers
mod Trusts
mod Daemons
mod Fetches
mod Scores
mod Updates
mod Settings
mod Verdicts
mod Pins
mod Peers
mod Listings
mod Replies
