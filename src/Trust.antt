-- ===== src/Trust.antt =====
-- trust/: the user's moderation policy, the local trust store and the score of a piece of content.
pub mod Floats
pub mod Signal
pub mod Policy
pub mod Store
pub mod Scorer
