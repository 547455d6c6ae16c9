-- ===== src/Review.antt =====
-- review/: reviewer opt-ins, assignments, review records, categories, selection of reviewers.
pub mod Slugs
pub mod Labels
pub mod Taxonomy
pub mod Record
pub mod Selection
