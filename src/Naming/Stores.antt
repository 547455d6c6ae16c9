-- ===== src/Naming/Stores.antt =====
-- The four stores of naming.py. A method returns its result, or the exception that it raises, beside
-- the store that it leaves.
pub mod Disk
pub mod Names
pub mod Reviewers
pub mod Assignments
pub mod Attachments
