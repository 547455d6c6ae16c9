-- ===== src/Naming.antt =====
-- naming.py: the naming server, its four stores and its clients.
pub mod Stores
pub mod Messages
pub mod Page
pub mod Server
pub mod Reviews
pub mod Dispatch
pub mod Step
pub mod Owner
pub mod Authentic
pub mod Assigned
pub mod Client
pub mod Register
