-- ===== src/Tests.antt =====
-- Runs of the model on inputs of the repository's own tests, and the theorems applied to concrete
-- inputs.
pub mod Slices
pub mod Filters
pub mod Streams
pub mod Sockets
pub mod Connections
pub mod Peers
pub mod Admissions
pub mod Handled
pub mod Relays
pub mod Dials
pub mod Startups
pub mod Peeks
pub mod Incoming
