-- ===== src/Srv.antt =====
-- src/srv.rs: how the places to connect to are found, compared and put in order. The types of the
-- URL, DNS and TLS libraries are the fields of `External`.
pub mod Types
pub mod Sort
pub mod Order
pub mod Dedup
pub mod Posh
pub mod Links
pub mod Lookup
pub mod Connections
pub mod Connect
