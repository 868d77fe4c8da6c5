-- ===== src/Startup.antt =====
-- src/main.rs: what the program does before it serves connections, and the reload of its key.
pub mod Addresses
pub mod Config
pub mod Certs
pub mod Tls
pub mod Place
pub mod Run
