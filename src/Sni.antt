-- ===== src/Sni.antt =====
-- crates/aegiuw-core/src/sni.rs: from the bytes of a connection to the server name.
pub mod Types
pub mod Std
pub mod Wire
pub mod Reassembly
pub mod ServerName
pub mod Lists
pub mod Handshake
pub mod Extract
pub mod Offers
pub mod Metadata
