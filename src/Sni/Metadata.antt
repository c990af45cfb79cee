-- ===== src/Sni/Metadata.antt =====
-- crates/aegiuw-core/src/sni.rs, the views of `ClientHelloMetadata` that classify its raw values.
pub mod Versions
pub mod Alpn
pub mod Groups
pub mod Unstable
pub mod Kinds
