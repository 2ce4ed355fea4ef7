-- ===== src/Certkit.antt =====
-- The package certkit: key loading, mutual TLS and certificates.
pub mod Keyloader
pub mod Mtls
pub mod Pki
