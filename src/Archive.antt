-- ===== src/Archive.antt =====
-- src/archive.rs: the Cachee Archive Bundle, its wire format and its verification.
pub mod Types
pub mod Wire
pub mod Primitive
pub mod Fingerprint
pub mod Bundle
pub mod Verify
