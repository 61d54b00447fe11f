-- ===== src/SecretService.antt =====
-- internal/secretservice: what is exposed, how entries are found, changed and archived, the
-- notifications about secret access, and the encryption of transferred secrets.
pub mod Entries
pub mod Search
pub mod Write
pub mod NotifyCache
pub mod Session
pub mod Paths
pub mod Service
pub mod Items
pub mod DiffieHellman
