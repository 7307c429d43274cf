-- ===== src/Fs.antt =====
-- src/fs.rs: the FUSE handlers. The whitelist and the NFS client are what they call; a handler's
-- result is the value that it returns to FUSE and what it has stored for it.
pub mod Isolation
pub mod Live
pub mod Operations
pub mod Buffer
pub mod Fields
pub mod Defs
