-- ===== src/Nfs.antt =====
-- src/nfscli.rs and the callbacks of src/libnfs.rs: the pool of NFS connections.
pub mod Defs
pub mod Routing
pub mod Credentials
pub mod Read
pub mod Readlink
pub mod Files
pub mod Named
pub mod Contexts
pub mod Callbacks
pub mod RunOp
pub mod Actor
