-- ===== src/Db.antt =====
-- src/db.rs: the connection pool, the retry, the cache and the names that the backends use.
pub mod Pool
pub mod Cache
pub mod Keys
pub mod Redis
pub mod Retry
pub mod Unsigned
pub mod Postgres
pub mod Sqlite
pub mod Factory
pub mod Mounted
