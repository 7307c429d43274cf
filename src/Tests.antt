-- ===== src/Tests.antt =====
-- Runs of the models at concrete inputs, and the theorems at inputs that meet their hypotheses.
mod Cli
mod Mount
mod Key
mod Scan
mod Pool
mod Fs
mod Db
mod Nfs
mod Store
mod Redis
mod Sql
mod Numbers
mod Commits
mod Mounted
mod Startup
