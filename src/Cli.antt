-- ===== src/Cli.antt =====
-- src/cli.rs: the numeric prefixes, the option parser and the two option tables.
pub mod Parser
pub mod Specs
pub mod Number
pub mod Float
