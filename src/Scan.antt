-- ===== src/Scan.antt =====
-- src/scan.rs: the directory scanner. Row has the text format, Walk the traversal.
pub mod Row
pub mod Walk
