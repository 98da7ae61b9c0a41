-- ===== src/Check.antt =====
-- check: the interface of a check, and what the runner makes of one check.
pub mod Execute
pub mod Runner
