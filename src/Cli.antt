-- ===== src/Cli.antt =====
-- cmd/copyfail-validate: the command line, the filters, the exit codes, and the run that ties the
-- parts together.
pub mod Exit
pub mod Filter
pub mod Flags
pub mod Main
