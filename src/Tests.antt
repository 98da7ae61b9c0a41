-- ===== src/Tests.antt =====
-- Runs at concrete inputs of the code in internal, report, check, preset/copyfail and
-- cmd/copyfail-validate.
mod Data
mod Kernelmod
mod Hostinfo
mod Exec
mod Integrity
mod Report
mod Check
mod Preset
mod Cli
mod Canonjson
mod Render
mod Redact
mod Procscan
