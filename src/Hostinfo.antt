-- ===== src/Hostinfo.antt =====
-- internal/hostinfo: the parser of os-release files, and the gathering of the facts of a host.
pub mod OsRelease
pub mod Gather
