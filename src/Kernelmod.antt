-- ===== src/Kernelmod.antt =====
-- internal/kernelmod: the parsers of modprobe.d files and of /proc/modules, and the dry run.
pub mod Conf
pub mod ConfDir
pub mod ProcModules
pub mod DryRun
