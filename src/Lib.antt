-- ===== src/Lib.antt =====
-- copyfail-validation: a validator for hosts against CVE-2026-31431.
--
-- The program runs a bundle of checks on a host and reports what they find. The command line
-- (cmd/copyfail-validate) parses its flags, asks preset/copyfail for the checks, hands them to the
-- runner of check, and writes the report through a renderer of the registry in report; the exit code
-- comes from the report's summary. The four renderers of internal/render write it, as text, JSON, SARIF
-- or the textfile of a Prometheus exporter. The checks read modprobe.d files and /proc/modules through
-- internal/kernelmod and ask modprobe itself through the subprocess wrapper internal/exec.
--
-- Base and its children hold shared names, Boolean tests, lists measured by native numbers and the
-- integers. Text is Go's string: a list of Unicode code points, in which a byte that is no valid
-- UTF-8 stands as a number above them; Text/Scan is bufio.Scanner, Text/Number is strconv.ParseInt,
-- Text/Decimal strconv.Itoa, Text/Date the layout RFC 3339 in UTC, Text/Order the comparison of strings
-- by bytes, and Text/Utf8 the reading of the bytes that a process writes as such a text. Base/Sort is a stable sort; where the program calls sort.Slice, which is not stable, the
-- order of equal keys is a choice of the model. Errors holds Go's errors: a message whose verbs are
-- kept apart, and the sentinels that errors.Is finds.
--
-- Which file models what:
--   Kernelmod/Conf         internal/kernelmod/conf.go: ParseConfReader as a state that each line
--                          steps (step, settle, finish, run), InstallTarget, IsBlacklisted
--   Kernelmod/ConfDir      the same file: ParseConfFile and ParseConfDir, over a record of what the
--                          file system answers
--   Kernelmod/ProcModules  internal/kernelmod/procmodules.go
--   Kernelmod/DryRun       internal/kernelmod/modprobe.go, over any runner with a state
--   Hostinfo/OsRelease     internal/hostinfo/osrelease.go; Hostinfo/Gather is hostinfo.go
--   Procscan               internal/procscan/afalg.go and modules.go: Scan, scanWithRoot, pidFromName,
--                          findAFAlgMatch, over a record of what /proc answers
--   Exec                   internal/exec/arg.go, allowlist.go, cmd.go; Exec/Runner and Exec/Buffer are
--                          runner.go: os_run is osRunner.Run, run_process is runProcess, write is
--                          cappedBuffer.Write
--   Integrity              internal/integrity/pkgmgr.go; Integrity/Rpm and Integrity/Dpkg are rpm.go and
--                          dpkg.go, both Verify methods through verify_with
--   Report                 report/state.go, severity.go, result.go, report.go; Report/Tally is
--                          NewSummary, Report/Format is format.go, Report/Registry is writeto.go
--   Check/Execute          executeCheck and newCancelledResult of check/runner.go
--   Check/Runner           Run and runOne of check/runner.go: a Step is what one goroutine does between
--                          two operations on the semaphore, the wait group, a channel or the mutex
--   Render                 internal/render/render.go; Render/Human is human.go, Render/Document json.go,
--                          Render/Sarif sarif.go, Render/Init init.go, Render/Prometheus and Render/Values prom.go. In
--                          Render/Prometheus/Atomic a run of WriteTextfileAtomic is the list of its
--                          operations on the disk
--   Json                   what encoding/json writes; Canonjson is internal/canonjson/canonjson.go
--   Redact                 internal/redact/redact.go, its regular expression as a matcher
--   Logging                internal/logging/logging.go and internal/buildinfo/buildinfo.go
--   Preset                 preset/copyfail: a file for each check, Bundle for AllWithOptions, Mitigated
--                          for what all of them together say
--   Cli                    cmd/copyfail-validate: Exit is exit.go, Filter the two filters, Flags is
--                          flags.go, Main is main.go
--   Tests                  runs at concrete inputs
--
-- What stands outside: the answers of the file system, of processes, of package flag and of
-- time.ParseDuration are arguments, records of functions that may answer anything. The clock is an
-- argument of whatever reads it. Numbers of int and int64 that the program only counts with are
-- natural numbers; where a value can wrap, the width is written out. Every loop is over the lines,
-- entries, arguments or results that it is given, so it needs no fuel; only the digits of a number n
-- are counted with n + 1 steps of fuel, and that they are read back as n shows that this is enough. A
-- duration is printed as a float64 is, for less than 10^15 milliseconds. The run of the checks is a
-- relation, so that every interleaving and every moment of a cancellation is covered.
--
-- Not modelled: the lines that log/slog writes, and the programs under examples, which call the
-- library. The texts of `%q` and of a panic's value are kept as pieces; a renderer takes the function
-- that spells `%q` out.
pub mod Base
pub mod Text
pub mod Errors
pub mod Kernelmod
pub mod Procscan
pub mod Hostinfo
pub mod Exec
pub mod Integrity
pub mod Json
pub mod Canonjson
pub mod Report
pub mod Redact
pub mod Render
pub mod Check
pub mod Preset
pub mod Logging
pub mod Cli
pub mod Tests
