-- ===== src/Procscan.antt =====
-- internal/procscan/afalg.go and modules.go: the scan of /proc for users of the AF_ALG modules. What
-- the files of /proc hold is a parameter.
pub mod Pids
pub mod Matches
pub mod Loop
pub mod Whole
use copyfail_validation.Base.{
  ℕ, List, [], ◌∷◌, ◌++◌, Bool, true, false, ◌&&◌, Option, none, some, ltb, ◌+◌, ◌==◌,
  if◌then◌else◌,
}
use copyfail_validation.Base.Int.{ℤ, pos, negsuc}
use copyfail_validation.Base.Sort.{sort_by}
use copyfail_validation.Text.{Text, codes, contains, trim_space}
use copyfail_validation.Text.Scan.{scan}
use copyfail_validation.Text.Number.{Parsed, parsed, refused, is_digit, parse_int}
use copyfail_validation.Text.Decimal.{format_ℕ}
use copyfail_validation.Errors.{
  Error, Outcome, Try, ok, err, is, not_exist, permission, not_root, proc_missing, sentinel, wrap,
  wrap_both, str, num, lit,
}

-- AFAlgModules
abbrev pub af_alg_modules : List Text
af_alg_modules =
    codes "af_alg"
    ∷ codes "algif_aead"
    ∷ codes "algif_skcipher"
    ∷ codes "algif_hash"
    ∷ codes "algif_rng"
    ∷ []

pub record Candidate : Type 0 where
  pub comm : Text
  pub match_reason : Text
  pub pid : ℕ

pub record ScanResult : Type 0 where
  pub unreadable_pids : List ℕ
  pub candidates : List Candidate
  pub scanned_pids : ℕ

-- What the scan asks of the host: filepath.Join, the error of os.Stat, the names that os.ReadDir
-- lists, os.ReadFile, and ctx.Err once a number of processes has been looked at.
pub record Proc : Type 0 where
  pub path_join : List Text → Text
  pub stat : Text → Option Error
  pub read_dir : Text → Try (List Text)
  pub read_file : Text → Try Text
  pub ctx_err : ℕ → Option Error

unfoldable pub all_digits : Text → Bool
unfolding is_digit
all_digits [] = true
all_digits (c ∷ s) = is_digit c && all_digits s

-- A PID is positive.
unfoldable pub positive : Parsed ℤ → Option ℕ
positive (parsed (pos n)) = if ltb 0 n then some n else none
positive (parsed (negsuc n)) = none
positive (refused e) = none

unfoldable pub pid_from_name : Text → Option ℕ
unfolding all_digits parse_int positive
pid_from_name [] = none
pid_from_name (c ∷ s) = if all_digits (c ∷ s) then positive (parse_int (c ∷ s)) else none

-- The first module whose name the line holds.
unfoldable pub module_in : Text → List Text → Option Text
unfolding contains
module_in line [] = none
module_in line (m ∷ ms) = if contains line m then some m else module_in line ms

-- The first line that holds one, with the module before it.
unfoldable pub first_match : List Text → Option (Text × Text)
unfolding module_in
first_match [] = none
first_match (line ∷ lines) = elim (module_in line af_alg_modules) [
  | some m ↦ some (m, line)
  | none ↦ first_match lines
]

unfoldable pub find_af_alg_match : Text → Option (Text × Text)
unfolding first_match scan
find_af_alg_match maps =
    first_match (scan {E = Error} (record { content = maps; failure = none })).lines

unfoldable pub read_comm : Proc → Text → Text
unfolding trim_space
read_comm p path = elim (p.read_file path) [ ok content ↦ trim_space content | err e ↦ [] ]

abbrev pub maps_path : Proc → Text → ℕ → Text
maps_path p root pid = p.path_join (root ∷ format_ℕ pid ∷ codes "maps" ∷ [])

abbrev pub candidate : Proc → Text → ℕ → Text → Text → Candidate
candidate p root pid m line = record {
  pid = pid;
  comm = read_comm p (p.path_join (root ∷ format_ℕ pid ∷ codes "comm" ∷ []));
  match_reason = m ++ (codes " in " ++ (maps_path p root pid ++ (codes ": " ++ line)));
}

-- What the loop does for one process, once it is counted.
unfoldable pub look_at : Proc → Text → ScanResult → ℕ → ScanResult
unfolding find_af_alg_match read_comm is format_ℕ
look_at p root r pid = elim (p.read_file (maps_path p root pid)) [
  | err e ↦
      if is e not_exist
      then r
      else if is e permission
      then record r { unreadable_pids = r.unreadable_pids ++ pid ∷ [] }
      else record r { unreadable_pids = r.unreadable_pids ++ pid ∷ [] }
  | ok maps ↦ elim (find_af_alg_match maps) [
    | none ↦ r
    | some (m, line) ↦ record r { candidates = r.candidates ++ candidate p root pid m line ∷ [] }
  ]
]

-- sort.Ints
unfoldable pub sort_ints : List ℕ → List ℕ
unfolding sort_by
sort_ints = sort_by ltb

unfoldable pub scan_pids : Proc → Text → ScanResult → List ℕ → Outcome ScanResult
unfolding look_at sort_ints
scan_pids p root r [] = record {
  value = record r { unreadable_pids = sort_ints r.unreadable_pids };
  err = none;
}
scan_pids p root r (pid ∷ pids) = elim (p.ctx_err r.scanned_pids) [
  | some e ↦ record {
    value = r;
    err = some (wrap (lit "procscan: scan canceled at pid " ++ num pid ∷ lit ": ") e);
  }
  | none ↦
      scan_pids p root (look_at p root (record r { scanned_pids = r.scanned_pids + 1 }) pid) pids
]

unfoldable pub collect_pids : List Text → List ℕ
unfolding pid_from_name
collect_pids [] = []
collect_pids (name ∷ names) = elim (pid_from_name name) [
  | none ↦ collect_pids names
  | some pid ↦ pid ∷ collect_pids names
]

abbrev pub nothing_scanned : ScanResult
nothing_scanned = record { unreadable_pids = []; candidates = []; scanned_pids = 0 }

abbrev pub refused_scan : Error → Outcome ScanResult
refused_scan e = record { value = nothing_scanned; err = some e }

unfoldable pub scan_with_root : Proc → Text → Outcome ScanResult
unfolding scan_pids collect_pids sort_ints
scan_with_root p root = elim (p.stat (p.path_join (root ∷ codes "self" ∷ []))) [
  | some e ↦ refused_scan (
      wrap_both proc_missing
        (lit "procscan: stat " ++ str root ∷ lit "/self: procscan: /proc not readable: ") e)
  | none ↦ elim (p.read_dir root) [
    | err e ↦ refused_scan (wrap (lit "procscan: read dir " ++ str root ∷ lit ": ") e)
    | ok names ↦ scan_pids p root nothing_scanned (sort_ints (collect_pids names))
  ]
]

-- Scan, for what os.Geteuid answers.
unfoldable pub scan_proc : Proc → ℤ → Outcome ScanResult
unfolding scan_with_root
scan_proc p (pos n) =
    if n == 0
    then scan_with_root p (codes "/proc")
    else refused_scan (sentinel not_root (lit "procscan: scan requires EUID=0"))
scan_proc p (negsuc n) = refused_scan (sentinel not_root (lit "procscan: scan requires EUID=0"))
