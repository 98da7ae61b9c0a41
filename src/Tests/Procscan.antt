-- ===== src/Tests/Procscan.antt =====
-- Runs of the scan of internal/procscan, on a /proc with three processes.
use copyfail_validation.Base.{
  ℕ, List, [], ◌∷◌, ◌++◌, ◌^◌, true, none, some, ◌≡◌, ◌↔◌, ◌<◌, refl, ltb, arith, if◌then◌else◌,
  All, take,
}
use copyfail_validation.Text.{Text, codes, equal, is_space}
use copyfail_validation.Text.Number.{is_digit}
use copyfail_validation.Errors.{Error, Try, ok, err, permission, sentinel, plain, lit}
use copyfail_validation.Procscan.{
  Proc, af_alg_modules, pid_from_name, find_af_alg_match, scan_with_root, collect_pids, sort_ints,
}
use copyfail_validation.Procscan.Pids.{value_from, pid_from_name_iff}
use copyfail_validation.Procscan.Matches.{IsFree, FirstMatch, lines_of, find_af_alg_match_lem}
use copyfail_validation.Procscan.Loop.{report_on}
use copyfail_validation.Procscan.Whole.{Processes, scan_with_root-canceled}
use copyfail_validation.Tests.Data.{absent}

abbrev denied : Error
denied = sentinel permission (lit "permission denied")

abbrev canceled : Error
canceled = plain (lit "context canceled")

abbrev join_path : List Text → Text
join_path [] = []
join_path (p ∷ []) = p
join_path (p ∷ ps) = p ++ b'/' ∷ join_path ps

abbrev maps : Text
maps = codes "7f00 r--p /lib/libc.so\n7f01 r-xp /lib/modules/algif_aead.ko\n"

-- Process 10 uses the module, 9 cannot be read, and 200 has ended.
unfoldable read_file : Text → Try Text
unfolding equal
read_file path =
    if equal path (codes "/proc/10/maps")
    then ok maps
    else if equal path (codes "/proc/10/comm")
    then ok (codes "kcapi\n")
    else if equal path (codes "/proc/9/maps")
    then err denied
    else err absent

abbrev names : List Text
names = codes "10" ∷ codes "200" ∷ codes "9" ∷ codes "meminfo" ∷ codes "0" ∷ []

abbrev proc : Proc
proc = record {
  path_join = join_path;
  stat = λ path. none;
  read_dir = λ path. ok names;
  read_file = read_file;
  ctx_err = λ i. none;
}

-- The context is canceled once a process has been looked at.
abbrev impatient : Proc
impatient = record proc { ctx_err = λ i. if ltb i 1 then none else some canceled }

pid_from_name_iff_example :
    (pid_from_name (codes "1817") ≡ some 1817)
    ↔ All (λ c. is_digit c ≡ true) (codes "1817")
      × (value_from 0 (codes "1817") ≡ 1817)
      × (0 < 1817)
      × (1817 < 2 ^ 63)
pid_from_name_iff_example = pid_from_name_iff (codes "1817") 1817

find_af_alg_match_lem_example :
    ((find_af_alg_match maps ≡ none) ↔ All (IsFree af_alg_modules) (lines_of maps))
    × ((m line : Text)
        → find_af_alg_match maps ≡ some (m, line)
        → FirstMatch (lines_of maps) m line)
find_af_alg_match_lem_example = find_af_alg_match_lem maps

found_module :
    find_af_alg_match maps ≡ some (codes "algif_aead", codes "7f01 r-xp /lib/modules/algif_aead.ko")
unfolding find_af_alg_match
found_module = refl

scan_with_root-canceled_example :
    (pids : List ℕ) × Processes names pids
    × ((scan_with_root impatient (codes "/proc")).value
        ≡ report_on impatient (codes "/proc") (take 1 pids))
    × (m : Error) × ((scan_with_root impatient (codes "/proc")).err ≡ some m)
    × (m.chain ≡ canceled.chain)
unfolding collect_pids sort_ints pid_from_name
scan_with_root-canceled_example =
    scan_with_root-canceled impatient (codes "/proc") names refl refl 1 canceled (omega arith)
      (λ i h. ground (arith, h)) refl

-- All three processes are counted, the one that cannot be read is listed, and the user is found.
scanned : scan_with_root proc (codes "/proc") ≡ record {
  value = record {
    unreadable_pids = 9 ∷ [];
    candidates =
        record {
          pid = 10;
          comm = codes "kcapi";
          match_reason = codes "algif_aead in /proc/10/maps: 7f01 r-xp /lib/modules/algif_aead.ko";
        }
        ∷ [];
    scanned_pids = 3;
  };
  err = none;
}
unfolding scan_with_root read_file is_space
scanned = refl
