-- ===== src/Kernelmod/ProcModules.antt =====
-- internal/kernelmod/procmodules.go: the parser of /proc/modules, and IsLoaded.
pub mod Sound
use copyfail_validation.Base.{
  ℕ, ◌+◌, List, [], ◌∷◌, ◌++◌, Bool, true, false, ◌||◌, not, Option, none, some, is_empty, keep,
  map, ◌==◌, if◌then◌else◌,
}
use copyfail_validation.Base.Int.{ℤ, pos, negsuc}
use copyfail_validation.Text.{Text, codes, equal, trim_space, split, fields}
use copyfail_validation.Text.Number.{Parsed, parsed, refused, parse_int}
use copyfail_validation.Text.Scan.{Reader, ScanError, too_long, read_error, scan}
use copyfail_validation.Errors.{
  Error, Message, Try, ok, err, Outcome, malformed, str, quoted, num, lit, plain, wrap, num_error,
}

-- The sizes are int64 and int values that are not negative.
pub record LoadedModule : Type 0 where
  pub name : Text
  pub state : Text
  pub used_by : List Text
  pub size : ℕ
  pub ref_count : ℕ

abbrev not_empty : Text → Bool
not_empty w = not (is_empty w)

unfoldable pub parse_used_by : Text → List Text
parse_used_by field =
    if equal field (codes "-") || equal field []
    then []
    else keep not_empty (map trim_space (split (λ c. c == b',') field))

-- A numeric column: its integer, which may not be negative.
unfoldable pub parse_column : Message → Text → Try ℕ
parse_column name field = elim (parse_int field) [
  | refused e ↦ err (
      wrap (name ++ lit " field " ++ quoted field ∷ lit " is not an integer: ") (num_error field e))
  | parsed z ↦ elim z [
    | pos n ↦ ok n
    | negsuc n ↦ err (plain (name ++ lit " field " ++ quoted field ∷ lit " is negative"))
  ]
]

abbrev with_counts : Text → Text → Text → Try ℕ → Try ℕ → Try LoadedModule
with_counts name used_by state (err e) ref_count = err e
with_counts name used_by state (ok size) (err e) = err e
with_counts name used_by state (ok size) (ok ref_count) = ok (record {
  name = name;
  state = state;
  used_by = parse_used_by used_by;
  size = size;
  ref_count = ref_count;
})

abbrev too_few : ℕ → Error
too_few n = plain (lit "expected at least " ++ num 5 ∷ lit " fields, got " ++ num n ∷ [])

-- The test on the number of columns, and what is made of the first five.
unfoldable pub module_of : List Text → Try LoadedModule
unfolding parse_column
module_of (name ∷ size ∷ ref_count ∷ used_by ∷ state ∷ rest) =
    with_counts name used_by state (parse_column (lit "size") size)
      (parse_column (lit "refcount") ref_count)
module_of [] = err (too_few 0)
module_of (a ∷ []) = err (too_few 1)
module_of (a ∷ b ∷ []) = err (too_few 2)
module_of (a ∷ b ∷ c ∷ []) = err (too_few 3)
module_of (a ∷ b ∷ c ∷ d ∷ []) = err (too_few 4)

unfoldable pub parse_proc_modules_line : Text → Try LoadedModule
unfolding module_of
parse_proc_modules_line line = module_of (fields line)

abbrev malformed_line : ℕ → Text → Error → Error
malformed_line n raw e = record {
  message =
      lit "kernelmod: malformed /proc/modules line: line "
      ++ num n ∷ lit ": "
      ++ quoted raw ∷ lit ": "
      ++ e.message;
  chain = malformed ∷ e.chain;
}

abbrev read_failure : Option (ScanError Error) → Option Error
read_failure none = none
read_failure (some too_long) =
    some (plain (lit "kernelmod: read /proc/modules: bufio.Scanner: token too long"))
read_failure (some (read_error e)) = some (wrap (lit "kernelmod: read /proc/modules: ") e)

-- The loop, on the modules so far and the number of the line before.
unfoldable pub run :
    List LoadedModule → ℕ → List Text → Option (ScanError Error) → Outcome (List LoadedModule)
unfolding parse_proc_modules_line
run mods n [] stop = record { value = mods; err = read_failure stop }
run mods n (raw ∷ rest) stop =
    let skipped = run mods (n + 1) rest stop in
    let parsed_line =
      elim (parse_proc_modules_line (trim_space raw)) as (λ _. Outcome (List LoadedModule)) [
        | ok m ↦ run (mods ++ m ∷ []) (n + 1) rest stop
        | err e ↦ record { value = mods; err = some (malformed_line (n + 1) raw e) }
      ] in
    if is_empty (trim_space raw) then skipped else parsed_line

unfoldable pub parse_proc_modules : Reader Error → Outcome (List LoadedModule)
unfolding run
parse_proc_modules r = run [] 0 (scan r).lines (scan r).stop

unfoldable pub is_loaded : List LoadedModule → Text → Bool
is_loaded [] name = false
is_loaded (m ∷ mods) name = if equal m.name name then true else is_loaded mods name
