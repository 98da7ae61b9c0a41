-- ===== src/Kernelmod/Conf.antt =====
pub mod Queries
pub mod Comments
pub mod Directives
pub mod Lines
pub mod Print
-- internal/kernelmod/conf.go: the parser of one modprobe.d file, and the two queries.
use copyfail_validation.Base.{
  ℕ, suc, ◌≡◌, refl, ◌⊎◌, inl, inr, ◌+◌, List, [], ◌∷◌, ◌++◌, Bool, true, false, ◌&&◌, ◌||◌, not,
  Option, none, some, is_empty, length, if◌then◌else◌, ltb,
}
use copyfail_validation.Text.{
  Text, codes, equal, is_blank, is_space, trim_left, trim_right, trim_space, fields, before,
  has_suffix, drop_last, join,
}
use copyfail_validation.Text.Scan.{Reader, Scanned, ScanError, too_long, read_error, scan}
use copyfail_validation.Errors.{
  Error, Sentinel, parse, Message, str, quoted, num, lit, plain, wrap, Outcome, Try, ok, err,
}

pub record ConfDirective : Type 0 where
  pub source : Text
  pub module_name : Text
  pub kind : Text
  pub args : List Text
  pub line_num : ℕ

-- Everything from the first `#` on is a comment.
unfoldable pub strip_inline_comment : Text → Text
unfolding before
strip_inline_comment line = before b'#' line

abbrev too_few : ℕ → Error
too_few n = plain (lit "expected at least " ++ num 2 ∷ lit " fields, got " ++ num n ∷ [])

-- The test `len(fields) < confDirectiveMinFields` and the indexing that follows it.
unfoldable pub directive_of : List Text → Text → ℕ → Try ConfDirective
directive_of [] source n = err (too_few 0)
directive_of (k ∷ []) source n = err (too_few 1)
directive_of (k ∷ m ∷ args) source n =
    ok (record { source = source; module_name = m; kind = k; args = args; line_num = n })

unfoldable pub parse_conf_directive_line : Text → Text → ℕ → Try ConfDirective
unfolding directive_of
parse_conf_directive_line line source n = directive_of (fields line) source n

-- The variables of the loop of ParseConfReader.
pub record ConfState : Type 0 where
  pub directives : List ConfDirective
  pub pending : Text
  pub pending_start : ℕ
  pub line_num : ℕ

abbrev pub initial : ConfState
initial = record { directives = []; pending = []; pending_start = 0; line_num = 0 }

-- The loop goes on, or the function returns with the directives so far.
pub data Step : Type 0 where
  continue : ConfState → Step
  abort : List ConfDirective → Error → Step

pub Step-cases :
    (k : Step)
    → ((t : ConfState) × (k ≡ continue t))
      ⊎ ((ds : List ConfDirective) × (e : Error) × (k ≡ abort ds e))
Step-cases (continue t) = inl (t, refl)
Step-cases (abort ds e) = inr (ds, e, refl)

-- The error that wraps ErrParse.
abbrev malformed_line : Text → ℕ → Text → Error → Error
malformed_line source n joined e = record {
  message =
      lit "kernelmod: malformed modprobe.d directive: "
      ++ str source ∷ lit ":"
      ++ num n ∷ lit ": "
      ++ quoted joined ∷ lit ": "
      ++ e.message;
  chain = parse ∷ e.chain;
}

-- A joined line is parsed, and its directive appended to those of the state.
unfoldable pub emit : Text → ConfState → Text → ℕ → Step
emit source s joined n = elim (parse_conf_directive_line joined source n) [
  | ok d ↦ continue (record s { directives = s.directives ++ d ∷ [] })
  | err e ↦ abort s.directives (malformed_line source n joined e)
]

-- A line that ends in a backslash is kept for the next one.
unfoldable pub keep_pending : ConfState → Text → ConfState
keep_pending s stripped =
    let content = trim_right is_blank (drop_last stripped) in
    if is_empty s.pending
    then record s { pending = content; pending_start = s.line_num }
    else record s { pending = s.pending ++ (b' ' ∷ content) }

-- Any other line ends the block that is pending, if there is one.
unfoldable pub flush : Text → ConfState → Text → Step
unfolding emit
flush source s stripped =
    if is_empty s.pending
    then emit source s stripped s.line_num
    else emit source (record s { pending = []; pending_start = 0 })
        (s.pending ++ (b' ' ∷ trim_left is_blank stripped)) s.pending_start

-- A line without its comment and its trailing blanks.
unfoldable pub strip : Text → Text
unfolding strip_inline_comment
strip raw = trim_right is_blank (strip_inline_comment raw)

-- The body of the loop, for one line of the scanner.
unfoldable pub step : Text → ConfState → Text → Step
unfolding keep_pending flush
step source s raw =
    let next = record s { line_num = s.line_num + 1 } in
    let stripped = strip raw in
    if is_empty (trim_space stripped)
    then continue next
    else if has_suffix stripped (codes "\\")
    then continue (keep_pending next stripped)
    else flush source next stripped

-- The two returns behind the last call of the line parser.
unfoldable pub settle : Step → Outcome (List ConfDirective)
settle (continue t) = record { value = t.directives; err = none }
settle (abort ds e) = record { value = ds; err = some e }

-- What follows the loop: the error of the scanner, then the block that the file leaves pending.
unfoldable pub finish : Text → ConfState → Option (ScanError Error) → Outcome (List ConfDirective)
unfolding emit settle
finish source s (some too_long) = record {
  value = s.directives;
  err = some (plain (lit "kernelmod: read " ++ str source ∷ lit ": bufio.Scanner: token too long"));
}
finish source s (some (read_error e)) = record {
  value = s.directives;
  err = some (wrap (lit "kernelmod: read " ++ str source ∷ lit ": ") e);
}
finish source s none =
    let joined = trim_space s.pending in
    if is_empty s.pending || is_empty joined
    then record { value = s.directives; err = none }
    else settle (emit source s joined s.pending_start)

unfoldable pub run :
    Text → ConfState → List Text → Option (ScanError Error) → Outcome (List ConfDirective)
unfolding finish
run source s [] stop = finish source s stop
run source s (raw ∷ rest) stop = elim (step source s raw) [
  | continue t ↦ run source t rest stop
  | abort ds e ↦ record { value = ds; err = some e }
]

unfoldable pub parse_conf_reader : Reader Error → Text → Outcome (List ConfDirective)
unfolding run
parse_conf_reader r source = run source initial (scan r).lines (scan r).stop

-- The accumulating loop of InstallTarget: `some` is `found`, with the target.
unfoldable pub install_loop : Option Text → List ConfDirective → Text → Option Text
install_loop target [] m = target
install_loop target (d ∷ ds) m =
    install_loop
      (if not (equal d.kind (codes "install")) || not (equal d.module_name m)
        then target
        else some (join (codes " ") d.args))
      ds m

unfoldable pub install_target : List ConfDirective → Text → Option Text
unfolding install_loop
install_target ds m = install_loop none ds m

unfoldable pub is_blacklisted : List ConfDirective → Text → Bool
is_blacklisted [] m = false
is_blacklisted (d ∷ ds) m =
    if equal d.kind (codes "blacklist") && equal d.module_name m then true else is_blacklisted ds m
