-- ===== src/Hostinfo/OsRelease.antt =====
-- internal/hostinfo/osrelease.go: the parser of os-release(5).
pub mod Quoting
pub mod Tolerance
use copyfail_validation.Base.{
  ℕ, List, [], ◌∷◌, ◌++◌, Bool, true, false, not, ◌&&◌, ◌||◌, Option, none, some, leb, ◌==◌,
  is_empty, if◌then◌else◌,
}
use copyfail_validation.Text.{
  Text, codes, equal, trim_space, trim_right, is_blank, has_prefix, drop_last,
}
use copyfail_validation.Text.Scan.{Reader, ScanError, too_long, read_error, scan}
use copyfail_validation.Errors.{Error, Outcome, plain, wrap, lit}

unfoldable pub is_letter : ℕ → Bool
is_letter c = leb b'A' c && leb c b'Z' || leb b'a' c && leb c b'z' || c == b'_'

unfoldable pub is_digit : ℕ → Bool
is_digit c = leb b'0' c && leb c b'9'

unfoldable pub key_tail : Text → Bool
unfolding is_letter is_digit
key_tail [] = true
key_tail (c ∷ s) = (is_letter c || is_digit c) && key_tail s

unfoldable pub is_valid_key : Text → Bool
unfolding key_tail
is_valid_key [] = false
is_valid_key (c ∷ s) = is_letter c && key_tail s

-- What a backslash may stand before.
unfoldable pub is_escaped : ℕ → Bool
is_escaped c = c == b'"' || c == b'\'' || c == b'\\' || c == b'$' || c == b'`'

unfoldable pub expand_loop : Text → Text
unfolding is_escaped
expand_loop [] = []
expand_loop (c ∷ []) = c ∷ []
expand_loop (c ∷ d ∷ s) =
    let taken = d ∷ expand_loop s in
    let kept = c ∷ expand_loop (d ∷ s) in if c == b'\\' && is_escaped d then taken else kept

abbrev pub contains : ℕ → Text → Bool
contains c [] = false
contains c (d ∷ s) = d == c || contains c s

unfoldable pub expand_escapes : Text → Text
unfolding expand_loop
expand_escapes s = if contains b'\\' s then expand_loop s else s

unfoldable pub ends_in : ℕ → Text → Bool
ends_in c [] = false
ends_in c (d ∷ []) = d == c
ends_in c (d ∷ e ∷ s) = ends_in c (e ∷ s)

-- `none` is the result for unbalanced quotes.
unfoldable pub unquote : Text → Option Text
unfolding expand_escapes ends_in
unquote [] = some []
unquote (c ∷ s) =
    if c == b'"'
    then (if ends_in b'"' s then some (expand_escapes (drop_last s)) else none)
    else if c == b'\''
    then (if ends_in b'\'' s then some (drop_last s) else none)
    else some (trim_right is_blank (c ∷ s))

abbrev pub with_front : ℕ → Option (Text × Text) → Option (Text × Text)
with_front d none = none
with_front d (some (front, back)) = some (d ∷ front, back)

-- The text up to the first `c`, and the text behind it.
unfoldable pub cut : ℕ → Text → Option (Text × Text)
cut c [] = none
cut c (d ∷ s) = let rest = with_front d (cut c s) in if d == c then some ([], s) else rest

unfoldable pub with_value : Text → Option Text → Option (Text × Text)
with_value key none = none
with_value key (some value) = some (key, value)

unfoldable pub on_cut : Option (Text × Text) → Option (Text × Text)
unfolding is_valid_key unquote with_value
on_cut none = none
on_cut (some (key, raw)) = if is_valid_key key then with_value key (unquote raw) else none

unfoldable pub split_key_value : Text → Option (Text × Text)
unfolding on_cut cut
split_key_value line = on_cut (cut b'=' line)

pub record OsRelease : Type 0 where
  pub id : Text
  pub version_id : Text
  pub pretty_name : Text

abbrev pub nothing : OsRelease
nothing = record { id = []; version_id = []; pretty_name = [] }

unfoldable pub assign : OsRelease → Text → Text → OsRelease
unfolding equal
assign o key value =
    if equal key (codes "ID")
    then record o { id = value }
    else if equal key (codes "VERSION_ID")
    then record o { version_id = value }
    else if equal key (codes "PRETTY_NAME")
    then record o { pretty_name = value }
    else o

-- What a line assigns, if it does.
unfoldable pub assignment : Text → Option (Text × Text)
unfolding split_key_value has_prefix
assignment raw =
    let line = trim_space raw in
    if is_empty line || has_prefix line (codes "#") then none else split_key_value line

unfoldable pub read_lines : OsRelease → List Text → OsRelease
unfolding assignment assign
read_lines o [] = o
read_lines o (raw ∷ rest) =
    let skipped = read_lines o rest in
    elim (assignment raw) [
      | none ↦ skipped
      | some (key, value) ↦ read_lines (assign o key value) rest
    ]

abbrev scan_failure : ScanError Error → Error
scan_failure too_long = plain (lit "hostinfo: scan os-release: bufio.Scanner: token too long")
scan_failure (read_error e) = wrap (lit "hostinfo: scan os-release: ") e

unfoldable pub parse_os_release : Reader Error → Outcome OsRelease
unfolding read_lines
parse_os_release r = elim (scan r).stop [
  | some e ↦ record { value = nothing; err = some (scan_failure e) }
  | none ↦ record { value = read_lines nothing (scan r).lines; err = none }
]
