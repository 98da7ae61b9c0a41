-- ===== src/Redact.antt =====
-- internal/redact/redact.go: the replacement of secrets in a text. The regular expression is written out
-- as the matcher that it stands for, which takes the leftmost match and tries the longer choice first.
pub mod Keywords
pub mod Secrecy
pub mod Whole
use copyfail_validation.Base.{
  ℕ, zero, suc, List, [], ◌∷◌, ◌++◌, Bool, true, false, ◌&&◌, ◌||◌, Option, none, some, ◌==◌, ◌+◌,
  leb, length, if◌then◌else◌,
}
use copyfail_validation.Text.{Text, codes}

-- A code point under `(?i)`: the letters that fold to a small one, two of them outside ASCII.
unfoldable pub fold_case : ℕ → ℕ
fold_case c =
    if leb b'A' c && leb c b'Z'
    then c + 32
    else if c == 0x17f
    then b's'
    else if c == 0x212a
    then b'k'
    else c

-- The words that RedactionPattern spells, the longer ones of a choice first.
abbrev pub keywords : List Text
keywords =
    codes "password"
    ∷ codes "passwd"
    ∷ codes "token"
    ∷ codes "secret"
    ∷ codes "bearer"
    ∷ codes "api_key"
    ∷ codes "api-key"
    ∷ codes "apikey"
    ∷ codes "aws_access_key_id"
    ∷ codes "aws_access_key"
    ∷ codes "aws_secret_access_key_id"
    ∷ codes "aws_secret_access_key"
    ∷ codes "aws_secret_key_id"
    ∷ codes "aws_secret_key"
    ∷ codes "aws_session_token"
    ∷ codes "authorization"
    ∷ []

abbrev pub replacement : Text
replacement = codes "***REDACTED***"

-- A match, and the text behind it.
abbrev pub Match : Type 0
Match = Option (Text × Text)

abbrev pub with_code : ℕ → Match → Match
with_code c none = none
with_code c (some (m, rest)) = some (c ∷ m, rest)

-- `\s`
unfoldable pub is_blank : ℕ → Bool
is_blank c = c == b' ' || c == b'\t' || c == b'\n' || c == b'\r' || c == 12

-- `[:=]`
unfoldable pub is_separator : ℕ → Bool
is_separator c = c == b':' || c == b'='

-- `.*`
unfoldable pub rest_of_line : Text → Text × Text
rest_of_line [] = ([], [])
rest_of_line (c ∷ s) =
    let (m, rest) = rest_of_line s in if c == b'\n' then ([], c ∷ s) else (c ∷ m, rest)

-- `.+`
unfoldable pub match_value : Text → Match
unfolding rest_of_line
match_value [] = none
match_value (c ∷ s) =
    let (m, rest) = rest_of_line s in if c == b'\n' then none else some (c ∷ m, rest)

abbrev pub or_match : Match → Match → Match
or_match (some m) other = some m
or_match none other = other

-- `\s*.+`
unfoldable pub match_spaced_value : Text → Match
unfolding match_value is_blank
match_spaced_value [] = none
match_spaced_value (c ∷ s) =
    let longer = match_spaced_value s in
    if is_blank c then or_match (with_code c longer) (match_value (c ∷ s)) else match_value (c ∷ s)

-- `\s*[:=]\s*.+`
unfoldable pub match_assignment : Text → Match
unfolding match_spaced_value is_blank is_separator
match_assignment [] = none
match_assignment (c ∷ s) =
    let later = match_assignment s in
    if is_blank c
    then with_code c later
    else if is_separator c
    then with_code c (match_spaced_value s)
    else none

-- A keyword and what is assigned to it.
unfoldable pub match_keyword : Text → Text → Match
unfolding match_assignment fold_case
match_keyword [] s = match_assignment s
match_keyword (k ∷ ks) [] = none
match_keyword (k ∷ ks) (c ∷ s) = if fold_case c == k then with_code c (match_keyword ks s) else none

unfoldable pub match_any : List Text → Text → Match
unfolding match_keyword
match_any [] s = none
match_any (k ∷ ks) s = or_match (match_keyword k s) (match_any ks s)

-- The match of RedactionPattern at the start of a text.
unfoldable pub match_here : Text → Match
unfolding match_any
match_here s = match_any keywords s

-- The text before the first separator.
unfoldable pub before_separator : Text → Option Text
unfolding is_separator
before_separator [] = none
before_separator (c ∷ m) =
    let rest = before_separator m in
    if is_separator c then some [] else elim rest [ none ↦ none | some k ↦ some (c ∷ k) ]

-- The marker behind the keyword; without a separator, which no match is, the marker alone.
abbrev pub marked : Option Text → Text
marked none = replacement
marked (some k) = k ++ b'=' ∷ replacement

-- What Redact writes for a match.
unfoldable pub redact_match : Text → Text
unfolding before_separator
redact_match m = marked (before_separator m)

-- What a match covers behind its first code point.
abbrev pub behind_first : Text → ℕ
behind_first [] = 0
behind_first (c ∷ m) = length m

-- The text behind a number of code points that a match covers.
unfoldable pub replace_all : ℕ → Text → Text
unfolding match_here redact_match
replace_all skip [] = []
replace_all (suc skip) (c ∷ s) = replace_all skip s
replace_all zero (c ∷ s) = elim (match_here (c ∷ s)) [
  | none ↦ c ∷ replace_all zero s
  | some (m, rest) ↦ redact_match m ++ replace_all (behind_first m) s
]

unfoldable pub redact : Text → Text
unfolding replace_all
redact s = replace_all 0 s
