-- ===== src/Text.antt =====
-- Go strings, and what the program uses of the packages `strings`, `bufio` and `strconv`.
-- A text is a list of code points; a byte that is not part of a valid UTF-8 encoding stands
-- for itself as 0x110000 plus the byte, so that every Go string is a text.
pub mod Scan
pub mod Number
pub mod Order
pub mod Decimal
pub mod Utf8
pub mod Date
pub mod Laws
pub mod Words
pub mod Lines
use Prim.Native.Char.{code}
use copyfail_validation.Base.{
  ℕ, String, List, [], ◌∷◌, ◌++◌, Bool, true, false, ◌&&◌, ◌||◌, ◌==◌, leb, is_empty, keep,
  if◌then◌else◌, ◌+◌, not,
}

abbrev pub Text : Type 0
Text = List ℕ

-- A literal of the source.
abbrev pub codes : String → Text
codes String.[] = []
codes (String.◌∷◌ c s) = code c ∷ codes s

-- `a == b`
unfoldable pub equal : Text → Text → Bool
equal [] [] = true
equal (x ∷ xs) (y ∷ ys) = x == y && equal xs ys
equal _ _ = false

-- unicode.IsSpace
unfoldable pub is_space : ℕ → Bool
is_space c =
    leb 9 c && leb c 13
    || c == 32
    || c == 0x85
    || c == 0xa0
    || c == 0x1680
    || leb 0x2000 c && leb c 0x200a
    || c == 0x2028
    || c == 0x2029
    || c == 0x202f
    || c == 0x205f
    || c == 0x3000

-- The cutset " \t" of strings.TrimRight and strings.TrimLeft.
unfoldable pub is_blank : ℕ → Bool
is_blank c = c == b' ' || c == b'\t'

unfoldable pub trim_left : (ℕ → Bool) → Text → Text
trim_left p [] = []
trim_left p (c ∷ s) = let rest = trim_left p s in if p c then rest else c ∷ s

unfoldable pub trim_right : (ℕ → Bool) → Text → Text
trim_right p [] = []
trim_right p (c ∷ s) = let rest = trim_right p s in if p c && is_empty rest then [] else c ∷ rest

-- strings.TrimSpace
unfoldable pub trim_space : Text → Text
unfolding trim_left trim_right
trim_space s = trim_right is_space (trim_left is_space s)

-- The pieces between separators: the one that stands first, and the others.
unfoldable pub pieces : (ℕ → Bool) → Text → Text × List Text
pieces sep [] = ([], [])
pieces sep (c ∷ s) = let (w, ws) = pieces sep s in if sep c then ([], w ∷ ws) else (c ∷ w, ws)

-- strings.Split by one separator.
unfoldable pub split : (ℕ → Bool) → Text → List Text
unfolding pieces
split sep s = (pieces sep s).0 ∷ (pieces sep s).1

-- strings.Fields
unfoldable pub fields : Text → List Text
unfolding split
fields s = keep (λ w. not (is_empty w)) (split is_space s)

-- strings.Join
unfoldable pub join : Text → List Text → Text
join sep [] = []
join sep (w ∷ []) = w
join sep (w ∷ v ∷ ws) = w ++ (sep ++ join sep (v ∷ ws))

-- strings.HasPrefix
unfoldable pub has_prefix : Text → Text → Bool
has_prefix s [] = true
has_prefix [] (p ∷ ps) = false
has_prefix (c ∷ s) (p ∷ ps) = c == p && has_prefix s ps

-- strings.Contains
unfoldable pub contains : Text → Text → Bool
unfolding has_prefix
contains [] p = has_prefix [] p
contains (c ∷ s) p = has_prefix (c ∷ s) p || contains s p

-- strings.HasSuffix
unfoldable pub has_suffix : Text → Text → Bool
unfolding equal
has_suffix [] p = equal [] p
has_suffix (c ∷ s) p = equal (c ∷ s) p || has_suffix s p

-- What stands before the first `c`: `line[:idx]` for strings.IndexByte.
unfoldable pub before : ℕ → Text → Text
before c [] = []
before c (d ∷ s) = let rest = before c s in if d == c then [] else d ∷ rest

-- All but the last code point.
unfoldable pub drop_last : Text → Text
drop_last [] = []
drop_last (c ∷ []) = []
drop_last (c ∷ d ∷ s) = c ∷ drop_last (d ∷ s)

-- strings.ToLower, as far as its result is compared with ASCII text: besides A to Z only U+0130
-- and U+212A have a lower case in ASCII.
abbrev pub lower_code : ℕ → ℕ
lower_code c =
    if leb b'A' c && leb c b'Z'
    then c + 32
    else if c == 0x130
    then b'i'
    else if c == 0x212a
    then b'k'
    else c

unfoldable pub to_lower : Text → Text
to_lower [] = []
to_lower (c ∷ s) = lower_code c ∷ to_lower s
