-- ===== src/Render/Values.antt =====
-- internal/render/prom.go: the labels and the durations of the text format of Prometheus.
use Prim.Native.Nat.{◌/◌, ◌%◌}
use copyfail_validation.Base.{
  ℕ, [], ◌∷◌, ◌++◌, ◌+◌, ◌-◌, ◌^◌, ◌<◌, Bool, true, false, Option, none, some, ◌==◌, ltb, length,
  if◌then◌else◌, ◌≡◌, refl, ap, ◌∙◌, arith, All,
}
use mathlib.Core.List.{append_assoc}
use copyfail_validation.Text.{Text, codes, trim_right}
use copyfail_validation.Text.Laws.{Free}
use copyfail_validation.Text.Words.{Free-append}
use copyfail_validation.Text.Decimal.{format_ℕ}

-- What is written for a code point of a label; a byte that is no valid UTF-8 becomes U+FFFD.
unfoldable pub escape_code : ℕ → Text
escape_code c =
    if c == b'\\'
    then codes "\\\\"
    else if c == b'"'
    then codes "\\\""
    else if c == b'\n'
    then codes "\\n"
    else if ltb c 0x110000
    then c ∷ []
    else 0xfffd ∷ []

unfoldable pub escape_label : Text → Text
unfolding escape_code
escape_label [] = []
escape_label (c ∷ s) = escape_code c ++ escape_label s

unfoldable pub prom_label_value : Text → Text
unfolding escape_label
prom_label_value v = b'"' ∷ (escape_label v ++ b'"' ∷ [])

abbrev pub is_zero_digit : ℕ → Bool
is_zero_digit c = c == b'0'

-- Three digits.
abbrev pub padded : ℕ → Text
padded n = (b'0' + n / 100) ∷ (b'0' + n / 10 % 10) ∷ (b'0' + n % 10) ∷ []

-- An exponent of at least two digits.
unfoldable pub exponent : ℕ → Text
unfolding format_ℕ
exponent n = if ltb n 10 then b'0' ∷ format_ℕ n else format_ℕ n

-- The mantissa of digits.
unfoldable pub mantissa : Text → Text
unfolding trim_right
mantissa [] = []
mantissa (c ∷ s) =
    let rest = trim_right is_zero_digit s in c ∷ (elim rest [ [] ↦ [] | d ∷ t ↦ b'.' ∷ (d ∷ t) ])

-- formatFloat of a number of milliseconds over 1000: the shortest decimal that stands for it, below
-- 10 ^ 15 milliseconds, where a float64 still tells neighbours apart. `%g` has an exponent from 10 ^ 6 on.
unfoldable pub format_seconds : ℕ → Text
unfolding format_ℕ trim_right exponent mantissa
format_seconds ms =
    if ms % 1000 == 0
    then format_ℕ (ms / 1000)
    else if ltb ms (10 ^ 9)
    then format_ℕ (ms / 1000) ++ (b'.' ∷ trim_right is_zero_digit (padded (ms % 1000)))
    else mantissa (format_ℕ ms) ++ (codes "e+" ++ exponent (length (format_ℕ ms) - 4))

abbrev pub with_front : ℕ → Option (Text × Text) → Option (Text × Text)
with_front c none = none
with_front c (some (v, t)) = some (c ∷ v, t)

-- A reader of a label behind its first quote: the label, and what follows its last quote. The flag says
-- that a backslash stands before.
unfoldable pub read_label : Bool → Text → Option (Text × Text)
read_label escaped [] = none
read_label true (c ∷ s) = with_front (if c == b'n' then b'\n' else c) (read_label false s)
read_label false (c ∷ s) =
    let plain = with_front c (read_label false s) in
    let after = read_label true s in
    if c == b'"' then some ([], s) else if c == b'\\' then after else plain

-- Text that is valid UTF-8.
abbrev pub IsUnicode : Text → Type 0
IsUnicode = All (λ c. c < 0x110000)

read_label-escape_code :
    (c : ℕ) (s : Text)
    → c < 0x110000
    → read_label false (escape_code c ++ s) ≡ with_front c (read_label false s)
unfolding read_label escape_code
read_label-escape_code c s h = ground (arith, h)

escape_code-Free : (c : ℕ) → Free (λ d. d == b'\n') (escape_code c)
unfolding escape_code
escape_code-Free c = ground arith

escape_label-Free : (v : Text) → Free (λ d. d == b'\n') (escape_label v)
unfolding escape_label
escape_label-Free [] = tt
escape_label-Free (c ∷ v) =
    Free-append (λ d. d == b'\n') (escape_code c) (escape_label v) (escape_code-Free c)
      (escape_label-Free v)

read_label-escape_label :
    (v rest : Text)
    → IsUnicode v
    → read_label false (escape_label v ++ b'"' ∷ rest) ≡ some (v, rest)
unfolding read_label escape_label
read_label-escape_label [] rest h = refl
read_label-escape_label (c ∷ v) rest h =
    ap (read_label false) (append_assoc (escape_code c) (escape_label v) (b'"' ∷ rest))
    ∙ read_label-escape_code c (escape_label v ++ b'"' ∷ rest) h.0
    ∙ ap (with_front c) (read_label-escape_label v rest h.1)

-- The reader of a label: a quote, and what stands before the next quote that is not escaped.
abbrev pub parse_label : Text → Option (Text × Text)
parse_label [] = none
parse_label (c ∷ s) = if c == b'"' then read_label false s else none

-- A label of valid UTF-8 is read back from what is written for it, with any text behind it, and it
-- stays on its line whatever it holds.
pub parse_label-prom_label_value :
    (v rest : Text)
    → IsUnicode v
    → (parse_label (prom_label_value v ++ rest) ≡ some (v, rest))
      × Free (λ d. d == b'\n') (prom_label_value v)
unfolding prom_label_value
parse_label-prom_label_value v rest h = (
  ap (read_label false) (append_assoc (escape_label v) (b'"' ∷ []) rest)
      ∙ read_label-escape_label v rest h,
  (
    refl,
    Free-append (λ d. d == b'\n') (escape_label v) (b'"' ∷ []) (escape_label-Free v) (refl, tt),
  ),
)
